-- ===== src/Dlq/Ordered/Reference.antt =====
-- dlq/machine.go: `insertOrdered` against insertion into a sorted list.
use go_guard_lib.Prelude.{
  ℕ, ◌<◌, ◌≡◌, ◌≢◌, refl, true, false, ◌==◌, if◌then◌else◌, ltb, Option, none, some, List, [], ◌∷◌,
  arith, inl, inr, Option-cases, Bool-cases,
}
use go_guard_lib.Dlq.Ordered.{
  after_hint, insert_back, insert_slow, insert_ordered, next_above, remove_elem, has_seq, is_within,
  new_hint, forget_hint,
}

abbrev pub Above : ℕ → List ℕ → Type 0
Above n [] = Unit {0}
Above n (x ∷ xs) = (n < x) × Above n xs

abbrev pub Ascending : List ℕ → Type 0
Ascending [] = Unit {0}
Ascending (x ∷ xs) = Above x xs × Ascending xs

abbrev pub Absent : ℕ → List ℕ → Type 0
Absent s [] = Unit {0}
Absent s (x ∷ xs) = (x ≢ s) × Absent s xs

-- The reference: before the first larger element.
unfoldable pub insert_sorted : ℕ → List ℕ → List ℕ
insert_sorted s [] = s ∷ []
insert_sorted s (x ∷ xs) = if ltb s x then s ∷ x ∷ xs else x ∷ insert_sorted s xs

insert_sorted-above : (s : ℕ) (l : List ℕ) → next_above s l ≡ true → insert_sorted s l ≡ s ∷ l
unfolding insert_sorted
insert_sorted-above s [] h = refl
insert_sorted-above s (x ∷ xs) h = rw h

insert_back_lem :
    (s : ℕ) (l : List ℕ)
    → Ascending l
    → insert_back s l ≡ (if next_above s l then none else some (insert_sorted s l))
unfolding insert_back insert_sorted
insert_back_lem s [] v = refl
insert_back_lem s (x ∷ []) v = ground arith
insert_back_lem s (x ∷ y ∷ ys) v = ground (arith, insert_back_lem s (y ∷ ys) v.1)

insert_slow_lem : (s : ℕ) (l : List ℕ) → Ascending l → insert_slow s l ≡ insert_sorted s l
unfolding insert_slow
insert_slow_lem s l v = ground (arith, insert_back_lem s l v, insert_sorted-above s l)

after_hint-Above : (h s n : ℕ) (l ys : List ℕ) → Above n l → after_hint h s l ≡ some ys → n < s
unfolding after_hint
after_hint-Above h s n [] ys v e = cc
after_hint-Above h s n (x ∷ xs) ys v e = elim (Option-cases (after_hint h s xs)) [
  | inl q ↦ ground arith
  | inr (zs, q) ↦ ground (arith, after_hint-Above h s n xs zs v.1 q)
]

after_hint_lem :
    (h s : ℕ) (l ys : List ℕ) → Ascending l → after_hint h s l ≡ some ys → ys ≡ insert_sorted s l
unfolding after_hint insert_sorted
after_hint_lem h s [] ys v e = cc
after_hint_lem h s (x ∷ xs) ys v e = elim (Option-cases (after_hint h s xs)) [
  | inl n ↦ ground (arith, insert_sorted-above s xs)
  | inr (zs, n) ↦ ground (
    arith,
    insert_sorted-above s xs,
    after_hint_lem h s xs zs v.1 n,
    after_hint-Above h s x xs zs v.0 n,
  )
]

-- On a list in Seq order `insertOrdered` gives what insertion before the first larger element gives,
-- whichever element of the list the hint is, if there is one: the shortcut changes the cost and not
-- the result.
pub insert_ordered-sorted :
    (l : List ℕ) (s : ℕ) (hint : Option ℕ)
    → Ascending l
    → is_within hint l ≡ true
    → insert_ordered l s hint ≡ insert_sorted s l
unfolding insert_ordered
insert_ordered-sorted l s none v w = insert_slow_lem s l v
insert_ordered-sorted l s (some h) v w = elim (Option-cases (after_hint h s l)) [
  | inl n ↦ rw (w, n, insert_ordered) (insert_slow_lem s l v)
  | inr (ys, n) ↦ rw (w, n, insert_ordered) (after_hint_lem h s l ys v n)
]

has_seq-insert_sorted : (s : ℕ) (l : List ℕ) → has_seq s (insert_sorted s l) ≡ true
unfolding insert_sorted
has_seq-insert_sorted s [] = ground arith
has_seq-insert_sorted s (x ∷ xs) = ground (arith, has_seq-insert_sorted s xs)

-- The new hint is an element of the new list.
pub new_hint_within :
    (l : List ℕ) (s : ℕ) (hint : Option ℕ)
    → Ascending l
    → is_within hint l ≡ true
    → is_within (new_hint l s hint) (insert_ordered l s hint) ≡ true
new_hint_within l s none v w = rw (insert_ordered-sorted l s none v w) (has_seq-insert_sorted s l)
new_hint_within l s (some h) v w =
    rw (w, insert_ordered-sorted l s (some h) v w) (has_seq-insert_sorted s l)

has_seq-remove :
    (h s : ℕ) (l : List ℕ)
    → (h == s) ≡ false
    → has_seq h l ≡ true
    → has_seq h (remove_elem s l) ≡ true
unfolding remove_elem
has_seq-remove h s [] n e = ground (arith, e)
has_seq-remove h s (x ∷ xs) n e = ground (arith, n, e, has_seq-remove h s xs)

-- A hint is forgotten when its element is removed.
pub forget_hint_within :
    (hint : Option ℕ) (s : ℕ) (l : List ℕ)
    → is_within hint l ≡ true
    → is_within (forget_hint hint s) (remove_elem s l) ≡ true
forget_hint_within none s l w = refl
forget_hint_within (some h) s l w = elim (Bool-cases (h == s)) [
  | inl t ↦ rw (t) refl
  | inr n ↦ rw (n) (has_seq-remove h s l n w)
]

insert_sorted-Above : (n s : ℕ) (l : List ℕ) → n < s → Above n l → Above n (insert_sorted s l)
unfolding insert_sorted
insert_sorted-Above n s [] h v = (h, tt)
insert_sorted-Above n s (x ∷ xs) h v = ground (arith, insert_sorted-Above n s xs h v.1)

Above-mono : (m n : ℕ) (l : List ℕ) → m < n → Above n l → Above m l
Above-mono m n [] h v = tt
Above-mono m n (x ∷ xs) h v = (omega arith, Above-mono m n xs h v.1)

-- Insertion keeps the order, if the element was not there.
pub insert_sorted-Ascending :
    (s : ℕ) (l : List ℕ) → Absent s l → Ascending l → Ascending (insert_sorted s l)
unfolding insert_sorted
insert_sorted-Ascending s [] a v = (tt, tt)
insert_sorted-Ascending s (x ∷ xs) a v = elim (Bool-cases (ltb s x)) [
  | inl b ↦ rw b ((ground arith, Above-mono s x xs (ground arith) v.0), v)
  | inr b ↦
      rw b (insert_sorted-Above x s xs (ground arith) v.0, insert_sorted-Ascending s xs a.1 v.1)
]

remove_elem-Above : (n s : ℕ) (l : List ℕ) → Above n l → Above n (remove_elem s l)
unfolding remove_elem
remove_elem-Above n s [] v = tt
remove_elem-Above n s (x ∷ xs) v = ground (arith, remove_elem-Above n s xs v.1)

pub remove_elem-Ascending : (s : ℕ) (l : List ℕ) → Ascending l → Ascending (remove_elem s l)
unfolding remove_elem
remove_elem-Ascending s [] v = tt
remove_elem-Ascending s (x ∷ xs) v =
    ground (arith, remove_elem-Above x s xs v.0, remove_elem-Ascending s xs v.1)
