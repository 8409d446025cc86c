-- ===== src/Dlq/Machine/View.antt =====
-- dlq/machine.go: the Seqs of the items that pass a test, in order, and what a change of the items
-- does to them. This is what the index is compared with.
use go_guard_lib.Prelude.{
  ℕ, ◌+◌, ◌≤◌, ◌<◌, ◌≡◌, ◌≢◌, refl, Bool, if◌then◌else◌, some, List, [], ◌∷◌, ◌++◌, sum_by, arith,
}
use go_guard_lib.Dlq.Ordered.{remove_elem}
use go_guard_lib.Dlq.Ordered.Reference.{Above, Ascending, Absent, insert_sorted}
use go_guard_lib.Dlq.Machine.{MemItem, find_seq, put, delete}

abbrev pub seqs : List MemItem → List ℕ
seqs [] = []
seqs (x ∷ xs) = x.stored.seq ∷ seqs xs

abbrev pub pick : (MemItem → Bool) → List MemItem → List ℕ
pick p [] = []
pick p (x ∷ xs) = if p x then x.stored.seq ∷ pick p xs else pick p xs

pub Above-front : (s : ℕ) (l : List ℕ) → Above s l → insert_sorted s l ≡ s ∷ l
unfolding insert_sorted
Above-front s [] v = refl
Above-front s (x ∷ xs) v = ground arith

pub remove-Absent : (s : ℕ) (l : List ℕ) → Absent s l → remove_elem s l ≡ l
unfolding remove_elem
remove-Absent s [] v = refl
remove-Absent s (x ∷ xs) v = ground (arith, remove-Absent s xs v.1)

module _ (p : MemItem → Bool) where
  pub pick-Above : (n : ℕ) (xs : List MemItem) → Above n (seqs xs) → Above n (pick p xs)
  pick-Above n [] v = tt
  pick-Above n (x ∷ xs) v = ground (arith, pick-Above n xs v.1)

  pub pick-Absent : (s : ℕ) (xs : List MemItem) → Absent s (seqs xs) → Absent s (pick p xs)
  pick-Absent s [] v = tt
  pick-Absent s (x ∷ xs) v = ground (arith, pick-Absent s xs v.1)

  pub pick-Ascending : (xs : List MemItem) → Ascending (seqs xs) → Ascending (pick p xs)
  pick-Ascending [] v = tt
  pick-Ascending (x ∷ xs) v = ground (arith, pick-Above x.stored.seq xs v.0, pick-Ascending xs v.1)

pub find-Above :
    (n s : ℕ) (xs : List MemItem) (x : MemItem) → Above n (seqs xs) → find_seq s xs ≡ some x → n < s
unfolding find_seq
find-Above n s [] x v e = cc
find-Above n s (y ∷ xs) x v e = ground (arith, find-Above n s xs x v.1)

pub find-seq : (s : ℕ) (xs : List MemItem) (x : MemItem) → find_seq s xs ≡ some x → x.stored.seq ≡ s
unfolding find_seq
find-seq s [] x e = cc
find-seq s (y ∷ xs) x e = ground (arith, find-seq s xs x)

pub seqs-put : (y : MemItem) (xs : List MemItem) → seqs (put y xs) ≡ seqs xs
unfolding put
seqs-put y [] = refl
seqs-put y (x ∷ xs) = ground (arith, seqs-put y xs)

-- Replacing an item by one with its Seq.
pub pick-put :
    (p : MemItem → Bool) (x y : MemItem) (xs : List MemItem)
    → Ascending (seqs xs)
    → find_seq y.stored.seq xs ≡ some x
    → pick p (put y xs) ≡ (
        if p y
        then (if p x then pick p xs else insert_sorted y.stored.seq (pick p xs))
        else (if p x then remove_elem y.stored.seq (pick p xs) else pick p xs))
unfolding find_seq put insert_sorted remove_elem
pick-put p x y [] v e = cc
pick-put p x y (z ∷ xs) v e = ground (
  arith,
  pick-put p x y xs v.1,
  find-Above z.stored.seq y.stored.seq xs x v.0,
  Above-front z.stored.seq (pick p xs) (pick-Above p z.stored.seq xs v.0),
)

-- Taking an item out.
pub pick-delete :
    (p : MemItem → Bool) (s : ℕ) (x : MemItem) (xs : List MemItem)
    → find_seq s xs ≡ some x
    → pick p (delete s xs) ≡ (if p x then remove_elem s (pick p xs) else pick p xs)
unfolding find_seq delete remove_elem
pick-delete p s x [] e = cc
pick-delete p s x (z ∷ xs) e = ground (arith, pick-delete p s x xs)

seqs-Above-delete : (n s : ℕ) (xs : List MemItem) → Above n (seqs xs) → Above n (seqs (delete s xs))
unfolding delete
seqs-Above-delete n s [] v = tt
seqs-Above-delete n s (x ∷ xs) v = ground (arith, seqs-Above-delete n s xs v.1)

pub seqs-delete : (s : ℕ) (xs : List MemItem) → Ascending (seqs xs) → Ascending (seqs (delete s xs))
unfolding delete
seqs-delete s [] v = tt
seqs-delete s (x ∷ xs) v =
    ground (arith, seqs-Above-delete x.stored.seq s xs v.0, seqs-delete s xs v.1)

-- All of the items are at most `n`.
abbrev pub Within : ℕ → List MemItem → Type 0
Within n [] = Unit {0}
Within n (x ∷ xs) = (x.stored.seq ≤ n) × Within n xs

pub Within-mono : (m n : ℕ) (xs : List MemItem) → m ≤ n → Within m xs → Within n xs
Within-mono m n [] h v = tt
Within-mono m n (x ∷ xs) h v = (omega arith, Within-mono m n xs h v.1)

pub Within-put : (n : ℕ) (y : MemItem) (xs : List MemItem) → Within n xs → Within n (put y xs)
unfolding put
Within-put n y [] v = tt
Within-put n y (x ∷ xs) v = ground (arith, Within-put n y xs v.1)

pub Within-delete : (n s : ℕ) (xs : List MemItem) → Within n xs → Within n (delete s xs)
unfolding delete
Within-delete n s [] v = tt
Within-delete n s (x ∷ xs) v = ground (arith, Within-delete n s xs v.1)

pub Within-append :
    (n : ℕ) (y : MemItem) (xs : List MemItem)
    → Within n xs
    → y.stored.seq ≤ n
    → Within n (xs ++ y ∷ [])
Within-append n y [] v h = (h, tt)
Within-append n y (x ∷ xs) v h = (v.0, Within-append n y xs v.1 h)

seqs-Above-append :
    (n : ℕ) (y : MemItem) (xs : List MemItem)
    → Above n (seqs xs)
    → n < y.stored.seq
    → Above n (seqs (xs ++ y ∷ []))
seqs-Above-append n y [] v h = (h, tt)
seqs-Above-append n y (x ∷ xs) v h = (v.0, seqs-Above-append n y xs v.1 h)

-- A new item comes last, if it has a new Seq above the others.
pub seqs-append :
    (n : ℕ) (y : MemItem) (xs : List MemItem)
    → Within n xs
    → n < y.stored.seq
    → Ascending (seqs xs)
    → Ascending (seqs (xs ++ y ∷ []))
seqs-append n y [] w h v = (tt, tt)
seqs-append n y (x ∷ xs) w h v =
    (seqs-Above-append x.stored.seq y xs v.0 (omega arith), seqs-append n y xs w.1 h v.1)

pub Within-Absent : (n s : ℕ) (xs : List MemItem) → Within n xs → n < s → Absent s (seqs xs)
Within-Absent n s [] w h = tt
Within-Absent n s (x ∷ xs) w h = (omega arith, Within-Absent n s xs w.1 h)

pub pick-append :
    (p : MemItem → Bool) (n : ℕ) (y : MemItem) (xs : List MemItem)
    → Within n xs
    → n < y.stored.seq
    → (pick p (xs ++ y ∷ []) ≡ (if p y then insert_sorted y.stored.seq (pick p xs) else pick p xs))
      × (pick p (xs ++ y ∷ []) ≡ (if p y then pick p xs ++ y.stored.seq ∷ [] else pick p xs))
unfolding insert_sorted
pick-append p n y [] w h = ground arith
pick-append p n y (x ∷ xs) w h = ground (arith, pick-append p n y xs w.1 h)

module _ (f : MemItem → ℕ) where
  pub sum_by-put :
      (x y : MemItem) (xs : List MemItem)
      → find_seq y.stored.seq xs ≡ some x
      → sum_by f (put y xs) + f x ≡ sum_by f xs + f y
  unfolding find_seq put
  sum_by-put x y [] e = cc
  sum_by-put x y (z ∷ xs) e = ground (arith, sum_by-put x y xs)

  pub sum_by-delete :
      (s : ℕ) (x : MemItem) (xs : List MemItem)
      → find_seq s xs ≡ some x
      → sum_by f (delete s xs) + f x ≡ sum_by f xs
  unfolding find_seq delete
  sum_by-delete s x [] e = cc
  sum_by-delete s x (z ∷ xs) e = ground (arith, sum_by-delete s x xs)

pub find-put :
    (y x : MemItem) (xs : List MemItem)
    → find_seq y.stored.seq xs ≡ some x
    → find_seq y.stored.seq (put y xs) ≡ some y
unfolding find_seq put
find-put y x [] e = cc
find-put y x (z ∷ xs) e = ground (arith, find-put y x xs)

-- Replacing an item is taking it out and putting the new one in its place.
pub put-delete :
    (p : MemItem → Bool) (x y : MemItem) (xs : List MemItem)
    → Ascending (seqs xs)
    → find_seq y.stored.seq xs ≡ some x
    → pick p (put y xs) ≡ (
        if p y
        then insert_sorted y.stored.seq (pick p (delete y.stored.seq xs))
        else pick p (delete y.stored.seq xs))
unfolding find_seq put delete insert_sorted
put-delete p x y [] v e = cc
put-delete p x y (z ∷ xs) v e = ground (
  arith,
  put-delete p x y xs v.1,
  find-Above z.stored.seq y.stored.seq xs x v.0,
  Above-front z.stored.seq (pick p xs) (pick-Above p z.stored.seq xs v.0),
)

pub Above-Absent : (n : ℕ) (l : List ℕ) → Above n l → Absent n l
Above-Absent n [] v = tt
Above-Absent n (x ∷ xs) v = (omega arith, Above-Absent n xs v.1)

pub delete-Absent :
    (s : ℕ) (x : MemItem) (xs : List MemItem)
    → Ascending (seqs xs)
    → find_seq s xs ≡ some x
    → Absent s (seqs (delete s xs))
unfolding find_seq delete
delete-Absent s x [] v e = cc
delete-Absent s x (z ∷ xs) v e =
    ground (arith, delete-Absent s x xs v.1, Above-Absent z.stored.seq (seqs xs) v.0)

pub find-put-other :
    (s : ℕ) (y : MemItem) (xs : List MemItem)
    → y.stored.seq ≢ s
    → find_seq s (put y xs) ≡ find_seq s xs
unfolding find_seq put
find-put-other s y [] h = refl
find-put-other s y (x ∷ xs) h = ground (arith, find-put-other s y xs h)
