-- ===== src/Dlq/Ordered.antt =====
-- dlq/machine.go: `insertOrdered`, and removal, on a list of items in Seq order. An item stands for
-- itself by its Seq, which no two items share. `hint` is the Seq of the element that was inserted
-- last, if that is known.
pub mod Reference
use go_guard_lib.Prelude.{
  ℕ, Bool, true, false, ◌&&◌, ◌||◌, not, if◌then◌else◌, ltb, leb, ◌==◌, Option, none, some, List,
  [], ◌∷◌,
}

abbrev next_above : ℕ → List ℕ → Bool
next_above s [] = true
next_above s (x ∷ xs) = ltb s x

abbrev prefix : ℕ → Option (List ℕ) → Option (List ℕ)
prefix x none = none
prefix x (some ys) = some (x ∷ ys)

-- The place after the hint, if it is the right one.
after_hint : ℕ → ℕ → List ℕ → Option (List ℕ)
after_hint h s [] = none
after_hint h s (x ∷ xs) =
    if x == h
    then (if ltb h s && next_above s xs then some (x ∷ s ∷ xs) else none)
    else prefix x (after_hint h s xs)

-- The walk from the back to the last element that is not above `s`.
insert_back : ℕ → List ℕ → Option (List ℕ)
insert_back s [] = none
insert_back s (x ∷ xs) = elim (insert_back s xs) [
  | none ↦ if leb x s then some (x ∷ s ∷ xs) else none
  | some ys ↦ some (x ∷ ys)
]

abbrev or_front : ℕ → List ℕ → Option (List ℕ) → List ℕ
or_front s l none = s ∷ l
or_front s l (some ys) = ys

insert_slow : ℕ → List ℕ → List ℕ
unfolding insert_back
insert_slow s l = if next_above s l then s ∷ l else or_front s l (insert_back s l)

abbrev try_hint : Option ℕ → ℕ → List ℕ → Option (List ℕ)
try_hint none s l = none
try_hint (some h) s l = after_hint h s l

abbrev or_slow : ℕ → List ℕ → Option (List ℕ) → List ℕ
or_slow s l none = insert_slow s l
or_slow s l (some ys) = ys

abbrev pub has_seq : ℕ → List ℕ → Bool
has_seq n [] = false
has_seq n (x ∷ xs) = (x == n) || has_seq n xs

-- Whether the hint, if there is one, is an element of the list.
abbrev pub is_within : Option ℕ → List ℕ → Bool
is_within none l = true
is_within (some h) l = has_seq h l

-- A hint that was removed from the list has_seq no `Next`, and `InsertAfter` it inserts nothing.
abbrev pub is_lost : Option ℕ → ℕ → List ℕ → Bool
is_lost none s l = false
is_lost (some h) s l = not (has_seq h l) && ltb h s

-- The new list.
unfoldable pub insert_ordered : List ℕ → ℕ → Option ℕ → List ℕ
unfolding after_hint insert_slow
insert_ordered l s hint = if is_lost hint s l then l else or_slow s l (try_hint hint s l)

-- The new hint is the element that was inserted.
abbrev pub new_hint : List ℕ → ℕ → Option ℕ → Option ℕ
new_hint l s hint = if is_lost hint s l then none else some s

-- The hint when an element is removed.
abbrev pub forget_hint : Option ℕ → ℕ → Option ℕ
forget_hint none s = none
forget_hint (some h) s = if h == s then none else some h

-- `list.List.Remove`.
unfoldable pub remove_elem : ℕ → List ℕ → List ℕ
remove_elem s [] = []
remove_elem s (x ∷ xs) = if x == s then xs else x ∷ remove_elem s xs
