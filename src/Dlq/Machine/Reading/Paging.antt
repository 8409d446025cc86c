-- ===== src/Dlq/Machine/Reading/Paging.antt =====
-- dlq/machine.go: pages of parked items, asked for one after the other, miss nothing.
use go_guard_lib.Prelude.{
  ℕ, ◌+◌, ◌≤◌, ◌<◌, ◌≡◌, refl, Bool, if◌then◌else◌, leb, some, List, [], ◌∷◌, ◌++◌, arith,
  Bool-cases, inl, inr,
}
use go_guard_lib.Dlq.Ordered.Reference.{Above, Ascending}
use go_guard_lib.Dlq.Machine.{MemItem, Machine, find_seq}
use go_guard_lib.Dlq.Machine.View.{seqs, pick, find-seq, find-Above, pick-Ascending}
use go_guard_lib.Dlq.Machine.Index.{IsIndexed, in_park}
use go_guard_lib.Dlq.Machine.Leasing.Merging.{Above-trans}
use go_guard_lib.Dlq.Machine.Reading.{scan_parked, page_limit, parked_items}

-- The Seqs above `after`.
abbrev pub later : ℕ → List ℕ → List ℕ
later after [] = []
later after (x ∷ xs) = if leb x after then later after xs else x ∷ later after xs

-- The Seq that the next page is asked for with.
abbrev pub last_of : ℕ → List ℕ → ℕ
last_of after [] = after
last_of after (x ∷ xs) = last_of x xs

abbrev pub Known : List MemItem → List ℕ → Type 0
Known items [] = Unit {0}
Known items (s ∷ ss) = ((it : MemItem) × (find_seq s items ≡ some it)) × Known items ss

later-Above : (n : ℕ) (l : List ℕ) → Above n l → later n l ≡ l
later-Above n [] v = refl
later-Above n (x ∷ xs) v = ground (arith, later-Above n xs v.1)

last-Above : (k : ℕ) (l : List ℕ) → Above k l → k ≤ last_of k l
last-Above k [] v = omega arith
last-Above k (x ∷ []) v = ground (arith, v)
last-Above k (x ∷ y ∷ ys) v = ground (arith, v, last-Above k (y ∷ ys) v.1)

cons-later :
    (x after : ℕ) (xs p : List ℕ)
    → after < x
    → Above x xs
    → Above x p
    → later after xs ≡ p ++ later (last_of after p) xs
    → x ∷ later after xs ≡ x ∷ (p ++ later (last_of x p) (x ∷ xs))
cons-later x after xs [] h v w e =
    ground
      (arith, later-Above x xs v, later-Above after xs (Above-trans after x xs (omega arith) v))
cons-later x after xs (y ∷ ys) h v w e = ground (arith, e, last-Above x (y ∷ ys) w)

module _ (items : List MemItem) (after limit : ℕ) where
  scan_parked-Above :
      (k n bytes : ℕ) (l : List ℕ)
      → Above k l
      → Known items l
      → Above k (seqs (scan_parked items after limit n bytes l))
  unfolding scan_parked
  scan_parked-Above k n bytes [] v w = tt
  scan_parked-Above k n bytes (x ∷ xs) v w =
      let (it, f) = w.0 in
      let n' = if leb x after then n else n + 1 in
      let b' = if leb x after then bytes else bytes + it.size in
      ground (arith, find-seq x items it f, f, v.0, scan_parked-Above k n' b' xs v.1 w.1)

  scan_parked-after :
      (n bytes : ℕ) (l : List ℕ)
      → Known items l
      → Above after (seqs (scan_parked items after limit n bytes l))
  unfolding scan_parked
  scan_parked-after n bytes [] w = tt
  scan_parked-after n bytes (x ∷ xs) w =
      let (it, f) = w.0 in
      let n' = if leb x after then n else n + 1 in
      let b' = if leb x after then bytes else bytes + it.size in
      ground (arith, find-seq x items it f, f, scan_parked-after n' b' xs w.1)

scan_parked-later :
    (items : List MemItem) (after limit n bytes : ℕ) (l : List ℕ)
    → Ascending l
    → Known items l
    → let page = seqs (scan_parked items after limit n bytes l) in
      later after l ≡ page ++ later (last_of after page) l
unfolding scan_parked
scan_parked-later items after limit n bytes [] v k = refl
scan_parked-later items after limit n bytes (x ∷ xs) v k =
    let (it, f) = k.0 in
    let n' = if leb x after then n else n + 1 in
    let b' = if leb x after then bytes else bytes + it.size in
    let p = seqs (scan_parked items after limit n' b' xs) in
    ground (
      arith,
      find-seq x items it f,
      f,
      later-Above x xs v.0,
      scan_parked-later items after limit n' b' xs v.1 k.1,
      cons-later x after xs p,
      scan_parked-Above items after limit x n' b' xs v.0 k.1,
      last-Above after p (scan_parked-after items after limit n' b' xs k.1),
    )

scan_parked-empty :
    (items : List MemItem) (after limit bytes : ℕ) (l : List ℕ)
    → Known items l
    → 0 < limit
    → scan_parked items after limit 0 bytes l ≡ []
    → later after l ≡ []
unfolding scan_parked
scan_parked-empty items after limit bytes [] k h e = refl
scan_parked-empty items after limit bytes (x ∷ xs) k h e =
    let (it, f) = k.0 in
    ground (arith, find-seq x items it f, f, scan_parked-empty items after limit bytes xs k.1 h)

Known-cons :
    (items : List MemItem) (p : MemItem → Bool) (x : MemItem) (xs : List MemItem)
    → find_seq x.stored.seq items ≡ some x
    → Known items (pick p xs)
    → Known items (pick p (x ∷ xs))
Known-cons items p x xs e k = elim (Bool-cases (p x)) [ inl h ↦ rw h ((x, e), k) | inr h ↦ rw h k ]

known :
    (items : List MemItem) (p : MemItem → Bool) (l : List MemItem)
    → ((x : MemItem) → find_seq x.stored.seq l ≡ some x → find_seq x.stored.seq items ≡ some x)
    → Ascending (seqs l)
    → Known items (pick p l)
unfolding find_seq
known items p [] k v = tt
known items p (x ∷ xs) k v =
    let here : find_seq x.stored.seq items ≡ some x = k x (ground arith) in
    let rest =
      known items p xs
        (λ y e. k y (ground (arith, e, find-Above x.stored.seq y.stored.seq xs y v.0))) v.1 in
    Known-cons items p x xs here rest

-- On a queue whose index is exact, a page of parked items holds the first of the parked items with a
-- Seq above `after`: what it leaves out are those above its last Seq. It is empty only if there are
-- none.
pub parked_items-later :
    (m : Machine) (after limit : ℕ)
    → IsIndexed m
    → let page = seqs (parked_items m after limit) in
      let all = pick in_park m.items in
      (later after all ≡ page ++ later (last_of after page) all)
      × (parked_items m after limit ≡ [] → later after all ≡ [])
unfolding parked_items
parked_items-later m after limit v =
    let k = known m.items in_park m.items (λ x e. e) v.ascending in
    let all = pick in_park m.items in
    rw v.index.in_order (
      scan_parked-later m.items after (page_limit limit) 0 0 all
          (pick-Ascending in_park m.items v.ascending) k,
      scan_parked-empty m.items after (page_limit limit) 0 all k (ground arith),
    )
