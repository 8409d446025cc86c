-- ===== src/Dlq/Machine/Leasing/Oldest.antt =====
-- dlq/machine.go: no eligible item is passed over for a younger one.
use go_guard_lib.Prelude.{
  ℕ, zero, suc, ◌+◌, ◌<◌, ◌≡◌, ◌⊎◌, refl, Bool, true, false, ◌&&◌, ◌||◌, ltb, leb, ◌==◌, none, some,
  List, [], ◌∷◌, length, arith, Option-cases, inl, inr,
}
use go_guard_lib.Dlq.Ordered.Reference.{Above, Ascending}
use go_guard_lib.Dlq.Machine.{MemItem, Machine, find_seq}
use go_guard_lib.Dlq.Machine.View.{seqs, find-seq}
use go_guard_lib.Dlq.Machine.Leasing.{Best, best_head, merge, scan_items, eligible, earlier, due_at}
use go_guard_lib.Dlq.Machine.Leasing.Merging.{IsSplit, best_head-IsSplit}

abbrev pub has : ℕ → List ℕ → Bool
has s [] = false
has s (x ∷ xs) = (x == s) || has s xs

abbrev pub below : ℕ → List ℕ → Bool
below s [] = true
below s (x ∷ xs) = ltb x s && below s xs

-- The item is in the list, or the list has `n` items and all are older.
abbrev pub served : ℕ → ℕ → List MemItem → Bool
served n s l = has s (seqs l) || leb n (length l) && below s (seqs l)

abbrev pub covered : ℕ → ℕ → List (List MemItem) → Bool
covered n s [] = false
covered n s (l ∷ ls) = served n s l || covered n s ls

covered-fewer :
    (n s : ℕ) (ls : List (List MemItem)) → covered (suc n) s ls ≡ true → covered n s ls ≡ true
covered-fewer n s [] h = cc
covered-fewer n s (l ∷ ls) h = ground (arith, covered-fewer n s ls)

covered-none :
    (n s : ℕ) (ls : List (List MemItem)) → best_head ls ≡ none → covered (suc n) s ls ≡ false
unfolding best_head
covered-none n s [] e = refl
covered-none n s ([] ∷ ls) e = elim (Option-cases (best_head ls)) [
  | inl q ↦ ground (arith, covered-none n s ls q)
  | inr (b, q) ↦ ground arith
]
covered-none n s ((x ∷ xs) ∷ ls) e = cc

Above-has : (n s : ℕ) (l : List ℕ) → Above n l → has s l ≡ true → n < s
Above-has n s [] v h = cc
Above-has n s (x ∷ xs) v h = ground (arith, Above-has n s xs v.1)

covered-head :
    (n s : ℕ) (ls : List (List MemItem)) (b : Best)
    → IsSplit ls
    → covered (suc n) s ls ≡ true
    → best_head ls ≡ some b
    → (b.first.stored.seq ≡ s) ⊎ (b.first.stored.seq < s) × (covered n s b.others ≡ true)
unfolding best_head
covered-head n s [] b v h e = cc
covered-head n s ([] ∷ ls) b v h e = elim (Option-cases (best_head ls)) [
  | inl q ↦ ground arith
  | inr (c, q) ↦ ground (arith, covered-head n s ls c v.2)
]
covered-head n s ((x ∷ xs) ∷ ls) b v h e = elim (Option-cases (best_head ls)) [
  | inl q ↦ ground (arith, covered-none n s ls q, Above-has x.stored.seq s (seqs xs) v.0.0)
  | inr (c, q) ↦ ground (
    arith,
    covered-head n s ls c v.2,
    covered-fewer n s ls,
    Above-has x.stored.seq s (seqs xs) v.0.0,
  )
]

-- What is covered before the merge is served by it.
pub merge-served :
    (n s : ℕ) (ls : List (List MemItem))
    → IsSplit ls
    → covered n s ls ≡ true
    → served n s (merge n ls) ≡ true
unfolding merge
merge-served zero s ls v h = refl
merge-served (suc n) s ls v h = elim (Option-cases (best_head ls)) [
  | inl q ↦ ground (arith, covered-none n s ls q)
  | inr (b, q) ↦
      ground
        (arith, covered-head n s ls b v h q, merge-served n s b.others (best_head-IsSplit ls b v q))
]

-- A scan finds an eligible item, or enough older ones.
pub scan_items-served :
    (m : Machine) (now max n next s : ℕ) (l : List ℕ) (it : MemItem)
    → Ascending l
    → has s l ≡ true
    → find_seq s m.items ≡ some it
    → eligible m it now ≡ true
    → n < max
    → let out = (scan_items m now max n next l).out in
      (has s (seqs out) ≡ true) ⊎ ((max ≡ length out + n) × (below s (seqs out) ≡ true))
unfolding scan_items
scan_items-served m now max n next s [] it v h f e lt = cc
scan_items-served m now max n next s (x ∷ xs) it v h f e lt =
    elim (Option-cases (find_seq x m.items)) [
      | inl q ↦ ground (arith, scan_items-served m now max n next s xs it v.1)
      | inr (y, q) ↦ ground (
        arith,
        find-seq x m.items y q,
        Above-has x s xs v.0,
        scan_items-served m now max (n + 1) next s xs it v.1,
        scan_items-served m now max n (earlier now (due_at y y.stored.state) next) s xs it v.1,
      )
    ]
