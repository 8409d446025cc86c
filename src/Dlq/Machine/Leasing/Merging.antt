-- ===== src/Dlq/Machine/Leasing/Merging.antt =====
-- dlq/machine.go: the merge of the groups' candidates gives the oldest ones, in Seq order.
use go_guard_lib.Prelude.{
  ℕ, zero, suc, ◌≤◌, ◌<◌, ◌≡◌, ◌≢◌, none, some, List, [], ◌∷◌, length, arith, Option-cases, inl,
  inr,
}
use go_guard_lib.Dlq.Ordered.Reference.{Above, Ascending, Absent}
use go_guard_lib.Dlq.Machine.{MemItem}
use go_guard_lib.Dlq.Machine.View.{seqs}
use go_guard_lib.Dlq.Machine.Leasing.{Best, best_head, merge}

abbrev pub AboveAll : ℕ → List (List MemItem) → Type 0
AboveAll n [] = Unit {0}
AboveAll n (l ∷ ls) = Above n (seqs l) × AboveAll n ls

abbrev pub NotIn : ℕ → List (List MemItem) → Type 0
NotIn s [] = Unit {0}
NotIn s (l ∷ ls) = Absent s (seqs l) × NotIn s ls

abbrev pub Apart : List MemItem → List (List MemItem) → Type 0
Apart [] ls = Unit {0}
Apart (x ∷ xs) ls = NotIn x.stored.seq ls × Apart xs ls

-- Lists in Seq order that share no Seq.
abbrev pub IsSplit : List (List MemItem) → Type 0
IsSplit [] = Unit {0}
IsSplit (l ∷ ls) = Ascending (seqs l) × Apart l ls × IsSplit ls

pub Above-trans : (m n : ℕ) (l : List ℕ) → m ≤ n → Above n l → Above m l
Above-trans m n [] h v = tt
Above-trans m n (x ∷ xs) h v = (omega arith, Above-trans m n xs h v.1)

AboveAll-trans : (m n : ℕ) (ls : List (List MemItem)) → m ≤ n → AboveAll n ls → AboveAll m ls
AboveAll-trans m n [] h v = tt
AboveAll-trans m n (l ∷ ls) h v = (Above-trans m n (seqs l) h v.0, AboveAll-trans m n ls h v.1)

best_head-none : (n : ℕ) (ls : List (List MemItem)) → best_head ls ≡ none → AboveAll n ls
unfolding best_head
best_head-none n [] e = tt
best_head-none n ([] ∷ ls) e = elim (Option-cases (best_head ls)) [
  | inl q ↦ (tt, best_head-none n ls q)
  | inr (b, q) ↦ ground arith
]
best_head-none n ((x ∷ xs) ∷ ls) e = cc

best_head-NotIn :
    (s : ℕ) (ls : List (List MemItem)) (b : Best)
    → NotIn s ls
    → best_head ls ≡ some b
    → (b.first.stored.seq ≢ s) × NotIn s b.others
unfolding best_head
best_head-NotIn s [] b v e = cc
best_head-NotIn s ([] ∷ ls) b v e = elim (Option-cases (best_head ls)) [
  | inl q ↦ ground arith
  | inr (c, q) ↦ ground (arith, best_head-NotIn s ls c v.1 q)
]
best_head-NotIn s ((x ∷ xs) ∷ ls) b v e = elim (Option-cases (best_head ls)) [
  | inl q ↦ ground arith
  | inr (c, q) ↦ ground (arith, best_head-NotIn s ls c v.1 q)
]

best_head-AboveAll :
    (n : ℕ) (ls : List (List MemItem)) (b : Best)
    → AboveAll n ls
    → best_head ls ≡ some b
    → (n < b.first.stored.seq) × AboveAll n b.others
unfolding best_head
best_head-AboveAll n [] b v e = cc
best_head-AboveAll n ([] ∷ ls) b v e = elim (Option-cases (best_head ls)) [
  | inl q ↦ ground arith
  | inr (c, q) ↦ ground (arith, best_head-AboveAll n ls c v.1 q)
]
best_head-AboveAll n ((x ∷ xs) ∷ ls) b v e = elim (Option-cases (best_head ls)) [
  | inl q ↦ ground arith
  | inr (c, q) ↦ ground (arith, best_head-AboveAll n ls c v.1 q)
]

best_head-Apart :
    (l : List MemItem) (ls : List (List MemItem)) (b : Best)
    → Apart l ls
    → best_head ls ≡ some b
    → Apart l b.others
best_head-Apart [] ls b v e = tt
best_head-Apart (x ∷ xs) ls b v e =
    ((best_head-NotIn x.stored.seq ls b v.0 e).1, best_head-Apart xs ls b v.1 e)

best_head-min :
    (n : ℕ) (ls : List (List MemItem)) (b : Best)
    → IsSplit ls
    → best_head ls ≡ some b
    → n < b.first.stored.seq
    → AboveAll n ls
unfolding best_head
best_head-min n [] b v e h = cc
best_head-min n ([] ∷ ls) b v e h = elim (Option-cases (best_head ls)) [
  | inl q ↦ ground arith
  | inr (c, q) ↦ ground (arith, best_head-min n ls c v.2 q)
]
best_head-min n ((x ∷ xs) ∷ ls) b v e h = elim (Option-cases (best_head ls)) [
  | inl q ↦ ground (arith, best_head-none n ls q, Above-trans n x.stored.seq (seqs xs), v.0)
  | inr (c, q) ↦
      ground (arith, best_head-min n ls c v.2 q, Above-trans n x.stored.seq (seqs xs), v.0)
]

-- The head is below everything that is left.
best_head-first :
    (ls : List (List MemItem)) (b : Best)
    → IsSplit ls
    → best_head ls ≡ some b
    → AboveAll b.first.stored.seq b.others
unfolding best_head
best_head-first [] b v e = cc
best_head-first ([] ∷ ls) b v e = elim (Option-cases (best_head ls)) [
  | inl q ↦ ground arith
  | inr (c, q) ↦ ground (arith, best_head-first ls c v.2 q)
]
best_head-first ((x ∷ xs) ∷ ls) b v e = elim (Option-cases (best_head ls)) [
  | inl q ↦ ground (arith, best_head-none x.stored.seq ls q)
  | inr (c, q) ↦ ground (
    arith,
    best_head-first ls c v.2 q,
    best_head-NotIn x.stored.seq ls c v.1.0 q,
    best_head-min x.stored.seq ls c v.2 q,
    Above-trans c.first.stored.seq x.stored.seq (seqs xs),
    v.0,
  )
]

pub best_head-IsSplit :
    (ls : List (List MemItem)) (b : Best) → IsSplit ls → best_head ls ≡ some b → IsSplit b.others
unfolding best_head
best_head-IsSplit [] b v e = cc
best_head-IsSplit ([] ∷ ls) b v e = elim (Option-cases (best_head ls)) [
  | inl q ↦ ground arith
  | inr (c, q) ↦ ground (arith, best_head-IsSplit ls c v.2 q)
]
best_head-IsSplit ((x ∷ xs) ∷ ls) b v e = elim (Option-cases (best_head ls)) [
  | inl q ↦ ground (arith, v.0, v.1, v.2)
  | inr (c, q) ↦ ground (
    arith,
    v.0,
    v.1,
    v.2,
    best_head-IsSplit ls c v.2 q,
    best_head-NotIn x.stored.seq ls c v.1.0 q,
    best_head-Apart xs ls c v.1.1 q,
  )
]

merge-Above : (n k : ℕ) (ls : List (List MemItem)) → AboveAll k ls → Above k (seqs (merge n ls))
unfolding merge
merge-Above zero k ls v = tt
merge-Above (suc n) k ls v = elim (Option-cases (best_head ls)) [
  | inl q ↦ ground arith
  | inr (b, q) ↦ ground (arith, best_head-AboveAll k ls b v q, merge-Above n k b.others)
]

-- The merged list is in Seq order.
pub merge-Ascending :
    (n : ℕ) (ls : List (List MemItem)) → IsSplit ls → Ascending (seqs (merge n ls))
unfolding merge
merge-Ascending zero ls v = tt
merge-Ascending (suc n) ls v = elim (Option-cases (best_head ls)) [
  | inl q ↦ ground arith
  | inr (b, q) ↦ ground (
    arith,
    merge-Above n b.first.stored.seq b.others (best_head-first ls b v q),
    merge-Ascending n b.others (best_head-IsSplit ls b v q),
  )
]

pub merge-length : (n : ℕ) (ls : List (List MemItem)) → length (merge n ls) ≤ n
unfolding merge
merge-length zero ls = omega arith
merge-length (suc n) ls = elim (Option-cases (best_head ls)) [
  | inl q ↦ ground arith
  | inr (b, q) ↦ ground (arith, merge-length n b.others)
]

-- What holds of every candidate holds of every item merged.
module _ (p : MemItem → Type 0) where
  abbrev pub All : List MemItem → Type 0
  All [] = Unit {0}
  All (x ∷ xs) = p x × All xs

  abbrev pub AllOf : List (List MemItem) → Type 0
  AllOf [] = Unit {0}
  AllOf (l ∷ ls) = All l × AllOf ls

  best_head-AllOf :
      (ls : List (List MemItem)) (b : Best)
      → AllOf ls
      → best_head ls ≡ some b
      → p b.first × AllOf b.others
  unfolding best_head
  best_head-AllOf [] b v e = cc
  best_head-AllOf ([] ∷ ls) b v e = elim (Option-cases (best_head ls)) [
    | inl q ↦ ground arith
    | inr (c, q) ↦ ground (arith, best_head-AllOf ls c v.1 q)
  ]
  best_head-AllOf ((x ∷ xs) ∷ ls) b v e = elim (Option-cases (best_head ls)) [
    | inl q ↦ ground (arith, v.0, v.1)
    | inr (c, q) ↦ ground (arith, v.0, v.1, best_head-AllOf ls c v.1 q)
  ]

  pub merge-All : (n : ℕ) (ls : List (List MemItem)) → AllOf ls → All (merge n ls)
  unfolding merge
  merge-All zero ls v = tt
  merge-All (suc n) ls v = elim (Option-cases (best_head ls)) [
    | inl q ↦ ground arith
    | inr (b, q) ↦ let w = best_head-AllOf ls b v q in ground (arith, w, merge-All n b.others w.1)
  ]
