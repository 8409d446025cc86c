-- ===== src/Dlq/Machine/Leasing/Scanning.antt =====
-- dlq/machine.go: what a scan of a group gives: items of the group, in its order, that are eligible.
use Prim.Native.String.{String}
use go_guard_lib.Prelude.{
  ℕ, ◌+◌, ◌≡◌, refl, Bool, true, false, some, List, [], ◌∷◌, arith, Option-cases, inl, inr,
}
use go_guard_lib.Dlq.Ordered.Reference.{Above, Ascending}
use go_guard_lib.Dlq.Machine.{MemItem, Machine, find_seq}
use go_guard_lib.Dlq.Machine.View.{seqs, find-seq, find-Above, pick, pick-Above}
use go_guard_lib.Dlq.Machine.Index.{waits_on}
use go_guard_lib.Dlq.Machine.Index.Changing.{Holds}
use go_guard_lib.Dlq.Machine.Leasing.{scan_items, eligible, earlier, due_at}
use go_guard_lib.Dlq.Machine.Leasing.Merging.{All}
use go_guard_lib.Dlq.Machine.Leasing.Oldest.{has}

-- What a lease may take from a dependency's group.
abbrev pub CanLease : Machine → ℕ → String → MemItem → Type 0
CanLease m now d it = Holds m it × (eligible m it now ≡ true) × (waits_on d it ≡ true)

module _ (m : Machine) (now max : ℕ) where
  scan-Above :
      (k n next : ℕ) (l : List ℕ) → Above k l → Above k (seqs (scan_items m now max n next l).out)
  unfolding scan_items
  scan-Above k n next [] v = tt
  scan-Above k n next (x ∷ xs) v = elim (Option-cases (find_seq x m.items)) [
    | inl q ↦ ground (arith, scan-Above k n next xs v.1)
    | inr (y, q) ↦ ground (
      arith,
      find-seq x m.items y q,
      v.0,
      scan-Above k (n + 1) next xs v.1,
      scan-Above k n (earlier now (due_at y y.stored.state) next) xs v.1,
    )
  ]

  pub scan-Ascending :
      (n next : ℕ) (l : List ℕ) → Ascending l → Ascending (seqs (scan_items m now max n next l).out)
  unfolding scan_items
  scan-Ascending n next [] v = tt
  scan-Ascending n next (x ∷ xs) v = elim (Option-cases (find_seq x m.items)) [
    | inl q ↦ ground (arith, scan-Ascending n next xs v.1)
    | inr (y, q) ↦ ground (
      arith,
      find-seq x m.items y q,
      scan-Above x (n + 1) next xs v.0,
      scan-Ascending (n + 1) next xs v.1,
      scan-Ascending n (earlier now (due_at y y.stored.state) next) xs v.1,
    )
  ]

  pub scan-CanLease :
      (d : String) (n next : ℕ) (l : List ℕ)
      → ((s : ℕ) (it : MemItem)
          → has s l ≡ true
          → find_seq s m.items ≡ some it
          → waits_on d it ≡ true)
      → All (CanLease m now d) (scan_items m now max n next l).out
  unfolding scan_items
  scan-CanLease d n next [] w = tt
  scan-CanLease d n next (x ∷ xs) w =
      let w' : (s : ℕ) (it : MemItem)
          → has s xs ≡ true
          → find_seq s m.items ≡ some it
          → waits_on d it ≡ true =
        λ s it h f. w s it (ground (arith, h)) f in
      elim (Option-cases (find_seq x m.items)) [
        | inl q ↦ ground (arith, scan-CanLease d n next xs w')
        | inr (y, q) ↦ ground (
          arith,
          find-seq x m.items y q,
          w x y,
          scan-CanLease d (n + 1) next xs w',
          scan-CanLease d n (earlier now (due_at y y.stored.state) next) xs w',
        )
      ]

-- An item whose Seq a view has passes the view's test, and the other way round.
Above-has-not : (s : ℕ) (l : List ℕ) → Above s l → has s l ≡ false
Above-has-not s [] v = refl
Above-has-not s (x ∷ xs) v = ground (arith, Above-has-not s xs)

pub pick-has :
    (p : MemItem → Bool) (s : ℕ) (it : MemItem) (xs : List MemItem)
    → Ascending (seqs xs)
    → find_seq s xs ≡ some it
    → has s (pick p xs) ≡ p it
unfolding find_seq
pick-has p s it [] v f = cc
pick-has p s it (x ∷ xs) v f = ground (
  arith,
  find-Above x.stored.seq s xs it v.0,
  pick-has p s it xs v.1,
  Above-has-not x.stored.seq (pick p xs) (pick-Above p x.stored.seq xs v.0),
)
