-- ===== src/Dlq/Machine/Leasing/Choosing.antt =====
-- dlq/machine.go: the groups' candidates for a lease are in Seq order and share no item.
use Prim.Native.String.{String}
use text.Mathlib.TextEquality.{eq_iff}
use go_guard_lib.Prelude.{
  ℕ, ◌+◌, ◌≡◌, refl, Bool, true, false, ◌&&◌, not, if◌then◌else◌, none, some, List, [], ◌∷◌, arith,
  Option-cases, inl, inr,
}
use go_guard_lib.Dlq.Ordered.Reference.{Ascending, Absent}
use go_guard_lib.Dlq.Groups.{Group, find_group}
use go_guard_lib.Dlq.Groups.Laws.{IsTidy, none_left, one_more}
use go_guard_lib.Dlq.Machine.{MemItem, Machine, find_seq}
use go_guard_lib.Dlq.Machine.View.{seqs, find-seq, pick}
use go_guard_lib.Dlq.Machine.Index.{waits_on}
use go_guard_lib.Dlq.Machine.Index.Changing.{Holds}
use go_guard_lib.Dlq.Machine.Leasing.{
  LeaseRequest, scan_items, scan_group, considered, candidates, is_empty, earlier, due_at,
}
use go_guard_lib.Dlq.Machine.Leasing.Scanning.{CanLease, scan-Ascending, scan-CanLease, pick-has}
use go_guard_lib.Dlq.Machine.Leasing.Merging.{All, AllOf, IsSplit, Apart, NotIn}
use go_guard_lib.Dlq.Machine.Leasing.Oldest.{has}

-- The groups show the machine's items.
abbrev pub IsViewed : Machine → List Group → Type 0
IsViewed m [] = Unit {0}
IsViewed m (g ∷ gs) = (g.items ≡ pick (waits_on g.dep) m.items) × IsViewed m gs

pub viewed :
    (m : Machine) (gs : List Group)
    → IsTidy gs
    → ((d : String) (g : Group) → find_group d gs ≡ some g → g.items ≡ pick (waits_on d) m.items)
    → IsViewed m gs
unfolding find_group
viewed m [] none_left w = tt
viewed m (g ∷ gs) (one_more a l u t) w = (
  w g.dep g (ground (arith, eq_iff g.dep g.dep)),
  viewed m gs t λ d g' e. w d g' (ground (arith, e, u, eq_iff g.dep d)),
)

has-Absent : (s : ℕ) (l : List ℕ) → has s l ≡ false → Absent s l
has-Absent s [] h = tt
has-Absent s (x ∷ xs) h = (ground arith, has-Absent s xs (ground arith))

scan-Absent :
    (m : Machine) (now max s n next : ℕ) (l : List ℕ)
    → has s l ≡ false
    → Absent s (seqs (scan_items m now max n next l).out)
unfolding scan_items
scan-Absent m now max s n next [] h = tt
scan-Absent m now max s n next (x ∷ xs) h = elim (Option-cases (find_seq x m.items)) [
  | inl q ↦ ground (arith, scan-Absent m now max s n next xs)
  | inr (y, q) ↦ ground (
    arith,
    find-seq x m.items y q,
    scan-Absent m now max s (n + 1) next xs,
    scan-Absent m now max s n (earlier now (due_at y y.stored.state) next) xs,
  )
]

-- The list of candidates of one group more, which may be left out.
offer-NotIn :
    (s : ℕ) (b : Bool) (l : List MemItem) (ls : List (List MemItem))
    → Absent s (seqs l)
    → NotIn s ls
    → NotIn s (if b then l ∷ ls else ls)
offer-NotIn s true l ls v w = (v, w)
offer-NotIn s false l ls v w = w

offer-IsSplit :
    (b : Bool) (l : List MemItem) (ls : List (List MemItem))
    → Ascending (seqs l)
    → Apart l ls
    → IsSplit ls
    → IsSplit (if b then l ∷ ls else ls)
offer-IsSplit true l ls v u w = (v, u, w)
offer-IsSplit false l ls v u w = w

pub offer-AllOf :
    (p : MemItem → Type 0) (b : Bool) (l : List MemItem) (ls : List (List MemItem))
    → (b ≡ true → All p l)
    → AllOf p ls
    → AllOf p (if b then l ∷ ls else ls)
offer-AllOf p true l ls v w = (v refl, w)
offer-AllOf p false l ls v w = w

other-group :
    (it : MemItem) (gs : List Group) (g : Group)
    → find_group it.stored.blocked_on (g ∷ gs) ≡ none
    → (waits_on g.dep it ≡ false) × (find_group it.stored.blocked_on gs ≡ none)
unfolding find_group
other-group it gs g n =
    ground (arith, eq_iff g.dep it.stored.blocked_on, eq_iff it.stored.blocked_on g.dep)

module _ (m : Machine) (now : ℕ) (req : LeaseRequest) (asc : Ascending (seqs m.items)) where
  abbrev pub scan_of : (g : Group) → List MemItem
  scan_of g = (scan_items m now req.max 0 0 g.items).out

  candidates-NotIn :
      (it : MemItem) (gs : List Group)
      → Holds m it
      → find_group it.stored.blocked_on gs ≡ none
      → IsViewed m gs
      → NotIn it.stored.seq (candidates m now req gs).0
  unfolding candidates scan_group
  candidates-NotIn it [] f n w = tt
  candidates-NotIn it (g ∷ gs) f n w =
      let (d, k) = other-group it gs g n in
      offer-NotIn it.stored.seq (considered now req g && not (is_empty (scan_of g))) (scan_of g)
        (candidates m now req gs).0
        (scan-Absent m now req.max it.stored.seq 0 0 g.items
          (ground (arith, w.0, d, pick-has (waits_on g.dep) it.stored.seq it m.items asc f)))
        (candidates-NotIn it gs f k w.1)

  candidates-Apart :
      (d : String) (l : List MemItem) (gs : List Group)
      → All (CanLease m now d) l
      → find_group d gs ≡ none
      → IsViewed m gs
      → Apart l (candidates m now req gs).0
  candidates-Apart d [] gs c n w = tt
  candidates-Apart d (x ∷ xs) gs c n w = (
    candidates-NotIn x gs c.0.0 (ground (arith, n, c.0.2, eq_iff x.stored.blocked_on d)) w,
    candidates-Apart d xs gs c.1 n w,
  )

  pub scan_of-CanLease :
      (g : Group) → g.items ≡ pick (waits_on g.dep) m.items → All (CanLease m now g.dep) (scan_of g)
  scan_of-CanLease g e =
      scan-CanLease m now req.max g.dep 0 0 g.items
        λ s it h f. ground (arith, e, h, pick-has (waits_on g.dep) s it m.items asc f)

  pub candidates-IsSplit :
      (gs : List Group) → IsTidy gs → IsViewed m gs → IsSplit (candidates m now req gs).0
  unfolding candidates scan_group
  candidates-IsSplit [] t w = tt
  candidates-IsSplit (g ∷ gs) (one_more a l u t) w =
      offer-IsSplit (considered now req g && not (is_empty (scan_of g))) (scan_of g)
        (candidates m now req gs).0 (scan-Ascending m now req.max 0 0 g.items a)
        (candidates-Apart g.dep (scan_of g) gs (scan_of-CanLease g w.0) u w.1)
        (candidates-IsSplit gs t w.1)
