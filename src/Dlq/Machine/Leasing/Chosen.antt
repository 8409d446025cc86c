-- ===== src/Dlq/Machine/Leasing/Chosen.antt =====
-- dlq/machine.go: what `selectLease` takes, on a machine whose index is exact.
use Prim.Native.String.{String}
use text.Mathlib.Text.{◌==◌ as str_eq}
use text.Mathlib.TextEquality.{eq_iff}
use go_guard_lib.Prelude.{
  ℕ, ◌≤◌, ◌<◌, ◌≡◌, ◌⊎◌, refl, ◌∙◌, Bool, true, false, ◌&&◌, ◌||◌, not, if◌then◌else◌, none, some,
  List, [], ◌∷◌, length, arith, Bool-cases, inl, inr,
}
use go_guard_lib.Prelude.{mem_str}
use go_guard_lib.Dlq.Ordered.Reference.{Ascending}
use go_guard_lib.Dlq.Groups.{Group, find_group, group_items}
use go_guard_lib.Dlq.Groups.Laws.{IsTidy, none_left, one_more}
use go_guard_lib.Dlq.Machine.{MemItem, Machine, find_seq}
use go_guard_lib.Dlq.Machine.View.{seqs}
use go_guard_lib.Dlq.Machine.Index.{waits_on, IsIndexed}
use go_guard_lib.Dlq.Machine.Index.Changing.{Holds}
use go_guard_lib.Dlq.Machine.Leasing.{
  LeaseRequest, scan_items, scan_group, eligible, considered, candidates, select_lease, is_empty,
}
use go_guard_lib.Dlq.Machine.Leasing.Scanning.{CanLease, pick-has}
use go_guard_lib.Dlq.Machine.Leasing.Merging.{All, AllOf, merge-Ascending, merge-All, merge-length}
use go_guard_lib.Dlq.Machine.Leasing.Oldest.{has, served, covered, merge-served, scan_items-served}
use go_guard_lib.Dlq.Machine.Leasing.Choosing.{
  IsViewed, viewed, scan_of, scan_of-CanLease, offer-AllOf, candidates-IsSplit,
}

-- What a lease may take: an item of the queue, eligible, of a dependency asked for and not skipped.
abbrev pub Takes : Machine → ℕ → LeaseRequest → MemItem → Type 0
Takes m now req it =
    Holds m it
    × (eligible m it now ≡ true)
    × ((str_eq req.blocked_on "" || str_eq it.stored.blocked_on req.blocked_on) ≡ true)
    × (mem_str it.stored.blocked_on req.skip ≡ false)

module _ (m : Machine) (now : ℕ) (req : LeaseRequest) where
  considered-Takes :
      (g : Group) (l : List MemItem)
      → considered now req g ≡ true
      → All (CanLease m now g.dep) l
      → All (Takes m now req) l
  considered-Takes g [] h v = tt
  considered-Takes g (x ∷ xs) h v =
      (ground (arith, v.0, h, eq_iff x.stored.blocked_on g.dep), considered-Takes g xs h v.1)

  candidates-Takes :
      (gs : List Group)
      → Ascending (seqs m.items)
      → IsViewed m gs
      → AllOf (Takes m now req) (candidates m now req gs).0
  unfolding candidates scan_group
  candidates-Takes [] asc w = tt
  candidates-Takes (g ∷ gs) asc w =
      let l = scan_of m now req asc g in
      offer-AllOf (Takes m now req) (considered now req g && not (is_empty l)) l
        (candidates m now req gs).0
        (λ h. considered-Takes g l (ground (arith, h)) (scan_of-CanLease m now req asc g w.0))
        (candidates-Takes gs asc w.1)

  -- Scanning changes wake times alone.
  candidates-find :
      (d : String) (gs : List Group)
      → (find_group d gs ≡ none → find_group d (candidates m now req gs).1 ≡ none)
        × (group_items d (candidates m now req gs).1 ≡ group_items d gs)
  unfolding candidates scan_group find_group
  candidates-find d [] = (λ e. e, refl)
  candidates-find d (g ∷ gs) = ground (arith, candidates-find d gs)

  candidates-IsTidy : (gs : List Group) → IsTidy gs → IsTidy (candidates m now req gs).1
  unfolding candidates scan_group
  candidates-IsTidy [] none_left = none_left
  candidates-IsTidy (g ∷ gs) (one_more a l u t) =
      one_more (ground (arith, a)) (ground (arith, l))
        (ground (arith, (candidates-find g.dep gs).0 u)) (candidates-IsTidy gs t)

  module _ (v : IsIndexed m) where
    groups-IsViewed : IsViewed m m.groups
    groups-IsViewed = viewed m m.groups v.index.tidy λ d g e. ground (arith, e, v.index.grouped d)

    -- On a queue whose index is exact, a lease selects at most `max` items, in Seq order, each an
    -- item of the queue that is eligible and waits on a dependency asked for and not skipped.
    pub select_lease-Takes :
        let out = (select_lease m now req).0 in
        (length out ≤ req.max) × Ascending (seqs out) × All (Takes m now req) out
    unfolding select_lease
    select_lease-Takes =
        let w = groups-IsViewed in
        let ls = (candidates m now req m.groups).0 in
        (
          merge-length req.max ls,
          merge-Ascending req.max ls
              (candidates-IsSplit m now req v.ascending m.groups v.index.tidy w),
          merge-All (Takes m now req) req.max ls (candidates-Takes m.groups v.ascending w),
        )

    pub select_lease-IsIndexed : IsIndexed (select_lease m now req).1
    unfolding select_lease
    select_lease-IsIndexed = record {
      ascending = v.ascending;
      within = v.within;
      index = record {
        tidy = candidates-IsTidy m.groups v.index.tidy;
        grouped = λ d. (candidates-find d m.groups).1 ∙ v.index.grouped d;
        in_order = v.index.in_order;
        hinted = v.index.hinted;
        pendings = v.index.pendings;
        leases = v.index.leases;
        parkings = v.index.parkings;
      };
      tidy_keys = v.tidy_keys;
      keyed = v.keyed;
      sized = v.sized;
    }

  offer-covered :
      (n s : ℕ) (b : Bool) (l : List MemItem) (ls : List (List MemItem))
      → (covered n s ls ≡ true) ⊎ ((b ≡ true) × (served n s l ≡ true))
      → covered n s (if b then l ∷ ls else ls) ≡ true
  offer-covered n s true l ls (inl h) = ground (arith, h)
  offer-covered n s true l ls (inr h) = ground (arith, h)
  offer-covered n s false l ls (inl h) = h
  offer-covered n s false l ls (inr h) = ground (arith, h)

  served-some : (n s : ℕ) (l : List MemItem) → 0 < n → served n s l ≡ true → is_empty l ≡ false
  served-some n s [] h e = ground (arith, e)
  served-some n s (x ∷ xs) h e = refl

  candidates-covered :
      (d : String) (g : Group) (s : ℕ) (it : MemItem) (gs : List Group)
      → IsTidy gs
      → find_group d gs ≡ some g
      → considered now req g ≡ true
      → has s g.items ≡ true
      → find_seq s m.items ≡ some it
      → eligible m it now ≡ true
      → 0 < req.max
      → covered req.max s (candidates m now req gs).0 ≡ true
  unfolding candidates scan_group find_group
  candidates-covered d g s it [] none_left i c h f e n = ground (arith, i)
  candidates-covered d g s it (x ∷ xs) (one_more a l u t) i c h f e n =
      let l = (scan_items m now req.max 0 0 x.items).out in
      let ls = (candidates m now req xs).0 in
      offer-covered req.max s (considered now req x && not (is_empty l)) l ls
        (elim (Bool-cases (str_eq x.dep d)) [
          | inl q ↦
              let same : x ≡ g = ground (arith, i, q) in
              let hx : has s x.items ≡ true = rw same h in
              let cx : considered now req x ≡ true = rw same c in
              let sv : served req.max s l ≡ true =
                ground (arith, scan_items-served m now req.max 0 0 s x.items it a hx f e n) in
              inr (ground (arith, served-some req.max s l n sv, cx), sv)
          | inr q ↦ inl (candidates-covered d g s it xs t (ground (arith, i, q)) c h f e n)
        ])

  -- On a queue whose index is exact, an eligible item of a considered dependency (not skipped, and
  -- not asleep by its wake time) is selected, or the lease has `max` items and all are older.
  pub select_lease-oldest :
      (v : IsIndexed m) (d : String) (g : Group) (it : MemItem)
      → find_group d m.groups ≡ some g
      → considered now req g ≡ true
      → Holds m it
      → waits_on d it ≡ true
      → eligible m it now ≡ true
      → 0 < req.max
      → served req.max it.stored.seq (select_lease m now req).0 ≡ true
  unfolding select_lease
  select_lease-oldest v d g it i c f w e n =
      merge-served req.max it.stored.seq (candidates m now req m.groups).0
        (candidates-IsSplit m now req v.ascending m.groups v.index.tidy (groups-IsViewed v))
        (candidates-covered d g it.stored.seq it m.groups v.index.tidy i c
          (ground (
            arith,
            i,
            v.index.grouped d,
            w,
            pick-has (waits_on d) it.stored.seq it m.items v.ascending f,
          ))
          f e n)
