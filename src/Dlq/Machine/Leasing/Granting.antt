-- ===== src/Dlq/Machine/Leasing/Granting.antt =====
-- dlq/machine.go: `grant` keeps the index exact, and what it leases is held until the lease ends.
use Prim.Native.String.{String}
use go_guard_lib.Prelude.{
  ℕ, ◌+◌, ◌<◌, ◌≡◌, ◌≢◌, refl, ◌∙◌, Bool, true, false, ◌&&◌, ◌==◌, Option, none, some, List, [],
  ◌∷◌, arith,
}
use go_guard_lib.Dlq.Record.{leased, is_leased}
use go_guard_lib.Dlq.Ordered.Reference.{Ascending, Absent}
use go_guard_lib.Dlq.Machine.{MemItem, Machine, find_seq, put, put_item, moved}
use go_guard_lib.Dlq.Machine.View.{seqs, Above-Absent, find-put-other}
use go_guard_lib.Dlq.Machine.Index.{IsIndexed}
use go_guard_lib.Dlq.Machine.Index.Changing.{
  Holds, Alike, put_item-IsIndexed, put_item-Holds, move-put, move-item, move-items,
}
use go_guard_lib.Dlq.Machine.Leasing.{
  LeaseRequest, grant_one, grant, leased_to, counted, select_lease, eligible,
}
use go_guard_lib.Dlq.Machine.Leasing.Merging.{All}
use go_guard_lib.Dlq.Machine.Index.Replaying.{Above-Holds}
use go_guard_lib.Dlq.Machine.Leasing.Chosen.{Takes, select_lease-Takes, select_lease-IsIndexed}

module _ (m : Machine) (it : MemItem) (token : String) (until : ℕ) where
  grant_one-IsIndexed : IsIndexed m → Holds m it → IsIndexed (grant_one m it token until).0
  unfolding grant_one
  grant_one-IsIndexed v f =
      let it' = leased_to it token until in
      let dep = it.stored.blocked_on in
      let alike : Alike it it' = (refl, refl, refl, refl) in
      rw (move-item (put_item m it') it' leased dep)
        (move-put (put_item m it') it' leased dep (put_item-IsIndexed m it it' v f alike refl)
          (put_item-Holds m it it' v f alike) (counted (moved it' leased dep))
          (refl, refl, refl, refl) refl).0

  grant_one-other :
      (s : ℕ)
      → it.stored.seq ≢ s
      → find_seq s (grant_one m it token until).0.items ≡ find_seq s m.items
  unfolding grant_one
  grant_one-other s h =
      let it' = leased_to it token until in
      let dep = it.stored.blocked_on in
      let it'' = moved it' leased dep in
      rw (move-item (put_item m it') it' leased dep, move-items (put_item m it') it' leased dep)
        (find-put-other s (counted it'') (put it'' (put it' m.items)) h
          ∙ find-put-other s it'' (put it' m.items) h
          ∙ find-put-other s it' m.items h)

  grant_one-Holds :
      IsIndexed m
      → Holds m it
      → find_seq it.stored.seq (grant_one m it token until).0.items
        ≡ some (counted (moved (leased_to it token until) leased it.stored.blocked_on))
  unfolding grant_one
  grant_one-Holds v f =
      let it' = leased_to it token until in
      let dep = it.stored.blocked_on in
      let alike : Alike it it' = (refl, refl, refl, refl) in
      rw (move-item (put_item m it') it' leased dep)
        (move-put (put_item m it') it' leased dep (put_item-IsIndexed m it it' v f alike refl)
          (put_item-Holds m it it' v f alike) (counted (moved it' leased dep))
          (refl, refl, refl, refl) refl).1

pub grant-IsIndexed :
    (tokens : ℕ → String) (drawn : ℕ) (m : Machine) (its : List MemItem) (now ttl : ℕ)
    → IsIndexed m
    → Ascending (seqs its)
    → All (Holds m) its
    → IsIndexed (grant tokens drawn m its now ttl).0
unfolding grant
grant-IsIndexed tokens drawn m [] now ttl v a h = v
grant-IsIndexed tokens drawn m (it ∷ its) now ttl v a h =
    let m' = (grant_one m it (tokens drawn) (now + ttl)).0 in
    grant-IsIndexed tokens (drawn + 1) m' its now ttl
      (grant_one-IsIndexed m it (tokens drawn) (now + ttl) v h.0) a.1
      (Above-Holds m m' it.stored.seq its (grant_one-other m it (tokens drawn) (now + ttl)) a.0 h.1)

grant-other :
    (tokens : ℕ → String) (drawn : ℕ) (m : Machine) (its : List MemItem) (now ttl s : ℕ)
    → Absent s (seqs its)
    → find_seq s (grant tokens drawn m its now ttl).0.items ≡ find_seq s m.items
unfolding grant
grant-other tokens drawn m [] now ttl s a = refl
grant-other tokens drawn m (it ∷ its) now ttl s a =
    grant-other tokens (drawn + 1) (grant_one m it (tokens drawn) (now + ttl)).0 its now ttl s a.1
    ∙ grant_one-other m it (tokens drawn) (now + ttl) s a.0

-- The item with this Seq is leased until then.
abbrev pub leased_until : ℕ → Option MemItem → Bool
leased_until t none = false
leased_until t (some it) = is_leased it.stored.state && (it.lease_until == t)

grant-leased :
    (tokens : ℕ → String) (drawn : ℕ) (m : Machine) (its : List MemItem) (now ttl : ℕ)
    → IsIndexed m
    → Ascending (seqs its)
    → All (Holds m) its
    → let m' = (grant tokens drawn m its now ttl).0 in
      All (λ it. leased_until (now + ttl) (find_seq it.stored.seq m'.items) ≡ true) its
unfolding grant
grant-leased tokens drawn m [] now ttl v a h = tt
grant-leased tokens drawn m (it ∷ its) now ttl v a h =
    let m' = (grant_one m it (tokens drawn) (now + ttl)).0 in
    (
      rw
          (
            grant-other tokens (drawn + 1) m' its now ttl it.stored.seq
                (Above-Absent it.stored.seq (seqs its) a.0),
            grant_one-Holds m it (tokens drawn) (now + ttl) v h.0,
          )
          (ground arith),
      grant-leased tokens (drawn + 1) m' its now ttl
          (grant_one-IsIndexed m it (tokens drawn) (now + ttl) v h.0) a.1
          (Above-Holds m m' it.stored.seq its (grant_one-other m it (tokens drawn) (now + ttl)) a.0
            h.1),
    )

leased-passed_over :
    (m : Machine) (now t s : ℕ) (req : LeaseRequest) (ys : List MemItem)
    → leased_until t (find_seq s m.items) ≡ true
    → now < t
    → All (Takes m now req) ys
    → Absent s (seqs ys)
unfolding eligible
leased-passed_over m now t s req [] l h v = tt
leased-passed_over m now t s req (y ∷ ys) l h v =
    (ground (arith, l, v.0), leased-passed_over m now t s req ys l h v.1)

All-passed_over :
    (m : Machine) (now t : ℕ) (req : LeaseRequest) (its ys : List MemItem)
    → All (λ it. leased_until t (find_seq it.stored.seq m.items) ≡ true) its
    → now < t
    → All (Takes m now req) ys
    → All (λ it. Absent it.stored.seq (seqs ys)) its
All-passed_over m now t req [] ys l h v = tt
All-passed_over m now t req (x ∷ xs) ys l h v = (
  leased-passed_over m now t x.stored.seq req ys l.0 h v,
  All-passed_over m now t req xs ys l.1 h v,
)

pub Takes-Holds :
    (m : Machine) (now : ℕ) (req : LeaseRequest) (its : List MemItem)
    → All (Takes m now req) its
    → All (Holds m) its
Takes-Holds m now req [] v = tt
Takes-Holds m now req (x ∷ xs) v = (v.0.0, Takes-Holds m now req xs v.1)

-- On a queue whose index is exact, a lease's items are not selected again by any lease that is made
-- on the resulting queue before the first one's time is up.
pub grant-exclusive :
    (tokens : ℕ → String) (drawn : ℕ) (m : Machine) (now ttl later : ℕ) (req req' : LeaseRequest)
    → IsIndexed m
    → later < now + ttl
    → let (its, m1) = select_lease m now req in
      let m2 = (grant tokens drawn m1 its now ttl).0 in
      All (λ it. Absent it.stored.seq (seqs (select_lease m2 later req').0)) its
unfolding select_lease
grant-exclusive tokens drawn m now ttl later req req' v lt =
    let c = select_lease-Takes m now req v in
    let its = (select_lease m now req).0 in
    let m1 = (select_lease m now req).1 in
    let m2 = (grant tokens drawn m1 its now ttl).0 in
    let h = Takes-Holds m now req its c.2 in
    let w = select_lease-IsIndexed m now req v in
    All-passed_over m2 later (now + ttl) req' its (select_lease m2 later req').0
      (grant-leased tokens drawn m1 its now ttl w c.1 h) lt
      (select_lease-Takes m2 later req' (grant-IsIndexed tokens drawn m1 its now ttl w c.1 h)).2
