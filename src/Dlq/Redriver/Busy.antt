-- ===== src/Dlq/Redriver/Busy.antt =====
-- dlq/redrive.go: no record is with two workers at once.
mod Sets
mod Settling
use Prim.Native.String.{String, ◌++◌ as ◌+++◌}
use text.Mathlib.Text.{◌==◌ as str_eq}
use text.Mathlib.TextEquality.{eq_iff}
use text.Mathlib.TextPositions.{eq_refl}
use go_guard_lib.Prelude.{
  ℕ, suc, ◌+◌, ◌-◌, ◌≡◌, refl, ap, sym, ◌∙◌, ◌||◌, ◌++◌, subst, Bool, true, false, ◌&&◌, not, leb,
  ltb, List, [], ◌∷◌, Option, none, some, length, mem_str, arith, Bool-cases, inl, inr,
}
use go_guard_lib.Errors.{Err, live, as_blocked, as_open, Blocked, is_permanent, any_link}
use go_guard_lib.Breaker.{FnEnd}
use go_guard_lib.Dlq.Machine.Leasing.{Lease}
use go_guard_lib.Dlq.Store.{Store}
use go_guard_lib.Dlq.Redriver.{
  Redriver, RedriveCounter, queue_leases, remove_str, freed, store_failure, is_lost_link, counted,
  uncounted, park, block, hold, block_options, gave_up, retry_options, settle_other, settle_open,
  settle_failed, settle, process, parked, blocked, retried, succeeded, named_or, spent_reason,
  handler_error,
}
use go_guard_lib.Dlq.Redriver.Busy.Sets.{
  is_set, ids, mem_str-remove_str, mem_str-split, is_set-split, remove_str-is_set,
}
use go_guard_lib.Dlq.Redriver.Busy.Settling.{Same, park-Same, settle-Same}

-- The records being handled are counted, and each is there once.
abbrev pub IsBusy : Redriver → Type 0
IsBusy r = (is_set r.active ≡ true) × (r.inflight ≡ length r.active)

-- `q` are the leases that are with a worker or queued for one: each is of another record, and the records
-- that are being handled are those.
abbrev pub IsWith : Redriver → List Lease → Type 0
IsWith r q =
    IsBusy r × (is_set (ids q) ≡ true) × ((x : String) → mem_str x r.active ≡ mem_str x (ids q))

-- The leases are queued, one by one.
abbrev pub onto : List Lease → List Lease → List Lease
onto [] q = q
onto (l ∷ ls) q = onto ls (l ∷ q)

module _ {S : Type 0} (ops : Store S) where
  pub queue_leases-IsWith :
      (s : S) (ls q : List Lease) (r : Redriver)
      → IsWith r q
      → IsWith (queue_leases ops s ls r).1 (onto (queue_leases ops s ls r).2 q)
  unfolding queue_leases
  queue_leases-IsWith s [] q r is = is
  queue_leases-IsWith s (l ∷ ls) q r is =
      let id = l.leased_record.id in
      let r' = record r { active = id ∷ r.active; inflight = r.inflight + 1 } in
      elim (Bool-cases (mem_str id r.active)) [
        | inl t ↦ rw (t) (queue_leases-IsWith (ops.release s live id l.token).0 ls q r is)
        | inr n ↦
            let busy : IsBusy r' = (ground (arith, n, is.0.0), omega (arith, is.0.1)) in
            let absent : mem_str id (ids q) ≡ false = sym (is.2 id) ∙ n in
            let set : is_set (ids (l ∷ q)) ≡ true = ground (arith, absent, is.1) in
            rw (n) (
              queue_leases-IsWith s ls (l ∷ q) r'
                (busy, set, λ x. ap (λ b. str_eq id x || b) (is.2 x)))
      ]

module _ {S : Type 0} (ops : Store S) where
  -- A worker that is done with a record frees it, whatever the handler and the store did.
  process-freed :
      (handler : S → Lease → S × FnEnd) (s : S) (l : Lease) (was_ended ended : Bool) (now : ℕ)
      (r : Redriver)
      → let r' = (process ops handler s l was_ended ended now r).1 in
        (r'.active ≡ remove_str l.leased_record.id r.active) × (r'.inflight ≡ r.inflight - 1)
  unfolding process
  process-freed handler s l was_ended ended now r =
      let n = l.leased_record.attempts in
      let id = l.leased_record.id in
      let s' = (handler s l).0 in
      let err = handler_error (handler s l).1 in
      elim (Bool-cases was_ended) [
        | inl t ↦ rw (t) (freed_lem id ((ops.release s live id l.token).0, r) r (refl, refl))
        | inr f ↦ elim (Bool-cases (ltb r.cfg.max_attempts n)) [
          | inl t ↦
              rw (f, t)
                (freed_lem id (park ops s l (spent_reason ops r n) now r) r
                  (park-Same ops s l (spent_reason ops r n) now r))
          | inr f' ↦
              rw (f, f')
                (freed_lem id (settle ops s' l err ended now r) r
                  (settle-Same ops s' l err ended now r))
        ]
      ]
    where
      freed_lem :
          (id : String) (a : S × Redriver) (r : Redriver)
          → Same ops r a.1
          → ((freed ops id a).1.active ≡ remove_str id r.active)
            × ((freed ops id a).1.inflight ≡ r.inflight - 1)
      freed_lem id (s, r') r same = (ap (remove_str id) same.0, ap (λ n. n - 1) same.1)

  pub process-IsWith :
      (handler : S → Lease → S × FnEnd) (s : S) (l : Lease) (was_ended ended : Bool) (now : ℕ)
      (r : Redriver) (xs ys : List Lease)
      → IsWith r (xs ++ l ∷ ys)
      → IsWith (process ops handler s l was_ended ended now r).1 (xs ++ ys)
  process-IsWith handler s l was_ended ended now r xs ys is =
      let id = l.leased_record.id in
      let f = process-freed handler s l was_ended ended now r in
      let split = is_set-split xs ys l is.1 in
      let there : mem_str id (ids (xs ++ l ∷ ys)) ≡ true =
        mem_str-split id xs ys l ∙ ap (λ b. b || mem_str id (ids (xs ++ ys))) (eq_refl id) in
      let removed = remove_str-is_set id r.active is.0.0 (is.2 id ∙ there) in
      rw (f.0, f.1)
        (
          (removed.0, omega (arith, removed.1, is.0.1)),
          split.0,
          λ x. mem_str-remove_str x id r.active ∙ left x (is.2 x) split.1,
        )
    where
      left :
          (x : String)
          → mem_str x r.active ≡ mem_str x (ids (xs ++ l ∷ ys))
          → mem_str l.leased_record.id (ids (xs ++ ys)) ≡ false
          → (mem_str x r.active && not (str_eq l.leased_record.id x)) ≡ mem_str x (ids (xs ++ ys))
      left x e absent = elim (Bool-cases (str_eq l.leased_record.id x)) [
        | inl t ↦
            let same : l.leased_record.id ≡ x = (eq_iff l.leased_record.id x).0 t in
            let gone : mem_str x (ids (xs ++ ys)) ≡ false =
              subst (λ y. mem_str y (ids (xs ++ ys)) ≡ false) same absent in
            ground (arith, t, gone)
        | inr n ↦ ground (arith, n, e, mem_str-split x xs ys l)
      ]

  -- What the redriver's goroutines do, in the order in which they do it: leases are queued, or a worker
  -- handles one of those that were. The leases are those with the workers.
  pub data Works : Redriver → List Lease → Redriver → List Lease → Type 0 where
    idle : (r : Redriver) (q : List Lease) → Works r q r q
    queues :
        {r r' : Redriver} {q q' : List Lease} (s : S) (ls : List Lease)
        → Works r q r' q'
        → Works r q (queue_leases ops s ls r').1 (onto (queue_leases ops s ls r').2 q')
    handles :
        {r r' : Redriver} {q : List Lease} (handler : S → Lease → S × FnEnd) (s : S) (l : Lease)
        (was_ended ended : Bool) (now : ℕ) (xs ys : List Lease)
        → Works r q r' (xs ++ l ∷ ys)
        → Works r q (process ops handler s l was_ended ended now r').1 (xs ++ ys)

  -- Whatever leases the store gives and however the handlers end: no two of the leases that are queued
  -- for the workers or with one are of the same record, the records that the redriver knows to be busy
  -- are theirs, each once, and it counts them.
  pub works-IsWith :
      {r r' : Redriver} {q q' : List Lease} → Works r q r' q' → IsWith r q → IsWith r' q'
  works-IsWith (idle r q) is = is
  works-IsWith (queues {r' = r'} {q' = q'} s ls before) is =
      queue_leases-IsWith ops s ls q' r' (works-IsWith before is)
  works-IsWith (handles {r' = r'} handler s l was_ended ended now xs ys before) is =
      process-IsWith handler s l was_ended ended now r' xs ys (works-IsWith before is)
