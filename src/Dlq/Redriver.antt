-- ===== src/Dlq/Redriver.antt =====
-- dlq/redrive.go: a leased record is handled, and its result settled with the store. The limiter's rates
-- are fractions, and only its grants are given; `itoa` writes a number in decimal.
pub mod Settles
pub mod Busy
mod Examples
use Prim.Native.String.{String, ◌++◌ as ◌+++◌}
use text.Mathlib.Text.{◌==◌ as str_eq}
use go_guard_lib.Prelude.{
  ℕ, ◌+◌, ◌-◌, ◌*◌, max, Bool, true, false, ◌&&◌, ◌||◌, not, if◌then◌else◌, ltb, leb, ◌==◌, Option,
  none, some, List, [], ◌∷◌, ◌++◌, mem_str,
}
use go_guard_lib.Errors.{
  Err, StoreErr, plain, store_err, lease_lost, not_found, any_link, is_permanent, Blocked,
  as_blocked, as_open, CtxErr, live,
}
use go_guard_lib.Dlq.Record.{Record}
use go_guard_lib.Dlq.Machine.Leasing.{Lease}
use go_guard_lib.Dlq.Machine.Settling.{NackOptions}
use go_guard_lib.Dlq.Store.{Store}
use go_guard_lib.Breaker.{FnEnd, returned, panicked}

pub record RedriveConfig : Type 0 where
  pub workers : ℕ
  pub lease_ttl : ℕ
  pub poll_interval : ℕ
  pub max_attempts : ℕ
  pub backoff : ℕ → ℕ
  pub redact : Err → String
  pub itoa : ℕ → String

abbrev or_default : ℕ → ℕ → ℕ
or_default n d = if n == 0 then d else n

-- The defaults of `NewRedriver`. What is not positive counts as 0.
unfoldable pub with_defaults : RedriveConfig → RedriveConfig
with_defaults cfg = record cfg {
  workers = or_default cfg.workers 4;
  lease_ttl = or_default cfg.lease_ttl 60000000000;
  poll_interval = or_default cfg.poll_interval 500000000;
  max_attempts = or_default cfg.max_attempts 10;
}

pub data RedriveCounter : Type 0 where
  succeeded retried blocked parked lease_lost_count store_errors : RedriveCounter

-- `blocked_until` and `was_unavailable` are maps by dependency. `tally` holds each increment of a counter.
pub record Redriver : Type 0 where
  pub cfg : RedriveConfig
  pub blocked_until : List (String × ℕ)
  pub was_unavailable : List String
  pub active : List String
  pub inflight : ℕ
  pub tally : List RedriveCounter

abbrev tallied : RedriveCounter → Redriver → Redriver
tallied k r = record r { tally = k ∷ r.tally }

abbrev pub is_lost_link : Err → Bool
is_lost_link (store_err lease_lost) = true
is_lost_link (store_err not_found) = true
is_lost_link _ = false

unfoldable pub store_failure : Err → Redriver → Redriver
unfolding any_link
store_failure e r =
    if any_link is_lost_link e then tallied lease_lost_count r else tallied store_errors r

unfoldable pub hold_dependency : String → ℕ → List (String × ℕ) → List (String × ℕ)
hold_dependency dep until [] = (dep, until) ∷ []
hold_dependency dep until ((d, u) ∷ ds) =
    let rest = hold_dependency dep until ds in
    if str_eq d dep then (dep, until) ∷ ds else (d, u) ∷ rest

-- The dependencies whose breakers refuse, each once.
abbrev refusing_now : List String → List (String × Bool) → List String
refusing_now seen [] = []
refusing_now seen ((name, refuses) ∷ bs) =
    if refuses && not (mem_str name seen)
    then name ∷ refusing_now (name ∷ seen) bs
    else refusing_now seen bs

abbrev still_held : ℕ → List (String × ℕ) → List (String × ℕ)
still_held now [] = []
still_held now ((d, until) ∷ ds) =
    if ltb now until then (d, until) ∷ still_held now ds else still_held now ds

abbrev held_names : List String → List (String × ℕ) → List String
held_names current [] = []
held_names current ((d, until) ∷ ds) =
    if mem_str d current then held_names current ds else d ∷ held_names current ds

-- The names not to lease now. `breakers` are the configured ones and the source's, with what `Refusing`
-- says of each. (A recovery also restarts the limiter's ramp.)
unfoldable pub unavailable : List (String × Bool) → ℕ → Redriver → List String × Redriver
unavailable breakers now r =
    let current = refusing_now [] breakers in
    let held = still_held now r.blocked_until in
    (
      current ++ held_names current held,
      record r { blocked_until = held; was_unavailable = current },
    )

-- What a handler's end is as an error. The value of a panic is not kept.
abbrev pub handler_error : FnEnd → Option Err
handler_error (returned e) = e
handler_error panicked = some (plain 50)

abbrev pub named_or : String → String → String
named_or name d = if str_eq name "" then d else name

-- The dependency's other records are not leased for a moment.
abbrev pub hold : String → ℕ → Redriver → Redriver
hold dep now r = record r {
  blocked_until = hold_dependency dep (now + r.cfg.poll_interval * 2) r.blocked_until;
}

-- A call that was made and failed backs off as any failure does.
abbrev pub block_options : Redriver → ℕ → String → Bool → Err → NackOptions
block_options r n dep refund cause =
    let held = r.cfg.poll_interval * 2 in
    record {
      delay = if refund then held else max held (r.cfg.backoff n);
      err = r.cfg.redact cause;
      blocked_on = dep;
      refund = refund;
    }

abbrev pub retry_options : Redriver → ℕ → Err → NackOptions
retry_options r n e = record {
  delay = r.cfg.backoff n;
  err = r.cfg.redact e;
  blocked_on = "";
  refund = false;
}

abbrev pub remove_str : String → List String → List String
remove_str x [] = []
remove_str x (y ∷ ys) = if str_eq y x then remove_str x ys else y ∷ remove_str x ys

module _ {S : Type 0} (ops : Store S) where
  -- The store and the redriver after the store has answered: a counter, or the store's failure.
  abbrev pub counted :
      RedriveCounter → (Redriver → Redriver) → S × Option Err → Redriver → S × Redriver
  counted k f (s, none) r = (s, tallied k (f r))
  counted k f (s, some e) r = (s, store_failure e r)

  -- A release is not counted, but the store's failure is.
  abbrev pub uncounted : S × Option Err → Redriver → S × Redriver
  uncounted (s, none) r = (s, r)
  uncounted (s, some e) r = (s, store_failure e r)

  unfoldable pub park : S → Lease → String → ℕ → Redriver → S × Redriver
  unfolding store_failure
  park s l reason now r =
      counted parked (λ x. x) (ops.park s live l.leased_record.id l.token reason now) r

  abbrev pub gave_up : Redriver → ℕ → Err → String
  gave_up r n e = "gave up after " +++ (r.cfg.itoa n +++ (" attempts: " +++ r.cfg.redact e))

  -- A record goes back to the queue, tagged with the dependency that it waits on.
  unfoldable pub block : S → Lease → String → Bool → Err → ℕ → Redriver → S × Redriver
  unfolding park store_failure hold_dependency
  block s l dep refund cause now r =
      let n = l.leased_record.attempts in
      let o = block_options r n dep refund cause in
      if not refund && leb r.cfg.max_attempts n
      then park s l (gave_up r n cause) now r
      else counted blocked (hold dep now) (ops.nack s live l.leased_record.id l.token o now) r

  -- Another failure: it is tried again later, unless its attempts are spent.
  abbrev pub retry_or_park : S → Lease → Err → ℕ → Redriver → S × Redriver
  retry_or_park s l e now r =
      let n = l.leased_record.attempts in
      let o = retry_options r n e in
      if leb r.cfg.max_attempts n
      then park s l (gave_up r n e) now r
      else counted retried (λ x. x) (ops.nack s live l.leased_record.id l.token o now) r

  abbrev pub settle_other : S → Lease → Err → Bool → ℕ → Redriver → S × Redriver
  settle_other s l e ended now r =
      if is_permanent e
      then park s l ("permanent failure: " +++ r.cfg.redact e) now r
      else (if ended
          then uncounted (ops.release s live l.leased_record.id l.token) r
          else retry_or_park s l e now r)

  abbrev pub settle_open : S → Lease → Err → Option String → Bool → ℕ → Redriver → S × Redriver
  settle_open s l e (some name) ended now r =
      block s l (named_or name l.leased_record.blocked_on) true e now r
  settle_open s l e none ended now r = settle_other s l e ended now r

  abbrev pub settle_failed : S → Lease → Err → Option Blocked → Bool → ℕ → Redriver → S × Redriver
  settle_failed s l e (some b) ended now r =
      block s l (named_or b.dependency l.leased_record.blocked_on) b.refund e now r
  settle_failed s l e none ended now r = settle_open s l e (as_open e) ended now r

  abbrev pub settle_result : S → Lease → Option Err → Bool → ℕ → Redriver → S × Redriver
  settle_result s l none ended now r =
      counted succeeded (λ x. x) (ops.ack s live l.leased_record.id l.token) r
  settle_result s l (some e) ended now r = settle_failed s l e (as_blocked e) ended now r

  -- `ended` says whether the context has ended. All calls but the handler's are detached from it.
  unfoldable pub settle : S → Lease → Option Err → Bool → ℕ → Redriver → S × Redriver
  unfolding park block store_failure
  settle s l err ended now r = settle_result s l err ended now r

  abbrev pub spent_reason : Redriver → ℕ → String
  spent_reason r n =
      "leased "
      +++ (r.cfg.itoa n
          +++ (" times without finishing (limit "
              +++ (r.cfg.itoa r.cfg.max_attempts +++ "): the handler may be crashing on it")))

  -- The deferred part of `process`.
  abbrev pub freed : String → S × Redriver → S × Redriver
  freed id (s, r) = (s, record r { active = remove_str id r.active; inflight = r.inflight - 1 })

  -- `handler` is given the store and the lease, since it saves its progress under it. `was_ended` and
  -- `ended` say whether the context has ended before it and after.
  unfoldable pub process :
      (S → Lease → S × FnEnd) → S → Lease → Bool → Bool → ℕ → Redriver → S × Redriver
  unfolding park settle
  process handler s l was_ended ended now r =
      let n = l.leased_record.attempts in
      let (s', end) = handler s l in
      freed l.leased_record.id (
        if was_ended
        then ((ops.release s live l.leased_record.id l.token).0, r)
        else (if ltb r.cfg.max_attempts n
            then park s l (spent_reason r n) now r
            else settle s' l (handler_error end) ended now r))

-- The part of `fill` that queues the leases for the workers: a record that a worker still handles is
-- handed back. The leases that are queued come last.
module _ {S : Type 0} (ops : Store S) where
  abbrev pub queued_as : Lease → S × Redriver × List Lease → S × Redriver × List Lease
  queued_as l (s, r, ls) = (s, r, l ∷ ls)

  unfoldable pub queue_leases : S → List Lease → Redriver → S × Redriver × List Lease
  queue_leases s [] r = (s, r, [])
  queue_leases s (l ∷ ls) r =
      let id = l.leased_record.id in
      let r' = record r { active = id ∷ r.active; inflight = r.inflight + 1 } in
      let back = queue_leases (ops.release s live id l.token).0 ls r in
      let queued = queue_leases s ls r' in if mem_str id r.active then back else queued_as l queued
