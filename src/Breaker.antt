-- ===== src/Breaker.antt =====
-- breaker/breaker.go: the public circuit breaker around the internal one. `opens` and `last_change`
-- are kept by the callback `OnStateChange`, which `notice` is: a call on the internal breaker
-- reports at most one change (Ibreaker/Moves.antt). The prober's goroutine is the flag
-- `prober_running` with the events that change it; its loop is in Health.antt. Event sinks are left
-- out.
pub mod Permits
pub mod Prober
pub mod Recovery
mod Examples
use Prim.Native.String.{String}
use go_guard_lib.Prelude.{
  ℕ, zero, suc, ◌+◌, ◌-◌, ◌*◌, ◌/◌, Bool, true, false, ◌&&◌, ◌||◌, not, if◌then◌else◌, ltb, ◌==◌,
  Option, none, some, List, [], ◌∷◌, length,
}
use go_guard_lib.Engine.{BreakerState, state_closed, state_open, state_half_open}
use go_guard_lib.Errors.{Err, open_error, bulkhead_error, is_canceled}
use go_guard_lib.Ibreaker
use go_guard_lib.Ibreaker.{
  Wait, Verdict, admitted, rejected_open, rejected_bulkhead, Override, no_override, state_eq,
}
use go_guard_lib.Health

-- `name` and what the default needs are given as in `Config`; rates are in basis points.
pub record Config : Type 0 where
  pub name : String
  pub failure_threshold : ℕ
  pub min_samples : ℕ
  pub sampling_window : ℕ
  pub bucket_duration : ℕ
  pub sleep_window : ℕ
  pub max_inflight : ℕ
  pub wait_timeout : ℕ
  pub retry_budget : ℕ
  pub dry_run : Bool
  pub health : Option Health.Config

unfoldable pub apply_defaults : Config → Config
apply_defaults c =
    let sampling = (if c.sampling_window == 0 then 10 * Health.second else c.sampling_window) in
    let bucket = (if c.bucket_duration == 0 then sampling / 10 else c.bucket_duration) in
    record c {
      failure_threshold = if c.failure_threshold == 0 then 5000 else c.failure_threshold;
      min_samples = if c.min_samples == 0 then 10 else c.min_samples;
      sampling_window = sampling;
      bucket_duration = if bucket == 0 then Health.second else bucket;
      sleep_window = if c.sleep_window == 0 then 30 * Health.second else c.sleep_window;
    }

pub record Breaker : Type 0 where
  pub cfg : Config
  pub inner : Ibreaker.Breaker
  pub seed : ℕ
  pub rejected : ℕ
  pub rejected_bulk : ℕ
  pub opens : ℕ
  pub last_change : ℕ
  pub hc : Option Health.Config
  pub prober_running : Bool
  pub closed : Bool

abbrev pub gate : Option Health.Config → Ibreaker.Breaker → Ibreaker.Breaker
gate none b = b
gate (some hc) b = Ibreaker.set_health_gate b (if hc.max_open_off then 0 else hc.max_open)

abbrev pub checked : Option Health.Config → Option Health.Config
checked none = none
checked (some hc) = some (Health.with_defaults hc)

unfoldable pub new : Config → ℕ → ℕ → Breaker
unfolding apply_defaults
new config seed now =
    let c = apply_defaults config in
    let hc = checked c.health in
    record {
      cfg = c;
      inner = gate hc (
          Ibreaker.new_breaker c.failure_threshold c.sleep_window c.sampling_window
            c.bucket_duration c.max_inflight c.min_samples c.dry_run c.retry_budget now);
      seed = seed;
      rejected = 0;
      rejected_bulk = 0;
      opens = 0;
      last_change = 0;
      hc = hc;
      prober_running = false;
      closed = false;
    }

unfoldable pub start_prober : Breaker → Breaker
start_prober b = elim b.hc [
  | none ↦ b
  | some _ ↦
      if b.prober_running
      then b
      else (if b.closed
          then record b { prober_running = false }
          else record b { prober_running = true })
]

-- `OnStateChange`, when the internal breaker has moved to `to`.
abbrev on_state_change : Breaker → BreakerState → ℕ → Breaker
on_state_change b to now =
    let b' = record b { last_change = now } in
    if state_eq to state_open then start_prober (record b' { opens = b'.opens + 1 }) else b'

-- The internal breaker after a call on it.
unfoldable pub notice : Breaker → Ibreaker.Breaker → ℕ → Breaker
unfolding start_prober
notice b inner now =
    let b' = record b { inner = inner } in
    if length inner.changes == length b.inner.changes
    then b'
    else on_state_change b' inner.state now

-- `Close`: a prober that runs ends with the context (`prober_exits`).
unfoldable pub close : Breaker → Breaker
close b = record b { closed = true }

unfoldable pub active : Breaker → Bool
active b = state_eq b.inner.state state_open || state_eq b.inner.state state_half_open

-- The end of one `health.Run` in the prober's goroutine: it leaves, unless the circuit is not
-- closed after all, when it takes the flag again.
unfoldable pub prober_exits : Breaker → Breaker
unfolding active
prober_exits b =
    let b' = record b { prober_running = false } in
    if b.closed || not (active b') then b' else record b' { prober_running = true }

-- `healthTarget.Result`, with the configuration that the prober runs under.
unfoldable pub result : Health.Config → Bool → ℕ → ℕ → Breaker → Breaker
unfolding notice
result hc healthy consecutive now b =
    if not healthy
    then notice b (Ibreaker.reopen_from_probe b.inner now).0 now
    else (if ltb consecutive hc.success_threshold
        then b
        else (if hc.trust_health
            then notice b (Ibreaker.reset_closed b.inner now).0 now
            else notice b (Ibreaker.begin_probe b.inner now).0 now))

-- The breaker as what the prober of package health probes.
abbrev pub health_target : Health.Config → Health.Target Breaker
health_target hc = record { active = active; generation = λ b. b.opens; result = result hc }

unfoldable pub set_override : Breaker → Override → Breaker
set_override b o = record b { inner = Ibreaker.set_override b.inner o }

-- An admitted call gets a permit; a rejection is counted.
pub data Acquired : Type 0 where
  permit : Acquired
  refused : Err → Acquired

answer : Verdict → Breaker → Breaker × Acquired
answer admitted b = (b, permit)
answer rejected_bulkhead b =
    (record b { rejected_bulk = b.rejected_bulk + 1 }, refused (bulkhead_error b.cfg.name))
answer rejected_open b = (record b { rejected = b.rejected + 1 }, refused (open_error b.cfg.name))

unfoldable pub acquire : Breaker → Wait → Bool → ℕ → Breaker × Acquired
unfolding answer notice
acquire b wait vip now =
    let (inner, seed, verdict) = Ibreaker.allow_ex b.inner b.cfg.wait_timeout wait b.seed vip now in
    answer verdict (record (notice b inner now) { seed = seed })

-- The rest of an `acquire` that had to wait, when its timer fires.
unfoldable pub acquire_later : Breaker → ℕ → Breaker × Acquired
unfolding answer notice
acquire_later b now =
    let (inner, seed, verdict) = Ibreaker.wake b.inner b.seed now in
    answer verdict (record (notice b inner now) { seed = seed })

pub data Outcome : Type 0 where
  success : (latency_us : ℕ) → Outcome
  failure abandoned : Outcome

record_outcome : Outcome → Ibreaker.Breaker → ℕ → Ibreaker.Breaker
record_outcome (success l) b now = Ibreaker.mark_success b now l
record_outcome failure b now = Ibreaker.mark_failure b now
record_outcome abandoned b now = Ibreaker.abandon b

-- `Permit.Success`, `Failure` and `Abandon`: the first one sets the permit's flag `done` and takes
-- effect, later ones do nothing. The breaker, and the flag.
unfoldable pub settle : Breaker → Bool → Outcome → ℕ → Breaker × Bool
unfolding record_outcome notice
settle b done outcome now =
    if done then (b, true) else (notice b (record_outcome outcome b.inner now) now, true)

-- How a guarded function ends. `Config.IsFailure` is the parameter `is_failure`.
pub data FnEnd : Type 0 where
  returned : Option Err → FnEnd
  panicked : FnEnd

-- `finish`, and the deferred call of `Failure` when the function panics.
unfoldable pub outcome_of : (Err → Bool) → Bool → ℕ → FnEnd → Outcome
outcome_of is_failure ctx_ended latency panicked = failure
outcome_of is_failure ctx_ended latency (returned none) = success latency
outcome_of is_failure ctx_ended latency (returned (some e)) =
    if is_canceled e && ctx_ended
    then abandoned
    else (if is_failure e then failure else success latency)

-- `Do`: the function changes the breaker by `during`, other calls included, and ends as `fn` says.
-- What `Do` returns is the rejection, or the function's own end.
pub data DoEnd : Type 0 where
  rejected_with : Err → DoEnd
  ran : FnEnd → DoEnd

unfoldable pub do_call :
    (Err → Bool)
    → Breaker
    → Wait
    → (Breaker → Breaker)
    → FnEnd
    → (ctx_ended : Bool) → (latency_us now later : ℕ) → Breaker × DoEnd
unfolding outcome_of
do_call is_failure b wait during fn ctx_ended latency now later =
    let (b', got) = acquire b wait false now in
    elim got [
      | refused e ↦ (b', rejected_with e)
      | permit ↦
          ((settle (during b') false (outcome_of is_failure ctx_ended latency fn) later).0, ran fn)
    ]
