-- ===== src/Ibreaker.antt =====
-- internal/breaker/breaker.go: the circuit breaker under the public one. A method returns the new
-- breaker and its result; `now` is the clock reading of the call. Times, durations and counters are
-- unbounded numbers, and a difference of times is compared in additive form. A flag that the code
-- keeps as an int32 of 0 or 1 is a Boolean. `changes` holds the calls of `OnStateChange`, newest
-- first. A method runs as one step, but for a call that waits for a slot: `Wait` says what happens
-- while it waits. What concurrent callers do inside `tryAcquire` is in Ibreaker/Bulkhead.antt.
pub mod Random
pub mod Invariant
pub mod Probe
pub mod Refusal
pub mod Trip
pub mod Bulkhead
pub mod Moves
pub mod Slots
mod Examples
use go_guard_lib.Prelude.{
  ℕ, zero, suc, ◌+◌, ◌-◌, ◌*◌, ◌/◌, ◌%◌, pred, Bool, true, false, ◌&&◌, ◌||◌, not, if◌then◌else◌,
  ltb, leb, ◌==◌, Option, none, some, List, [], ◌∷◌,
}
use go_guard_lib.Engine.{
  BreakerState, state_closed, state_open, state_half_open, RollingWindow, new_rolling_window,
}
use go_guard_lib.Engine
use Random.{xorshift64}

-- `SetOverride` stores a number: 1 is forced open, 2 forced closed, any other is none.
pub data Override : Type 0 where
  no_override force_open force_closed : Override

pub data Verdict : Type 0 where
  admitted rejected_open rejected_bulkhead : Verdict

pub record Change : Type 0 where
  pub from : BreakerState
  pub to : BreakerState

pub record Breaker : Type 0 where
  pub state : BreakerState
  pub metrics : RollingWindow
  pub last_failure : ℕ
  pub min_samples : ℕ
  pub failure_threshold : ℕ
  pub retry_budget_bps : ℕ
  pub sleep_window : ℕ
  pub inflight : ℕ
  pub max_inflight : ℕ
  pub probing : Bool
  pub probe_at : ℕ
  pub override : Override
  pub dry_run : Bool
  pub health_gated : Bool
  pub max_open : ℕ
  pub changes : List Change

-- Rates are given in basis points, which is what the code makes of its fractions.
-- `maxInflight` is below 2 ^ 31, so that its conversion to an int32 keeps it.
unfoldable pub new_breaker : ℕ → ℕ → ℕ → ℕ → ℕ → ℕ → Bool → ℕ → ℕ → Breaker
new_breaker failure_threshold sleep_window sampling_window bucket_duration max_inflight min_samples
      dry_run retry_budget now =
    record {
      state = state_closed;
      metrics = new_rolling_window sampling_window bucket_duration now;
      last_failure = 0;
      min_samples = min_samples;
      failure_threshold = failure_threshold;
      retry_budget_bps = retry_budget;
      sleep_window = sleep_window;
      inflight = 0;
      max_inflight = max_inflight;
      probing = false;
      probe_at = 0;
      override = no_override;
      dry_run = dry_run;
      health_gated = false;
      max_open = 0;
      changes = [];
    }

abbrev pub state_eq : BreakerState → BreakerState → Bool
state_eq state_closed state_closed = true
state_eq state_open state_open = true
state_eq state_half_open state_half_open = true
state_eq _ _ = false

-- The compare and swap of `AtomicState.Transition`, with what `transition` does when it succeeds.
unfoldable pub transition : Breaker → BreakerState → BreakerState → ℕ → Breaker × Bool
transition b from to now =
    if state_eq b.state from
    then (
      record b {
        state = to;
        metrics = if state_eq to state_closed then Engine.reset b.metrics now else b.metrics;
        changes = record { from = from; to = to } ∷ b.changes;
      },
      true,
    )
    else (b, false)

unfoldable pub try_acquire : Breaker → Breaker × Bool
try_acquire b =
    if leb b.max_inflight b.inflight
    then (b, false)
    else (record b { inflight = b.inflight + 1 }, true)

-- What ends the wait for a slot: the caller's context, or the timer, by when other calls have
-- changed the breaker.
pub data Wait : Type 0 where
  context_done : Wait
  timer_fired : (Breaker → Breaker) → Wait

abbrev after_wait : Breaker → Wait → Breaker × Bool
after_wait b context_done = (b, false)
after_wait b (timer_fired others) = try_acquire (others b)

unfoldable pub acquire : Breaker → ℕ → Wait → Bool → Breaker × Bool
unfolding try_acquire
acquire b wait_timeout wait vip =
    if b.max_inflight == 0 || vip
    then (record b { inflight = b.inflight + 1 }, true)
    else let (b', got) = try_acquire b in
      if got then (b', true) else (if wait_timeout == 0 then (b', false) else after_wait b' wait)

-- The health check owns the way out of the open state.
abbrev gated : Breaker → ℕ → Bool
gated b now = b.health_gated && (b.max_open == 0 || ltb now (b.last_failure + b.max_open))

abbrev take_probe : Breaker → ℕ → Breaker
take_probe b now = record b { probing = true; probe_at = now }

-- The random number is drawn only if the jitter range is positive.
abbrev draw_jitter : ℕ → ℕ → ℕ → ℕ × ℕ
draw_jitter sleep_window seed now =
    if sleep_window / 10 == 0
    then (seed, 0)
    else let x = xorshift64 seed now in (x, x % (sleep_window / 10))

open_allows : Breaker → ℕ → ℕ → Breaker × ℕ × Bool
unfolding transition
open_allows b seed now =
    let (seed', jitter) = draw_jitter b.sleep_window seed now in
    if ltb (b.last_failure + b.sleep_window + jitter) now
    then (let (b', moved) = transition b state_open state_half_open now in
        if moved && not b'.probing
        then (take_probe b' now, seed', true)
        else (b', seed', b.dry_run))
    else (b, seed', b.dry_run)

half_open_allows : Breaker → ℕ → Breaker × Bool
half_open_allows b now =
    if not b.probing
    then (take_probe b now, true)
    else (if not (b.probe_at == 0) && ltb (b.probe_at + b.sleep_window) now
        then (record b { probe_at = now }, true)
        else (b, b.dry_run))

circuit_dispatch : BreakerState → Breaker → ℕ → ℕ → Breaker × ℕ × Bool
unfolding open_allows half_open_allows
circuit_dispatch state_open b seed now =
    if gated b now then (b, seed, b.dry_run) else open_allows b seed now
circuit_dispatch state_half_open b seed now =
    let (b', allowed) = half_open_allows b now in (b', seed, allowed)
circuit_dispatch state_closed b seed now = (b, seed, true)

-- The new breaker, the new seed, and whether the circuit admits the request.
unfoldable pub circuit_allows : Breaker → ℕ → ℕ → Breaker × ℕ × Bool
unfolding circuit_dispatch
circuit_allows b seed now = circuit_dispatch b.state b seed now

refusing_dispatch : Override → Breaker → ℕ → Bool
refusing_dispatch force_open b now = true
refusing_dispatch force_closed b now = false
refusing_dispatch no_override b now =
    if b.dry_run || not (state_eq b.state state_open)
    then false
    else (if gated b now
        then true
        else leb now (b.last_failure + (b.sleep_window + b.sleep_window / 10)))

unfoldable pub refusing : Breaker → ℕ → Bool
unfolding refusing_dispatch
refusing b now = refusing_dispatch b.override b now

-- The number in flight stops at 0, where the code's int32 would go below: a slot that was taken is
-- released once.
unfoldable pub release_slot : Breaker → Breaker
release_slot b = record b { inflight = pred b.inflight }

-- What a call does once it holds a slot.
pub enter : Breaker → ℕ → ℕ → Breaker × ℕ × Verdict
unfolding circuit_allows release_slot
enter b seed now =
    let (b', seed', allowed) = circuit_allows b seed now in
    if allowed then (b', seed', admitted) else (release_slot b', seed', rejected_open)

allow_dispatch : Override → Breaker → ℕ → Wait → ℕ → Bool → ℕ → Breaker × ℕ × Verdict
unfolding acquire
allow_dispatch force_open b wait_timeout wait seed vip now = (b, seed, rejected_open)
allow_dispatch force_closed b wait_timeout wait seed vip now =
    (record b { inflight = b.inflight + 1 }, seed, admitted)
allow_dispatch no_override b wait_timeout wait seed vip now =
    let (b', got) = acquire b wait_timeout wait vip in
    if got then enter b' seed now else (b', seed, rejected_bulkhead)

-- An admitted request holds an in-flight slot.
unfoldable pub allow_ex : Breaker → ℕ → Wait → ℕ → Bool → ℕ → Breaker × ℕ × Verdict
unfolding allow_dispatch
allow_ex b wait_timeout wait seed vip now =
    allow_dispatch b.override b wait_timeout wait seed vip now

-- The part of `allow_ex` after the wait for a slot, as a call of its own: the timer has fired.
unfoldable pub wake : Breaker → ℕ → ℕ → Breaker × ℕ × Verdict
unfolding try_acquire
wake b seed now =
    let (b', got) = try_acquire b in
    if got then enter b' seed now else (b', seed, rejected_bulkhead)

unfoldable pub abandon : Breaker → Breaker
unfolding release_slot
abandon b =
    let b' = release_slot b in
    if state_eq b'.state state_half_open then record b' { probing = false } else b'

unfoldable pub can_retry : Breaker → Bool
can_retry b =
    if b.retry_budget_bps == 0
    then true
    else ltb (Engine.retry_rate_bps b.metrics) b.retry_budget_bps

unfoldable pub record_retry : Breaker → ℕ → Breaker
record_retry b now = record b { metrics = Engine.record_retry b.metrics now }

unfoldable pub record_success : Breaker → ℕ → ℕ → Breaker
unfolding transition
record_success b now latency_us =
    let b' = record b { metrics = Engine.success b.metrics now latency_us } in
    let (b'', closed) = transition b' state_half_open state_closed now in
    if closed then record b'' { probing = false } else b''

-- A closed circuit opens at the threshold, once there are enough samples.
pub trip : Breaker → ℕ → Breaker
unfolding transition
trip b now =
    let (m, success, failure) = Engine.counts b.metrics now in
    let b' = record b { metrics = m } in
    let (m', rate) = Engine.failure_rate_bps m now in
    if not (b.min_samples == 0) && ltb (success + failure) b.min_samples
    then b'
    else let b'' = record b' { metrics = m' } in
      (if leb b.failure_threshold rate then (transition b'' state_closed state_open now).0 else b'')

unfoldable pub record_failure : Breaker → ℕ → Breaker
unfolding trip transition
record_failure b now =
    let b' = record b { metrics = Engine.failure b.metrics now; last_failure = now } in
    if state_eq b'.state state_half_open
    then record (transition b' state_half_open state_open now).0 { probing = false }
    else trip b' now

unfoldable pub mark_success : Breaker → ℕ → ℕ → Breaker
unfolding release_slot record_success
mark_success b now latency_us = record_success (release_slot b) now latency_us

unfoldable pub mark_failure : Breaker → ℕ → Breaker
unfolding release_slot record_failure
mark_failure b now = record_failure (release_slot b) now

unfoldable pub set_health_gate : Breaker → ℕ → Breaker
set_health_gate b max_open = record b { max_open = max_open; health_gated = true }

unfoldable pub begin_probe : Breaker → ℕ → Breaker × Bool
unfolding transition
begin_probe b now = transition (record b { probing = false }) state_open state_half_open now

unfoldable pub reset_closed : Breaker → ℕ → Breaker × Bool
unfolding transition
reset_closed b now =
    let (b', closed) = transition (record b { probing = false }) state_half_open state_closed now in
    if closed then (b', true) else transition b' state_open state_closed now

unfoldable pub reopen_from_probe : Breaker → ℕ → Breaker × Bool
unfolding transition
reopen_from_probe b now =
    let (b', moved) = transition b state_half_open state_open now in
    if moved then (record b' { last_failure = now; probing = false }, true) else (b', false)

unfoldable pub set_override : Breaker → Override → Breaker
set_override b o = record b { override = o }

-- The calls on a breaker, each with its clock reading. One that has to wait for a slot changes
-- nothing when it arrives, and is a `wakes` when its timer fires.
pub data Call : Type 0 where
  arrives : (wait_timeout seed : ℕ) → (vip : Bool) → (now : ℕ) → Call
  wakes : (seed now : ℕ) → Call
  succeeds : (now latency_us : ℕ) → Call
  fails : (now : ℕ) → Call
  abandons : Call
  retries : (now : ℕ) → Call
  gates : (max_open : ℕ) → Call
  probes : (now : ℕ) → Call
  closes : (now : ℕ) → Call
  reopens : (now : ℕ) → Call
  overrides : Override → Call

unfoldable pub apply : Breaker → Call → Breaker
apply b (arrives t seed vip now) = (allow_ex b t context_done seed vip now).0
apply b (wakes seed now) = (wake b seed now).0
apply b (succeeds now l) = mark_success b now l
apply b (fails now) = mark_failure b now
apply b abandons = abandon b
apply b (retries now) = record_retry b now
apply b (gates m) = set_health_gate b m
apply b (probes now) = (begin_probe b now).0
apply b (closes now) = (reset_closed b now).0
apply b (reopens now) = (reopen_from_probe b now).0
apply b (overrides o) = set_override b o

unfoldable pub run : Breaker → List Call → Breaker
run b [] = b
run b (c ∷ cs) = run (apply b c) cs
