-- ===== src/Ibreaker/Invariant.antt =====
-- internal/breaker/breaker.go: what holds of a breaker between two calls.
use go_guard_lib.Prelude.{ℕ, ◌+◌, ◌<◌, ◌≡◌, Bool, true, List, [], ◌∷◌, arith}
use go_guard_lib.Engine.{BreakerState, state_closed, state_open, state_half_open, RollingWindow}
use go_guard_lib.Engine
use go_guard_lib.Engine.Totals.{
  IsExact, new-IsExact, rotate-IsExact, reset-IsExact, success-IsExact, failure-IsExact,
  record_retry-IsExact, counts-IsExact,
}
use go_guard_lib.Ibreaker.{
  Breaker, context_done, new_breaker, circuit_allows, allow_ex, abandon, record_retry,
  record_success, record_failure, trip, mark_success, mark_failure, set_health_gate, begin_probe,
  reset_closed, reopen_from_probe, set_override, release_slot, enter, wake, Call, arrives, wakes,
  succeeds, fails, abandons, retries, gates, probes, closes, reopens, overrides, apply, run,
}

-- The window's totals are exact, and a probe is out only while the circuit is half-open.
pub record IsSound (b : Breaker) : Type 0 where
  pub window : IsExact b.metrics
  pub probe : b.probing ≡ true → b.state ≡ state_half_open

circuit_allows-IsSound :
    (b : Breaker) (seed now : ℕ) → IsSound b → IsSound (circuit_allows b seed now).0
unfolding circuit_allows
circuit_allows-IsSound b seed now v = ground arith

record_success-IsSound :
    (b : Breaker) (now latency_us : ℕ) → IsSound b → IsSound (record_success b now latency_us)
unfolding record_success
record_success-IsSound b now l v =
    let e = success-IsExact b.metrics now l v.window in
    ground (arith, e, reset-IsExact (Engine.success b.metrics now l) now e)

trip-IsSound : (b : Breaker) (now : ℕ) → IsSound b → IsSound (trip b now)
unfolding trip Engine.failure_rate_bps
trip-IsSound b now v =
    let e = counts-IsExact b.metrics now v.window in
    ground (arith, e, rotate-IsExact (Engine.counts b.metrics now).0 now e)

record_failure-IsSound : (b : Breaker) (now : ℕ) → IsSound b → IsSound (record_failure b now)
unfolding record_failure
record_failure-IsSound b now v =
    let e = failure-IsExact b.metrics now v.window in
    let b' = record b { metrics = Engine.failure b.metrics now; last_failure = now } in
    let v' : IsSound b' = record { window = e; probe = v.probe } in
    ground (arith, e, v', trip-IsSound b' now v')

enter-IsSound : (b : Breaker) (seed now : ℕ) → IsSound b → IsSound (enter b seed now).0
unfolding enter
enter-IsSound b seed now v = ground (arith, circuit_allows-IsSound b seed now v)

arrive-IsSound :
    (b : Breaker) (t seed : ℕ) (vip : Bool) (now : ℕ)
    → IsSound b
    → IsSound (allow_ex b t context_done seed vip now).0
unfolding allow_ex
arrive-IsSound b t seed vip now v = ground (
  arith,
  enter-IsSound (record b { inflight = b.inflight + 1 }) seed now
      (record { window = v.window; probe = v.probe }),
)

wake-IsSound : (b : Breaker) (seed now : ℕ) → IsSound b → IsSound (wake b seed now).0
unfolding wake
wake-IsSound b seed now v = ground (
  arith,
  enter-IsSound (record b { inflight = b.inflight + 1 }) seed now
      (record { window = v.window; probe = v.probe }),
)

closing-IsSound : (b : Breaker) (now : ℕ) → IsSound b → IsSound (reset_closed b now).0
unfolding reset_closed
closing-IsSound b now v = ground (arith, reset-IsExact b.metrics now v.window)

release-IsSound : (b : Breaker) → IsSound b → IsSound (release_slot b)
unfolding release_slot
release-IsSound b v = record { window = v.window; probe = v.probe }

-- Every call, at any clock reading, keeps the invariant.
pub apply-IsSound : (b : Breaker) (c : Call) → IsSound b → IsSound (apply b c)
unfolding apply mark_success mark_failure
apply-IsSound b (arrives t seed vip now) v = arrive-IsSound b t seed vip now v
apply-IsSound b (wakes seed now) v = wake-IsSound b seed now v
apply-IsSound b (succeeds now l) v = record_success-IsSound _ now l (release-IsSound b v)
apply-IsSound b (fails now) v = record_failure-IsSound _ now (release-IsSound b v)
apply-IsSound b abandons v = unfold abandon in ground arith
apply-IsSound b (retries now) v =
    unfold record_retry in
    record { window = record_retry-IsExact b.metrics now v.window; probe = v.probe }
apply-IsSound b (gates m) v =
    unfold set_health_gate in record { window = v.window; probe = v.probe }
apply-IsSound b (probes now) v = unfold begin_probe in ground arith
apply-IsSound b (closes now) v = closing-IsSound b now v
apply-IsSound b (reopens now) v = unfold reopen_from_probe in ground arith
apply-IsSound b (overrides o) v =
    unfold set_override in record { window = v.window; probe = v.probe }

pub run-IsSound : (b : Breaker) (cs : List Call) → IsSound b → IsSound (run b cs)
unfolding run
run-IsSound b [] v = v
run-IsSound b (c ∷ cs) v = run-IsSound (apply b c) cs (apply-IsSound b c v)

-- After any sequence of calls on a new breaker with a positive bucket duration, whatever the clock
-- read at each, the window's totals are the sums over its buckets, and the probe slot is taken only
-- while the circuit is half-open.
pub run-new-IsSound :
    (threshold sleep sampling bucket max_inflight min_samples : ℕ) (dry_run : Bool)
    (retry_budget now : ℕ) (cs : List Call)
    → 0 < bucket
    → IsSound (
        run
          (new_breaker threshold sleep sampling bucket max_inflight min_samples dry_run retry_budget
            now)
          cs)
unfolding new_breaker
run-new-IsSound th sl sa bu mi ms dr rb now cs h =
    run-IsSound _ cs (record { window = new-IsExact sa bu now h; probe = λ e. cc })
