-- ===== src/Ibreaker/Moves.antt =====
-- internal/breaker/breaker.go: which changes of state a breaker reports, over any history.
use go_guard_lib.Prelude.{ℕ, ◌+◌, ◌≡◌, refl, Bool, List, [], ◌∷◌, arith}
use go_guard_lib.Engine.{BreakerState, state_closed, state_open, state_half_open}
use go_guard_lib.Ibreaker.{
  Breaker, Change, context_done, new_breaker, circuit_allows, allow_ex, abandon, record_success,
  record_failure, trip, mark_success, mark_failure, set_health_gate, begin_probe, reset_closed,
  reopen_from_probe, set_override, release_slot, enter, wake, record_retry, Call, arrives, wakes,
  succeeds, fails, abandons, retries, gates, probes, closes, reopens, overrides, apply, run,
}

-- The edges of the state diagram.
pub data Edge : BreakerState → BreakerState → Type 0 where
  trips : Edge state_closed state_open
  tries : Edge state_open state_half_open
  recovers : Edge state_half_open state_closed
  relapses : Edge state_half_open state_open
  trusts : Edge state_open state_closed

-- The changes, newest first, follow edges, each from where the one before it led, beginning at
-- closed; the newest leads to `s`.
pub data IsPath : BreakerState → List Change → Type 0 where
  start : {s : BreakerState} → s ≡ state_closed → IsPath s []
  move :
      {s : BreakerState} {c : Change} {cs : List Change}
      → Edge c.from c.to
      → c.to ≡ s
      → IsPath c.from cs
      → IsPath s (c ∷ cs)

-- From a state and a log to a breaker: no change, or one change along an edge, which is logged.
pub data Moves (s : BreakerState) (log : List Change) (b : Breaker) : Type 0 where
  stays : b.state ≡ s → b.changes ≡ log → Moves s log b
  goes : Edge s b.state → b.changes ≡ record { from = s; to = b.state } ∷ log → Moves s log b

ruleset edges = (trips, tries, recovers, relapses, trusts)

module _ (b : Breaker) where
  enter-Moves : (seed now : ℕ) → Moves b.state b.changes (enter b seed now).0
  unfolding enter circuit_allows
  enter-Moves seed now = grind (arith, edges, stays, goes)

  pub record_success-Moves : (now l : ℕ) → Moves b.state b.changes (record_success b now l)
  unfolding record_success
  record_success-Moves now l = grind (arith, edges, stays, goes)

  pub record_failure-Moves : (now : ℕ) → Moves b.state b.changes (record_failure b now)
  unfolding record_failure trip
  record_failure-Moves now = grind (arith, edges, stays, goes)

  reset_closed-Moves : (now : ℕ) → Moves b.state b.changes (reset_closed b now).0
  unfolding reset_closed
  reset_closed-Moves now = grind (arith, edges, stays, goes)

module _ (b : Breaker) where
  pub arrive-Moves :
      (t seed : ℕ) (vip : Bool) (now : ℕ)
      → Moves b.state b.changes (allow_ex b t context_done seed vip now).0
  unfolding allow_ex
  arrive-Moves t seed vip now =
      grind (arith, stays, enter-Moves (record b { inflight = b.inflight + 1 }) seed now)

  pub wake-Moves : (seed now : ℕ) → Moves b.state b.changes (wake b seed now).0
  unfolding wake
  wake-Moves seed now =
      grind (arith, stays, enter-Moves (record b { inflight = b.inflight + 1 }) seed now)

  -- Every call makes at most one change of state, along an edge, and reports it.
  pub apply-Moves : (c : Call) → Moves b.state b.changes (apply b c)
  unfolding apply mark_success mark_failure
  apply-Moves (arrives t seed vip now) = arrive-Moves t seed vip now
  apply-Moves (wakes seed now) = wake-Moves seed now
  apply-Moves (succeeds now l) = record_success-Moves (release_slot b) now l
  apply-Moves (fails now) = record_failure-Moves (release_slot b) now
  apply-Moves abandons = unfold abandon in grind (arith, stays)
  apply-Moves (retries now) = unfold record_retry in stays refl refl
  apply-Moves (gates m) = unfold set_health_gate in stays refl refl
  apply-Moves (probes now) = unfold begin_probe in grind (arith, edges, stays, goes)
  apply-Moves (closes now) = reset_closed-Moves b now
  apply-Moves (reopens now) = unfold reopen_from_probe in grind (arith, edges, stays, goes)
  apply-Moves (overrides o) = unfold set_override in stays refl refl

module _ (b : Breaker) where
  pub success-Moves : (now l : ℕ) → Moves b.state b.changes (mark_success b now l)
  unfolding mark_success
  success-Moves now l = record_success-Moves (release_slot b) now l

  pub failure-Moves : (now : ℕ) → Moves b.state b.changes (mark_failure b now)
  unfolding mark_failure
  failure-Moves now = record_failure-Moves (release_slot b) now

  pub abandon-Moves : Moves b.state b.changes (abandon b)
  unfolding apply
  abandon-Moves = apply-Moves b abandons

  pub probe-Moves : (now : ℕ) → Moves b.state b.changes (begin_probe b now).0
  unfolding apply
  probe-Moves now = apply-Moves b (probes now)

  pub close-Moves : (now : ℕ) → Moves b.state b.changes (reset_closed b now).0
  unfolding apply
  close-Moves now = apply-Moves b (closes now)

  pub reopen-Moves : (now : ℕ) → Moves b.state b.changes (reopen_from_probe b now).0
  unfolding apply
  reopen-Moves now = apply-Moves b (reopens now)

Moves-IsPath :
    {s : BreakerState} {log : List Change} {b : Breaker}
    → Moves s log b
    → IsPath s log
    → IsPath b.state b.changes
Moves-IsPath {b = b} (stays e l) p = rw (e, l) p
Moves-IsPath {b = b} (goes e l) p = rw l (move e refl p)

run-IsPath :
    (b : Breaker) (cs : List Call)
    → IsPath b.state b.changes
    → IsPath (run b cs).state (run b cs).changes
unfolding run
run-IsPath b [] p = p
run-IsPath b (c ∷ cs) p = run-IsPath (apply b c) cs (Moves-IsPath (apply-Moves b c) p)

-- After any sequence of calls on a new breaker, the changes of state that it has reported to
-- `OnStateChange` follow the edges closed to open, open to half-open, half-open to closed or open,
-- and open to closed; each begins where the one before it ended, the first at closed; and the last
-- one ends in the state that the breaker is in.
pub run-new-IsPath :
    (threshold sleep sampling bucket max_inflight min_samples : ℕ) (dry_run : Bool)
    (retry_budget now : ℕ) (cs : List Call)
    → let b =
        run
          (new_breaker threshold sleep sampling bucket max_inflight min_samples dry_run retry_budget
            now)
          cs in
      IsPath b.state b.changes
unfolding new_breaker
run-new-IsPath th sl sa bu mi ms dr rb now cs = run-IsPath _ cs (start refl)
