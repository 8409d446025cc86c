-- ===== src/Ibreaker/Examples.antt =====
-- internal/breaker/breaker.go: the theorems at a small breaker, and tests of the model.
use go_guard_lib.Prelude.{
  ◌+◌, ◌*◌, ◌≤◌, ◌≡◌, ◌⊎◌, ◌↔◌, inr, refl, true, false, List, [], ◌∷◌, arith,
}
use go_guard_lib.Engine
use go_guard_lib.Engine.{state_closed, state_open, state_half_open}
use go_guard_lib.Ibreaker.{
  Breaker, new_breaker, Call, arrives, fails, apply, run, circuit_allows, refusing, begin_probe,
  record_failure, mark_failure, allow_ex, enter,
}
use go_guard_lib.Ibreaker.Random.{xorshift64}
use go_guard_lib.Ibreaker.Invariant.{IsSound, run-new-IsSound}
use go_guard_lib.Ibreaker.Moves.{IsPath, run-new-IsPath}
use go_guard_lib.Ibreaker.Probe.{let_through, one_probe_per_window, begin_probe_frees}
use go_guard_lib.Ibreaker.Refusal.{not_refusing-allows, refusing-turns_away}
use go_guard_lib.Ibreaker.Trip.{failure_trips}
use go_guard_lib.Ibreaker.Bulkhead.{
  Shared, calling, vip_calling, IsFair, run_schedule, run_schedule-IsFair,
}

-- It opens at half of the calls failed, with two calls at least, and sleeps for 100.
abbrev new_one : Breaker
new_one = new_breaker 5000 100 1000 100 4 2 false 0 1000

abbrev two_failures : List Call
two_failures = arrives 0 3 false 1001 ∷ fails 1002 ∷ arrives 0 5 false 1003 ∷ fails 1004 ∷ []

abbrev closed_one : Breaker
closed_one = record new_one { inflight = 1 }

-- Open since 1004, with a sound window.
abbrev open_one : Breaker
open_one = record new_one { state = state_open; last_failure = 1004 }

abbrev half_open_one : Breaker
half_open_one = record new_one { state = state_half_open; probing = true; probe_at = 1200 }

opens_test : (run new_one two_failures).state ≡ state_open
unfolding run apply new_breaker mark_failure allow_ex enter Engine.counts Engine.failure
    Engine.rotate Engine.new_rolling_window Engine.failure_rate_bps
opens_test = refl

run-new-IsSound_example : IsSound (run new_one two_failures)
run-new-IsSound_example =
    run-new-IsSound 5000 100 1000 100 4 2 false 0 1000 two_failures (omega arith)

run-new-IsPath_example : IsPath (run new_one two_failures).state (run new_one two_failures).changes
run-new-IsPath_example = run-new-IsPath 5000 100 1000 100 4 2 false 0 1000 two_failures

one_probe_per_window_example :
    let b = (circuit_allows open_one 9 1300).0 in
    (b.state ≡ state_half_open)
    × (b.probing ≡ true)
    × (b.probe_at ≡ 1300)
    × (let_through b ((4, 1390) ∷ (5, 1395) ∷ []) ≡ 0)
unfolding circuit_allows new_breaker xorshift64
one_probe_per_window_example =
    one_probe_per_window open_one 9 1300 ((4, 1390) ∷ (5, 1395) ∷ []) (λ e. cc) refl (omega arith)
      refl refl

begin_probe_frees_example :
    let (b, moved) = begin_probe half_open_one 1250 in
    (moved ≡ false) × (b.state ≡ state_half_open) × ((circuit_allows b 9 1251).2 ≡ true)
begin_probe_frees_example = begin_probe_frees half_open_one 9 1250 1251 refl

open_one-IsSound : IsSound open_one
unfolding new_breaker run
open_one-IsSound =
    let v = run-new-IsSound 5000 100 1000 100 4 2 false 0 1000 [] (omega arith) in
    record { window = v.window; probe = λ e. cc }

not_refusing-allows_example :
    ((circuit_allows open_one 9 1350).2 ≡ true)
    × ((open_one.dry_run ≡ true) ⊎ ((circuit_allows open_one 9 1350).0.state ≡ state_half_open))
unfolding refusing new_breaker
not_refusing-allows_example =
    not_refusing-allows open_one 9 1300 1350 open_one-IsSound refl refl refl (omega arith)

refusing-turns_away_example :
    (open_one.state ≡ state_open)
    × (open_one.dry_run ≡ false)
    × ((circuit_allows open_one 9 1050).2 ≡ false)
    × ((circuit_allows open_one 9 1050).0 ≡ open_one)
unfolding refusing new_breaker
refusing-turns_away_example = refusing-turns_away open_one 9 1050 refl refl (inr (omega arith))

failure_trips_example :
    let m = Engine.failure closed_one.metrics 1005 in
    let total = m.total_success + m.total_failure in
    (((record_failure closed_one 1005).state ≡ state_open) ↔ (
      (closed_one.min_samples ≤ total)
      × (closed_one.failure_threshold * total ≤ m.total_failure * 10000)))
    × (((record_failure closed_one 1005).state ≡ state_open)
        ⊎ ((record_failure closed_one 1005).state ≡ state_closed))
unfolding new_breaker Engine.new_rolling_window
failure_trips_example = failure_trips closed_one 1005 (omega arith) refl

abbrev three_callers : Shared
three_callers = record { limit = 1; inflight = 0; callers = calling ∷ calling ∷ vip_calling ∷ [] }

run_schedule-IsFair_example : IsFair (run_schedule three_callers (0 ∷ 1 ∷ 0 ∷ 1 ∷ 2 ∷ 1 ∷ []))
run_schedule-IsFair_example =
    run_schedule-IsFair three_callers (0 ∷ 1 ∷ 0 ∷ 1 ∷ 2 ∷ 1 ∷ [])
      (record { counted = refl; within = omega arith })
