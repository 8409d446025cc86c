-- ===== src/Engine/Examples.antt =====
-- internal/engine/engine.go: the theorems at a small window, and tests of the model.
use go_guard_lib.Prelude.{◌≡◌, refl, List, [], ◌∷◌, arith}
use go_guard_lib.Engine.{
  RollingWindow, new_rolling_window, clear, clear_next, rotate, success, failure, record_retry,
  failure_rate_bps,
}
use go_guard_lib.Engine.Totals.{
  IsExact, WindowCall, successes, failures, retries, apply_call, apply_calls, totals-IsExact,
}
use go_guard_lib.Engine.Rates.{rotate_forgets}

abbrev some_calls : List WindowCall
some_calls = successes 105 7 ∷ failures 130 ∷ failures 131 ∷ retries 145 ∷ []

abbrev a_window : RollingWindow
a_window = apply_calls (new_rolling_window 50 10 100) some_calls

-- Two failures of three calls.
rates_test : (failure_rate_bps a_window 149).1 ≡ 6666
unfolding apply_calls apply_call new_rolling_window failure_rate_bps success failure record_retry
    rotate clear clear_next
rates_test = refl

totals-IsExact_example : IsExact a_window
totals-IsExact_example = totals-IsExact 50 10 100 some_calls (omega arith)

rotate_forgets_example :
    let w = rotate a_window 1000 in
    (w.total_success ≡ 0) × (w.total_failure ≡ 0) × (w.total_latency ≡ 0) × (w.total_retries ≡ 0)
unfolding apply_calls apply_call new_rolling_window failure_rate_bps success failure record_retry
    rotate clear clear_next
rotate_forgets_example =
    rotate_forgets a_window 1000 (totals-IsExact 50 10 100 some_calls (omega arith)) (omega arith)
