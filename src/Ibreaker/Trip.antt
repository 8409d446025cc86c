-- ===== src/Ibreaker/Trip.antt =====
-- internal/breaker/breaker.go: when a failure opens a closed circuit.
use native.Mathlib.Nat.{le-div_iff_mul-le}
use go_guard_lib.Prelude.{ℕ, ◌+◌, ◌*◌, ◌≤◌, ◌<◌, ◌≡◌, ◌↔◌, refl, arith, ◌⊎◌}
use go_guard_lib.Engine.{
  BreakerState, RollingWindow, state_closed, state_open, state_half_open, share_bps,
}
use go_guard_lib.Engine
use go_guard_lib.Engine.Rates.{rotate_in_phase, rotate-duration, rotate_idle}
use go_guard_lib.Ibreaker.{Breaker, record_failure}

module _ (w : RollingWindow) (now : ℕ) (ticking : 0 < w.bucket_duration) where
  failed : RollingWindow
  failed = Engine.failure w now

  failed_idle : Engine.rotate failed now ≡ failed
  unfolding failed Engine.failure
  failed_idle =
      rotate_idle _ now (omega (arith, rotate_in_phase w now ticking, rotate-duration w now))

  failed_counts : Engine.counts failed now ≡ (failed, failed.total_success, failed.total_failure)
  unfolding Engine.counts
  failed_counts = ground (arith, failed_idle)

  failed_rate :
      Engine.failure_rate_bps failed now
      ≡ (failed, share_bps failed.total_failure (failed.total_success + failed.total_failure))
  unfolding Engine.failure_rate_bps
  failed_rate = rw failed_idle refl

  failed_pos : 0 < failed.total_failure
  unfolding failed Engine.failure
  failed_pos = omega arith

share_iff : (k f t : ℕ) → 0 < t → (k ≤ share_bps f t) ↔ (k * t ≤ f * 10000)
share_iff k f t h = ground (arith, le-div_iff_mul-le {k = t} {x = k} {y = f * 10000} h)

-- A failure on a closed circuit of a breaker with a positive bucket duration leaves it open exactly
-- when, with the failure counted, the window holds at least `min_samples` calls and the failed ones
-- among them are at least the threshold's share (in basis points, without rounding); otherwise it
-- stays closed.
pub failure_trips :
    (b : Breaker) (now : ℕ)
    → 0 < b.metrics.bucket_duration
    → b.state ≡ state_closed
    → let m = Engine.failure b.metrics now in
      let total = m.total_success + m.total_failure in
      (((record_failure b now).state ≡ state_open)
        ↔ ((b.min_samples ≤ total) × (b.failure_threshold * total ≤ m.total_failure * 10000)))
      × (((record_failure b now).state ≡ state_open)
          ⊎ ((record_failure b now).state ≡ state_closed))
unfolding record_failure failed
failure_trips b now tick st =
    let m = Engine.failure b.metrics now in
    let total = m.total_success + m.total_failure in
    rw (failed_counts b.metrics now tick, failed_rate b.metrics now tick)
      (ground
        (arith, failed_pos b.metrics now tick, share_iff b.failure_threshold m.total_failure total))
