-- ===== src/Ibreaker/Slots.antt =====
-- internal/breaker/breaker.go: what each call does to the in-flight count.
use go_guard_lib.Prelude.{ℕ, ◌+◌, ◌<◌, ◌≡◌, Bool, pred, arith}
use go_guard_lib.Ibreaker.{
  Breaker, context_done, Verdict, admitted, enter, circuit_allows, allow_ex, wake, mark_success,
  mark_failure, abandon, trip, begin_probe, reset_closed, reopen_from_probe,
}

abbrev pub slots : Verdict → ℕ
slots admitted = 1
slots _ = 0

module _ (b : Breaker) where
  enter-inflight :
      (seed now : ℕ)
      → 0 < b.inflight
      → let (b', seed', v) = enter b seed now in b'.inflight + 1 ≡ b.inflight + slots v
  unfolding enter circuit_allows
  enter-inflight seed now h = ground arith

module _ (b : Breaker) where
  pub allow-inflight :
      (t seed : ℕ) (vip : Bool) (now : ℕ)
      → let (b', seed', v) = allow_ex b t context_done seed vip now in
        b'.inflight ≡ b.inflight + slots v
  unfolding allow_ex
  allow-inflight t seed vip now =
      ground (arith, enter-inflight (record b { inflight = b.inflight + 1 }) seed now)

  pub wake-inflight :
      (seed now : ℕ) → let (b', seed', v) = wake b seed now in b'.inflight ≡ b.inflight + slots v
  unfolding wake
  wake-inflight seed now =
      ground (arith, enter-inflight (record b { inflight = b.inflight + 1 }) seed now)

  pub success-inflight : (now l : ℕ) → (mark_success b now l).inflight ≡ pred b.inflight
  unfolding mark_success
  success-inflight now l = ground arith

  pub failure-inflight : (now : ℕ) → (mark_failure b now).inflight ≡ pred b.inflight
  unfolding mark_failure trip
  failure-inflight now = ground arith

  pub abandon-inflight : (abandon b).inflight ≡ pred b.inflight
  unfolding abandon
  abandon-inflight = ground arith

  pub probe-inflight :
      (now : ℕ)
      → ((begin_probe b now).0.inflight ≡ b.inflight)
        × ((reset_closed b now).0.inflight ≡ b.inflight)
        × ((reopen_from_probe b now).0.inflight ≡ b.inflight)
  unfolding begin_probe reset_closed reopen_from_probe
  probe-inflight now = ground arith
