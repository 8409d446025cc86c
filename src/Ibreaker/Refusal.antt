-- ===== src/Ibreaker/Refusal.antt =====
-- internal/breaker/breaker.go: what `Refusing` promises about the next call.
use go_guard_lib.Prelude.{ℕ, ◌+◌, ◌/◌, ◌≤◌, ◌≡◌, true, false, arith, ◌⊎◌}
use go_guard_lib.Engine.{state_open, state_half_open}
use go_guard_lib.Ibreaker.{Breaker, no_override, draw_jitter, gated, circuit_allows, refusing}
use go_guard_lib.Ibreaker.Invariant.{IsSound}

jitter-le : (sleep seed now : ℕ) → (draw_jitter sleep seed now).1 ≤ sleep / 10
jitter-le sleep seed now = grind arith

-- For a breaker with no override whose invariant holds and whose circuit is open: once `Refusing`
-- is false, a call at that clock reading or any later one is let through, whatever the seed, and
-- it finds the circuit half-open; on a dry run it is let through too.
pub not_refusing-allows :
    (b : Breaker) (seed now later : ℕ)
    → IsSound b
    → b.override ≡ no_override
    → b.state ≡ state_open
    → refusing b now ≡ false
    → now ≤ later
    → ((circuit_allows b seed later).2 ≡ true)
      × ((b.dry_run ≡ true) ⊎ ((circuit_allows b seed later).0.state ≡ state_half_open))
unfolding refusing circuit_allows
not_refusing-allows b seed now later v o st e h =
    ground (arith, jitter-le b.sleep_window seed later)

-- For a breaker with no override: if `Refusing` is true and a health check owns the way out or the
-- clock has not passed the sleep window, then the circuit is open, the breaker is not on a dry run,
-- and a call is turned away and changes nothing.
pub refusing-turns_away :
    (b : Breaker) (seed now : ℕ)
    → b.override ≡ no_override
    → refusing b now ≡ true
    → (gated b now ≡ true) ⊎ (now ≤ b.last_failure + b.sleep_window)
    → (b.state ≡ state_open)
      × (b.dry_run ≡ false)
      × ((circuit_allows b seed now).2 ≡ false)
      × ((circuit_allows b seed now).0 ≡ b)
unfolding refusing circuit_allows
refusing-turns_away b seed now o e h = ground arith
