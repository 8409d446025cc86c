-- ===== src/Ibreaker/Probe.antt =====
-- internal/breaker/breaker.go: one canary at a time.
use go_guard_lib.Prelude.{
  ℕ, ◌+◌, ◌≤◌, ◌<◌, ◌≡◌, ◌≢◌, Bool, true, false, ◌&&◌, if◌then◌else◌, leb, suc, refl, List, [], ◌∷◌,
  arith,
}
use go_guard_lib.Engine.{state_closed, state_half_open}
use go_guard_lib.Ibreaker.{Breaker, circuit_allows, begin_probe, abandon}

-- Requests that arrive one after the other, each with its seed and its clock reading, and nothing else:
-- how many of them the circuit lets through.
abbrev pub let_through : Breaker → List (ℕ × ℕ) → ℕ
let_through b [] = 0
let_through b ((seed, now) ∷ rest) =
    let (b', seed', allowed) = circuit_allows b seed now in
    let more = let_through b' rest in if allowed then suc more else more

-- All of them arrive up to a time.
abbrev pub all_by : ℕ → List (ℕ × ℕ) → Bool
all_by t [] = true
all_by t ((seed, now) ∷ rest) = leb now t && all_by t rest

-- A half-open circuit with a probe that is out.
abbrev IsProbed : Breaker → ℕ → Type 0
IsProbed b t =
    (b.state ≡ state_half_open)
    × (b.probing ≡ true)
    × (b.dry_run ≡ false)
    × (b.probe_at ≡ t)
    × (0 < t)

probed-circuit_allows :
    (b : Breaker) (t seed now : ℕ)
    → IsProbed b t
    → now ≤ t + b.sleep_window
    → circuit_allows b seed now ≡ (b, seed, false)
unfolding circuit_allows
probed-circuit_allows b t seed now is h = ground (arith, is, h)

probed-let_through :
    (b : Breaker) (t : ℕ) (later : List (ℕ × ℕ))
    → IsProbed b t
    → all_by (t + b.sleep_window) later ≡ true
    → let_through b later ≡ 0
probed-let_through b t [] is by = refl
probed-let_through b t ((seed, now) ∷ rest) is by =
    rw (probed-circuit_allows b t seed now is (ground (arith, by)))
      (probed-let_through b t rest is (ground (arith, by)))

admitted-IsProbed :
    (b : Breaker) (seed now : ℕ)
    → b.state ≢ state_closed
    → b.dry_run ≡ false
    → 0 < now
    → (circuit_allows b seed now).2 ≡ true
    → IsProbed (circuit_allows b seed now).0 now
      × ((circuit_allows b seed now).0.sleep_window ≡ b.sleep_window)
unfolding circuit_allows
admitted-IsProbed b seed now ne dry pos e = ground arith

-- When a circuit that is not closed, in a breaker that is not on a dry run, lets a request through at a
-- clock reading after 0, it is then half-open with that request as its probe. As long as only further
-- requests arrive, however many, it lets none of them through until more than a sleep window after
-- that reading. What happens to the probe is not considered: a result, an abandoned permit or a probe
-- of the health gate may free its slot before.
pub one_probe_per_window :
    (b : Breaker) (seed now : ℕ) (later : List (ℕ × ℕ))
    → b.state ≢ state_closed
    → b.dry_run ≡ false
    → 0 < now
    → (circuit_allows b seed now).2 ≡ true
    → all_by (now + b.sleep_window) later ≡ true
    → let b' = (circuit_allows b seed now).0 in
      (b'.state ≡ state_half_open)
      × (b'.probing ≡ true)
      × (b'.probe_at ≡ now)
      × (let_through b' later ≡ 0)
one_probe_per_window b seed now later ne dry pos e by =
    let is = admitted-IsProbed b seed now ne dry pos e in
    let by' : all_by (now + (circuit_allows b seed now).0.sleep_window) later ≡ true =
      (rw (is.1) by) in
    (is.0.0, is.0.1, is.0.3, probed-let_through (circuit_allows b seed now).0 now later is.0 by')

-- `BeginProbe` on a half-open circuit reports that it moved nothing, but it frees the probe slot: the
-- next call is let through at any clock reading, also while the first probe is still out.
pub begin_probe_frees :
    (b : Breaker) (seed now later : ℕ)
    → b.state ≡ state_half_open
    → let (b', moved) = begin_probe b now in
      (moved ≡ false) × (b'.state ≡ state_half_open) × ((circuit_allows b' seed later).2 ≡ true)
unfolding begin_probe circuit_allows
begin_probe_frees b seed now later st = ground arith

-- A probe that is abandoned frees the slot of a half-open circuit, and the next call takes it.
pub abandon_frees :
    (b : Breaker) (seed later : ℕ)
    → b.state ≡ state_half_open
    → let b' = abandon b in
      (b'.probing ≡ false)
      × ((circuit_allows b' seed later).2 ≡ true)
      × ((circuit_allows b' seed later).0.probing ≡ true)
unfolding abandon circuit_allows
abandon_frees b seed later st = ground arith
