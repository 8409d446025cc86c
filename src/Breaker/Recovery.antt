-- ===== src/Breaker/Recovery.antt =====
-- breaker/breaker.go and health/health.go: how a circuit recovers through its health check.
use go_guard_lib.Prelude.{
  ℕ, ◌+◌, ◌≤◌, ◌<◌, ◌≡◌, ◌≢◌, refl, ◌∙◌, Bool, true, false, if◌then◌else◌, ltb, List, [], ◌∷◌,
  length, map, arith, inl, inr, ◌⊎◌, Bool-cases, ltb→lt,
}
use go_guard_lib.Engine.{BreakerState, state_closed, state_open, state_half_open}
use go_guard_lib.Ibreaker
use go_guard_lib.Health
use go_guard_lib.Health.{Tick, Loop, probes, run_loop, start_loop, note, renew}
use go_guard_lib.Breaker.Permits.{notice-inner}
use go_guard_lib.Breaker.{Breaker, health_target, result, active}

-- Probes that pass, at these clock readings, with no other call on the breaker meanwhile.
abbrev pub healthy : List ℕ → List (Tick Breaker)
healthy = map λ now. probes (λ b. b) true (λ b. b) now

-- Where the circuit goes once enough probes have passed.
abbrev pub recovered : Bool → BreakerState
recovered true = state_closed
recovered false = state_half_open

state_cases : (s : BreakerState) → (s ≡ state_closed) ⊎ (s ≢ state_closed)
state_cases state_closed = inl refl
state_cases state_open = inr (λ e. cc)
state_cases state_half_open = inr (λ e. cc)

-- What the two ways of ending the open state do.
begins :
    (i : Ibreaker.Breaker) (now : ℕ)
    → i.state ≢ state_closed
    → (Ibreaker.begin_probe i now).0.state ≡ state_half_open
unfolding Ibreaker.begin_probe
begins i now h = ground arith

resets : (i : Ibreaker.Breaker) (now : ℕ) → (Ibreaker.reset_closed i now).0.state ≡ state_closed
unfolding Ibreaker.reset_closed
resets i now = ground arith

module _ (hc : Health.Config) where
  T : Health.Target Breaker
  T = health_target hc

  -- One healthy result on an open or half-open circuit.
  result_short : (b : Breaker) (n now : ℕ) → n < hc.success_threshold → result hc true n now b ≡ b
  unfolding result
  result_short b n now h = ground arith

  result_enough :
      (b : Breaker) (n now : ℕ)
      → b.inner.state ≢ state_closed
      → hc.success_threshold ≤ n
      → (result hc true n now b).inner.state ≡ recovered hc.trust_health
  unfolding result
  result_enough b n now st h = ground (
    arith,
    resets b.inner now,
    begins b.inner now st,
    notice-inner b (Ibreaker.reset_closed b.inner now).0 now,
    notice-inner b (Ibreaker.begin_probe b.inner now).0 now,
  )

  closed_inactive : (b : Breaker) → b.inner.state ≡ state_closed → active b ≡ false
  unfolding active
  closed_inactive b st = ground arith

  open_active : (b : Breaker) → b.inner.state ≢ state_closed → active b ≡ true
  unfolding active
  open_active b st = ground arith

  -- The circuit after one more healthy probe, once it has recovered.
  result_again :
      (b : Breaker) (n now : ℕ)
      → b.inner.state ≢ state_closed
      → b.inner.state ≡ recovered hc.trust_health
      → (result hc true n now b).inner.state ≡ recovered hc.trust_health
  result_again b n now ne st = elim (Bool-cases (ltb n hc.success_threshold)) [
    | inl short ↦ rw (result_short b n now (ltb→lt _ _ short)) st
    | inr enough ↦ result_enough b n now ne (ground arith)
  ]

  -- A recovered circuit stays as it is while probes pass.
  stays_recovered :
      (b : Breaker) (l : Loop) (nows : List ℕ)
      → b.inner.state ≡ recovered hc.trust_health
      → (run_loop T b l (healthy nows)).0.inner.state ≡ recovered hc.trust_health
  unfolding T run_loop
  stays_recovered b l [] st = st
  stays_recovered b l (now ∷ nows) st = elim (state_cases b.inner.state) [
    | inl e ↦ rw (closed_inactive b e) st
    | inr ne ↦
        let l' = note true (renew b.opens l) in
        rw (open_active b ne) (
          stays_recovered (result hc true l'.consecutive now b) l' nows
            (result_again b l'.consecutive now ne st))
  ]

  -- From an open circuit with `consecutive` healthy probes behind it.
  waits_open :
      (b : Breaker) (l : Loop) (nows : List ℕ)
      → b.inner.state ≡ state_open
      → l.gen ≡ b.opens
      → l.consecutive < hc.success_threshold
      → (run_loop T b l (healthy nows)).0.inner.state ≡ (
          if ltb (l.consecutive + length nows) hc.success_threshold
          then state_open
          else recovered hc.trust_health)
  unfolding T run_loop
  waits_open b l [] st g n = ground arith
  waits_open b l (now ∷ nows) st g n =
      let ne : b.inner.state ≢ state_closed = ground arith in
      let l' = note true l in
      let same : renew b.opens l ≡ l = ground arith in
      rw (open_active b ne, same)
        (elim (Bool-cases (ltb (l.consecutive + 1) hc.success_threshold)) [
          | inl short ↦
              rw (result_short b (l.consecutive + 1) now (ltb→lt _ _ short))
                (waits_open b l' nows st g (ltb→lt _ _ short) ∙ ground arith)
          | inr enough ↦
              stays_recovered (result hc true (l.consecutive + 1) now b) l' nows
                (result_enough b (l.consecutive + 1) now ne (ground arith))
              ∙ ground arith
        ])

-- When an open circuit is probed with no other call meanwhile and every probe passes, it stays open
-- for fewer probes than the success threshold, whatever their number, and from then on it is
-- closed if health is trusted, and half-open if it is not.
pub probes-recover :
    (hc : Health.Config) (b : Breaker) (nows : List ℕ)
    → b.inner.state ≡ state_open
    → 0 < hc.success_threshold
    → (run_loop (health_target hc) b (start_loop (health_target hc) b) (healthy nows)).0.inner.state
      ≡ (if ltb (length nows) hc.success_threshold then state_open else recovered hc.trust_health)
unfolding T start_loop
probes-recover hc b nows st h = waits_open hc b _ nows st refl h ∙ ground arith
