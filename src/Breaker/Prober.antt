-- ===== src/Breaker/Prober.antt =====
-- breaker/breaker.go: a health-gated circuit that is not closed is always watched by a prober.
use go_guard_lib.Prelude.{
  ℕ, ◌≡◌, ◌≢◌, refl, ap, Bool, true, false, Option, none, some, List, [], ◌∷◌, length, get_or,
  arith, inl, inr, ◌⊎◌,
}
use go_guard_lib.Engine.{BreakerState, state_closed, state_open, state_half_open}
use go_guard_lib.Ibreaker
use go_guard_lib.Ibreaker.{
  Wait, context_done, Verdict, admitted, rejected_open, rejected_bulkhead, Override,
}
use go_guard_lib.Ibreaker.Moves.{
  Moves, stays, goes, Edge, trips, tries, recovers, relapses, trusts, arrive-Moves, wake-Moves,
  success-Moves, failure-Moves, abandon-Moves, probe-Moves, close-Moves, reopen-Moves,
}
use go_guard_lib.Health
use go_guard_lib.Breaker.{
  Breaker, Config, new, gate, notice, close, prober_exits, result, acquire, acquire_later, answer,
  settle, Outcome, success, failure, abandoned, set_override,
}
use go_guard_lib.Breaker.Permits.{
  Clients, Op, acquires, resumes, settles, reports, overrides, op_step, settle_at,
}

-- With a health check, and until `Close`, a circuit that is not closed has a prober.
pub record IsWatched (b : Breaker) : Type 0 where
  pub watched :
      b.hc ≢ none → b.closed ≡ false → b.inner.state ≢ state_closed → b.prober_running ≡ true

Edge-cases :
    {s t : BreakerState}
    → Edge s t
    → (t ≡ state_open) ⊎ ((t ≡ state_closed) ⊎ ((t ≡ state_half_open) × (s ≡ state_open)))
Edge-cases trips = inl refl
Edge-cases tries = inr (inr (refl, refl))
Edge-cases recovers = inr (inl refl)
Edge-cases relapses = inl refl
Edge-cases trusts = inr (inl refl)

notice-IsWatched :
    (b : Breaker) (i : Ibreaker.Breaker) (now : ℕ)
    → Moves b.inner.state b.inner.changes i
    → IsWatched b
    → IsWatched (notice b i now)
unfolding notice
notice-IsWatched b i now (stays e l) v = ground (arith, v.watched, ap length l)
notice-IsWatched b i now (goes edge l) v = ground (arith, v.watched, ap length l, Edge-cases edge)

answer-IsWatched : (v : Verdict) (b : Breaker) → IsWatched b → IsWatched (answer v b).0
unfolding answer
answer-IsWatched admitted b v = v
answer-IsWatched rejected_open b v = record { watched = v.watched }
answer-IsWatched rejected_bulkhead b v = record { watched = v.watched }

reseed-IsWatched : (b : Breaker) (s : ℕ) → IsWatched b → IsWatched (record b { seed = s })
reseed-IsWatched b s v = record { watched = v.watched }

module _ (b : Breaker) (v : IsWatched b) where
  acquire-IsWatched : (vip : Bool) (now : ℕ) → IsWatched (acquire b context_done vip now).0
  unfolding acquire
  acquire-IsWatched vip now = answer-IsWatched _ _ (
      reseed-IsWatched _ _
        (notice-IsWatched b _ now (arrive-Moves b.inner b.cfg.wait_timeout b.seed vip now) v))

  later-IsWatched : (now : ℕ) → IsWatched (acquire_later b now).0
  unfolding acquire_later
  later-IsWatched now =
      answer-IsWatched _ _
        (reseed-IsWatched _ _ (notice-IsWatched b _ now (wake-Moves b.inner b.seed now) v))

  settle-IsWatched : (done : Bool) (o : Outcome) (now : ℕ) → IsWatched (settle b done o now).0
  unfolding settle
  settle-IsWatched true o now = v
  settle-IsWatched false (success l) now = notice-IsWatched b _ now (success-Moves b.inner now l) v
  settle-IsWatched false failure now = notice-IsWatched b _ now (failure-Moves b.inner now) v
  settle-IsWatched false abandoned now = notice-IsWatched b _ now (abandon-Moves b.inner) v

  result-IsWatched :
      (hc : Health.Config) (healthy : Bool) (n now : ℕ) → IsWatched (result hc healthy n now b)
  unfolding result
  result-IsWatched hc healthy n now = ground (
    arith,
    v,
    notice-IsWatched b _ now (reopen-Moves b.inner now) v,
    notice-IsWatched b _ now (close-Moves b.inner now) v,
    notice-IsWatched b _ now (probe-Moves b.inner now) v,
  )

  exits-IsWatched : IsWatched (prober_exits b)
  unfolding prober_exits
  exits-IsWatched = ground (arith, v.watched)

-- What can happen to a breaker and its clients: a client's call, `Close`, the end of a prober's run.
pub data Event : Type 0 where
  does : Op → Event
  closes exits : Event

unfoldable pub event_step : Clients → Event → Clients
event_step s (does o) = op_step s o
event_step s closes = record s { breaker = close s.breaker }
event_step s exits = record s { breaker = prober_exits s.breaker }

unfoldable pub event_run : Clients → List Event → Clients
event_run s [] = s
event_run s (e ∷ es) = event_run (event_step s e) es

op-IsWatched : (s : Clients) (o : Op) → IsWatched s.breaker → IsWatched (op_step s o).breaker
unfolding op_step settle_at set_override Ibreaker.set_override
op-IsWatched s (acquires vip now) v = acquire-IsWatched s.breaker v vip now
op-IsWatched s (resumes now) v = later-IsWatched s.breaker v now
op-IsWatched s (settles i o now) v =
    ground (arith, v, settle-IsWatched s.breaker v (get_or s.done_flags i true) o now)
op-IsWatched s (reports hc healthy n now) v = result-IsWatched s.breaker v hc healthy n now
op-IsWatched s (overrides o) v = record { watched = v.watched }

event-IsWatched :
    (s : Clients) (e : Event) → IsWatched s.breaker → IsWatched (event_step s e).breaker
unfolding event_step close
event-IsWatched s (does o) v = op-IsWatched s o v
event-IsWatched s closes v = record { watched = λ h c. cc }
event-IsWatched s exits v = exits-IsWatched s.breaker v

event_run-IsWatched :
    (s : Clients) (es : List Event) → IsWatched s.breaker → IsWatched (event_run s es).breaker
unfolding event_run
event_run-IsWatched s [] v = v
event_run-IsWatched s (e ∷ es) v = event_run-IsWatched (event_step s e) es (event-IsWatched s e v)

gate-state : (hc : Option Health.Config) (b : Ibreaker.Breaker) → (gate hc b).state ≡ b.state
unfolding Ibreaker.set_health_gate
gate-state none b = refl
gate-state (some hc) b = refl

new-state : (c : Config) (seed now : ℕ) → (new c seed now).inner.state ≡ state_closed
unfolding new Ibreaker.new_breaker
new-state c seed now = gate-state _ _

new-IsWatched : (c : Config) (seed now : ℕ) → IsWatched (new c seed now)
new-IsWatched c seed now = record { watched = λ h k ne. absurd (ne (new-state c seed now)) }

-- After any events on a new breaker, if it has a health check and is not closed down, then whenever
-- its circuit is open or half-open its prober is running, although a prober that ends may have
-- looked at the circuit before it opened again.
pub new-event_run-IsWatched :
    (c : Config) (seed now : ℕ) (es : List Event)
    → IsWatched (event_run (record { breaker = new c seed now; done_flags = [] }) es).breaker
new-event_run-IsWatched c seed now es = event_run-IsWatched _ es (new-IsWatched c seed now)
