-- ===== src/Breaker/Permits.antt =====
-- breaker/breaker.go: permits and the in-flight count.
use go_guard_lib.Prelude.{
  ℕ, ◌+◌, ◌≤◌, ◌≡◌, refl, ap, ◌∙◌, Bool, true, false, if◌then◌else◌, ltb, pred, List, [], ◌∷◌,
  length, get_or, set, sum_by, sum_by-set, sum_by-append, ◌++◌, arith, Bool-cases, ltb→lt, inl, inr,
}
use go_guard_lib.Errors.{Err}
use go_guard_lib.Ibreaker
use go_guard_lib.Ibreaker.{
  Wait, context_done, Verdict, admitted, rejected_open, rejected_bulkhead, Override,
}
use go_guard_lib.Ibreaker.Slots.{
  slots, allow-inflight, wake-inflight, success-inflight, failure-inflight, abandon-inflight,
  probe-inflight,
}
use go_guard_lib.Breaker.{
  Breaker, notice, acquire, acquire_later, answer, Acquired, permit, refused, settle, Outcome,
  success, failure, abandoned, record_outcome, set_override, result, FnEnd, do_call, outcome_of,
}
use go_guard_lib.Health

abbrev permits : Acquired → ℕ
permits permit = 1
permits (refused e) = 0

pub notice-inner : (b : Breaker) (i : Ibreaker.Breaker) (now : ℕ) → (notice b i now).inner ≡ i
unfolding notice
notice-inner b i now = ground arith

answer-inner :
    (v : Verdict) (b : Breaker)
    → ((answer v b).0.inner ≡ b.inner) × (permits (answer v b).1 ≡ slots v)
unfolding answer
answer-inner admitted b = (refl, refl)
answer-inner rejected_open b = (refl, refl)
answer-inner rejected_bulkhead b = (refl, refl)

outcome-inflight :
    (o : Outcome) (b : Ibreaker.Breaker) (now : ℕ)
    → (record_outcome o b now).inflight ≡ pred b.inflight
unfolding record_outcome
outcome-inflight (success l) b now = success-inflight b now l
outcome-inflight failure b now = failure-inflight b now
outcome-inflight abandoned b now = abandon-inflight b

module _ (b : Breaker) where
  acquire-inflight :
      (vip : Bool) (now : ℕ)
      → let (b', got) = acquire b context_done vip now in
        b'.inner.inflight ≡ b.inner.inflight + permits got
  unfolding acquire
  acquire-inflight vip now =
      let r = Ibreaker.allow_ex b.inner b.cfg.wait_timeout context_done b.seed vip now in
      let b' = record (notice b r.0 now) { seed = r.1 } in
      let (e, p) = answer-inner r.2 b' in
      omega (
        arith,
        allow-inflight b.inner b.cfg.wait_timeout b.seed vip now,
        ap (λ (i : Ibreaker.Breaker). i.inflight) (e ∙ notice-inner b r.0 now),
        p,
      )

  later-inflight :
      (now : ℕ)
      → let (b', got) = acquire_later b now in b'.inner.inflight ≡ b.inner.inflight + permits got
  unfolding acquire_later
  later-inflight now =
      let r = Ibreaker.wake b.inner b.seed now in
      let b' = record (notice b r.0 now) { seed = r.1 } in
      let (e, p) = answer-inner r.2 b' in
      omega (
        arith,
        wake-inflight b.inner b.seed now,
        ap (λ (i : Ibreaker.Breaker). i.inflight) (e ∙ notice-inner b r.0 now),
        p,
      )

  settle-inflight :
      (o : Outcome) (now : ℕ) → (settle b false o now).0.inner.inflight ≡ pred b.inner.inflight
  unfolding settle
  settle-inflight o now =
      ap (λ (i : Ibreaker.Breaker). i.inflight) (notice-inner b (record_outcome o b.inner now) now)
      ∙ outcome-inflight o b.inner now

  result-inflight :
      (hc : Health.Config) (healthy : Bool) (n now : ℕ)
      → (result hc healthy n now b).inner.inflight ≡ b.inner.inflight
  unfolding result
  result-inflight hc healthy n now = ground (arith, probe-inflight b.inner now)

-- A breaker with the permits that it gave out, oldest first, each with its flag `done`.
pub record Clients : Type 0 where
  pub breaker : Breaker
  pub done_flags : List Bool

pub data Op : Type 0 where
  acquires : (vip : Bool) → (now : ℕ) → Op
  resumes : (now : ℕ) → Op
  settles : (index : ℕ) → Outcome → (now : ℕ) → Op
  reports : Health.Config → (healthy : Bool) → (consecutive now : ℕ) → Op
  overrides : Override → Op

abbrev enroll : List Bool → Acquired → List Bool
enroll flags permit = flags ++ false ∷ []
enroll flags (refused e) = flags

unfoldable pub settle_at : Clients → ℕ → Outcome → ℕ → Clients
settle_at s i o now =
    let (b, done) = settle s.breaker (get_or s.done_flags i true) o now in
    if ltb i (length s.done_flags)
    then record { breaker = b; done_flags = set s.done_flags i done }
    else s

unfoldable pub op_step : Clients → Op → Clients
unfolding settle_at
op_step s (acquires vip now) =
    let (b, got) = acquire s.breaker context_done vip now in
    record { breaker = b; done_flags = enroll s.done_flags got }
op_step s (resumes now) =
    let (b, got) = acquire_later s.breaker now in
    record { breaker = b; done_flags = enroll s.done_flags got }
op_step s (settles i o now) = settle_at s i o now
op_step s (reports hc healthy n now) = record s { breaker = result hc healthy n now s.breaker }
op_step s (overrides o) = record s { breaker = set_override s.breaker o }

unfoldable pub op_run : Clients → List Op → Clients
op_run s [] = s
op_run s (o ∷ os) = op_run (op_step s o) os

abbrev pub unfinished : Bool → ℕ
unfinished true = 0
unfinished false = 1

abbrev pub IsAccounted : Clients → Type 0
IsAccounted s = s.breaker.inner.inflight ≡ sum_by unfinished s.done_flags

enroll-sum :
    (flags : List Bool) (got : Acquired)
    → sum_by unfinished (enroll flags got) ≡ sum_by unfinished flags + permits got
enroll-sum flags permit = sum_by-append unfinished flags (false ∷ [])
enroll-sum flags (refused e) = omega arith

settle-done : (b : Breaker) (d : Bool) (o : Outcome) (now : ℕ) → (settle b d o now).1 ≡ true
unfolding settle
settle-done b true o now = refl
settle-done b false o now = refl

-- A permit that is not settled yet holds one slot.
settle-frees :
    (b : Breaker) (d : Bool) (o : Outcome) (now : ℕ)
    → unfinished d ≤ b.inner.inflight
    → (settle b d o now).0.inner.inflight + unfinished d ≡ b.inner.inflight
settle-frees b true o now h = unfold settle in omega arith
settle-frees b false o now h = omega (arith, settle-inflight b o now)

settle_at-IsAccounted :
    (s : Clients) (i : ℕ) (o : Outcome) (now : ℕ)
    → IsAccounted s
    → IsAccounted (settle_at s i o now)
unfolding settle_at
settle_at-IsAccounted s i o now v = elim (Bool-cases (ltb i (length s.done_flags))) [
  | inr out ↦ rw (out, settle_at) v
  | inl here ↦
      let d = get_or s.done_flags i true in
      let moved =
        sum_by-set unfinished s.done_flags i true true (ltb→lt i (length s.done_flags) here) in
      rw (here, settle_at, settle-done s.breaker d o now)
        (omega (arith, moved, settle-frees s.breaker d o now (omega (arith, moved, v))))
]

op_step-IsAccounted : (s : Clients) (o : Op) → IsAccounted s → IsAccounted (op_step s o)
unfolding op_step set_override Ibreaker.set_override
op_step-IsAccounted s (acquires vip now) v = omega (
  arith,
  acquire-inflight s.breaker vip now,
  enroll-sum s.done_flags (acquire s.breaker context_done vip now).1,
)
op_step-IsAccounted s (resumes now) v =
    omega
      (arith, later-inflight s.breaker now, enroll-sum s.done_flags (acquire_later s.breaker now).1)
op_step-IsAccounted s (settles i o now) v = settle_at-IsAccounted s i o now v
op_step-IsAccounted s (reports hc healthy n now) v = result-inflight s.breaker hc healthy n now ∙ v
op_step-IsAccounted s (overrides o) v = v

-- Whatever calls acquire, wait and settle permits, in whatever order, and however often a permit is
-- settled, the in-flight count stays the number of permits given out and not yet settled, also
-- while the health check reports and the override changes: no slot leaks or is freed twice.
pub op_run-IsAccounted : (s : Clients) (os : List Op) → IsAccounted s → IsAccounted (op_run s os)
unfolding op_run
op_run-IsAccounted s [] v = v
op_run-IsAccounted s (o ∷ os) v = op_run-IsAccounted (op_step s o) os (op_step-IsAccounted s o v)

-- A guarded call leaves the in-flight count as it found it, whether it is rejected, its function
-- succeeds, fails or panics, or its caller cancels it, if the function itself leaves it alone.
pub do_call-inflight :
    (is_failure : Err → Bool) (b : Breaker) (during : Breaker → Breaker) (fn : FnEnd)
    (ctx_ended : Bool) (latency_us now later : ℕ)
    → ((c : Breaker) → (during c).inner.inflight ≡ c.inner.inflight)
    → (do_call is_failure b context_done during fn ctx_ended latency_us now later).0.inner.inflight
      ≡ b.inner.inflight
unfolding do_call
do_call-inflight is_failure b during fn ctx l now later h =
    go (acquire b context_done false now).1 refl
  where
    b' : Breaker
    b' = (acquire b context_done false now).0

    go :
        (got : Acquired)
        → (acquire b context_done false now).1 ≡ got
        → (do_call is_failure b context_done during fn ctx l now later).0.inner.inflight
          ≡ b.inner.inflight
    go permit e =
        rw (e, do_call)
          (omega (
            arith,
            settle-inflight (during b') (outcome_of is_failure ctx l fn) later,
            h b',
            acquire-inflight b false now,
            ap permits e,
          ))
    go (refused x) e = rw (e, do_call) (omega (arith, acquire-inflight b false now, ap permits e))
