-- ===== src/Ibreaker/Bulkhead.antt =====
-- internal/breaker/breaker.go: concurrent callers of `acquire`. Each atomic operation is a step of
-- its own: a caller loads the counter, compares it with the limit, and swaps it if it is still what
-- was loaded, else it begins again. A schedule names the caller that makes the next step.
use go_guard_lib.Prelude.{
  ℕ, zero, suc, ◌+◌, ◌-◌, ◌≤◌, ◌<◌, ◌≡◌, if◌then◌else◌, leb, ltb, ◌==◌, List, [], ◌∷◌, length,
  get_or, set, sum_by, arith, Bool-cases, inl, inr, ltb→lt,
}
use go_guard_lib.Ibreaker.{Breaker, try_acquire}

-- `vip_calling` bypasses the limit, as every caller does where there is none.
pub data Caller : Type 0 where
  calling vip_calling holding vip_holding refused finished : Caller
  loaded : ℕ → Caller

pub record Shared : Type 0 where
  pub limit : ℕ
  pub inflight : ℕ
  pub callers : List Caller

-- A caller's next atomic step, on the counter.
unfoldable pub caller_step : ℕ → ℕ → Caller → ℕ × Caller
caller_step limit n calling = (n, loaded n)
caller_step limit n (loaded cur) =
    if leb limit cur then (n, refused) else (if n == cur then (n + 1, holding) else (n, calling))
caller_step limit n vip_calling = (n + 1, vip_holding)
caller_step limit n holding = (n - 1, finished)
caller_step limit n vip_holding = (n - 1, finished)
caller_step limit n refused = (n, refused)
caller_step limit n finished = (n, finished)

-- A schedule may name a caller that is not there.
unfoldable pub step : Shared → ℕ → Shared
unfolding caller_step
step s i =
    let (n, c) = caller_step s.limit s.inflight (get_or s.callers i finished) in
    if ltb i (length s.callers) then record s { inflight = n; callers = set s.callers i c } else s

unfoldable pub run_schedule : Shared → List ℕ → Shared
unfolding step
run_schedule s [] = s
run_schedule s (i ∷ is) = run_schedule (step s i) is

abbrev pub holds : Caller → ℕ
holds holding = 1
holds _ = 0

abbrev pub vip_holds : Caller → ℕ
vip_holds vip_holding = 1
vip_holds _ = 0

-- The counter counts the callers that hold a slot, and those that are not VIPs are within the limit.
pub record IsFair (s : Shared) : Type 0 where
  pub counted : s.inflight ≡ sum_by holds s.callers + sum_by vip_holds s.callers
  pub within : sum_by holds s.callers ≤ s.limit

caller_step-IsFair :
    (limit n : ℕ) (c : Caller) (h v : ℕ)
    → n ≡ h + holds c + (v + vip_holds c)
    → h + holds c ≤ limit
    → let (n', c') = caller_step limit n c in
      (n' ≡ h + holds c' + (v + vip_holds c')) × (h + holds c' ≤ limit)
unfolding caller_step
caller_step-IsFair limit n calling h v e le = omega arith
caller_step-IsFair limit n vip_calling h v e le = omega arith
caller_step-IsFair limit n holding h v e le = omega arith
caller_step-IsFair limit n vip_holding h v e le = omega arith
caller_step-IsFair limit n refused h v e le = omega arith
caller_step-IsFair limit n finished h v e le = omega arith
caller_step-IsFair limit n (loaded cur) h v e le = ground arith

-- The parts of a sum at an index: what stands there, and the rest.
abbrev rest : (Caller → ℕ) → List Caller → ℕ → ℕ
rest f cs i = sum_by f cs - f (get_or cs i finished)

rest-set :
    (f : Caller → ℕ) (cs : List Caller) (i : ℕ) (c : Caller)
    → i < length cs
    → (sum_by f cs ≡ rest f cs i + f (get_or cs i finished))
      × (sum_by f (set cs i c) ≡ rest f cs i + f c)
rest-set f [] i c h = elim h [ ]
rest-set f (x ∷ cs) zero c h = omega arith
rest-set f (x ∷ cs) (suc i) c h = omega (arith, rest-set f cs i c)

step-IsFair : (s : Shared) (i : ℕ) → IsFair s → IsFair (step s i)
unfolding step
step-IsFair s i v = elim (Bool-cases (ltb i (length s.callers))) [
  | inr out ↦ rw (out, step) v
  | inl here ↦
      let c = get_or s.callers i finished in
      let c' = (caller_step s.limit s.inflight c).1 in
      let lt = ltb→lt i (length s.callers) here in
      let (h, h') = rest-set holds s.callers i c' lt in
      let (w, w') = rest-set vip_holds s.callers i c' lt in
      let (e, le) =
        caller_step-IsFair s.limit s.inflight c (rest holds s.callers i)
          (rest vip_holds s.callers i) (omega (arith, v.counted, h, w))
          (omega (arith, v.within, h)) in
      rw (here, step)
        (record { counted = omega (arith, e, h', w'); within = omega (arith, le, h') })
]

-- However many callers contend for the slots of a bulkhead, and in whatever order their atomic
-- operations interleave, the counter is the number of callers that hold a slot, and the callers
-- that hold one without being VIPs are never more than the limit.
pub run_schedule-IsFair : (s : Shared) (is : List ℕ) → IsFair s → IsFair (run_schedule s is)
unfolding run_schedule
run_schedule-IsFair s [] v = v
run_schedule-IsFair s (i ∷ is) v = run_schedule-IsFair (step s i) is (step-IsFair s i v)

-- A caller that nobody disturbs gets what `try_acquire` says, in two steps.
solo-try_acquire :
    (b : Breaker)
    → let s : Shared = record {
      limit = b.max_inflight;
      inflight = b.inflight;
      callers = calling ∷ [];
    } in
      let (b', got) = try_acquire b in
      run_schedule s (0 ∷ 0 ∷ []) ≡ record {
        limit = b.max_inflight;
        inflight = b'.inflight;
        callers = (if got then holding else refused) ∷ [];
      }
unfolding run_schedule try_acquire
solo-try_acquire b = ground arith
