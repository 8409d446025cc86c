-- ===== src/Health.antt =====
-- health/health.go: the configuration's defaults, the pause between probes, and the probing loop.
-- What is probed is an interface, `Target`, over its own state. A tick of the loop says what
-- happened to the target by the end of the pause, and how the check went.
use go_guard_lib.Prelude.{
  ℕ, ◌+◌, ◌*◌, Bool, true, false, ◌||◌, not, if◌then◌else◌, ltb, ◌==◌, max, List, [], ◌∷◌,
}
use go_guard_lib.Retry
use go_guard_lib.Retry.{Delays}

-- Durations in nanoseconds. The jitter fraction is left to the random source (see `delay`), and a
-- negative `MaxOpen`, which disables the valve, is `max_open_off`.
pub record Config : Type 0 where
  pub interval : ℕ
  pub max_interval : ℕ
  pub timeout : ℕ
  pub success_threshold : ℕ
  pub max_open : ℕ
  pub max_open_off : Bool
  pub trust_health : Bool

abbrev pub second : ℕ
second = 1000000000

unfoldable pub with_defaults : Config → Config
with_defaults c =
    let interval = (if c.interval == 0 then 5 * second else c.interval) in
    let max_interval = (if c.max_interval == 0 then 60 * second else c.max_interval) in
    record c {
      interval = interval;
      max_interval = if ltb max_interval interval then interval else max_interval;
      timeout = if c.timeout == 0 then 3 * second else c.timeout;
      success_threshold = if c.success_threshold == 0 then 2 else c.success_threshold;
      max_open =
          if not c.max_open_off
          then (if c.max_open == 0 then 300 * second else c.max_open)
          else c.max_open;
    }

-- A steady interval while probes pass, an exponential backoff while they fail.
unfoldable pub delay : (ℕ → ℕ) → (ℕ → ℕ) → Config → Bool → ℕ → ℕ
delay spread random cfg last_ok failures =
    let b : Delays =
      if last_ok || failures == 0
      then Retry.constant cfg.interval
      else Retry.exponential cfg.interval cfg.max_interval in
    Retry.jitter spread random b (max failures 1)

-- `Target`: whether probing is still needed, a number that changes each time it fails again, and
-- what it does with the outcome of a probe and the current run of healthy ones, at a clock reading.
pub record Target (S : Type 0) : Type 0 where
  pub active : S → Bool
  pub generation : S → ℕ
  pub result : Bool → ℕ → ℕ → S → S

-- The loop's variables.
pub record Loop : Type 0 where
  pub consecutive : ℕ
  pub failures : ℕ
  pub gen : ℕ
  pub last_ok : Bool

pub data Tick (S : Type 0) : Type 0 where
  -- The context ends during the pause, or during the check.
  ends_in_pause : Tick S
  ends_in_check : (before during : S → S) → Tick S
  probes : (before : S → S) → (ok : Bool) → (during : S → S) → (now : ℕ) → Tick S

unfoldable pub start_loop : {S : Type 0} → Target S → S → Loop
start_loop t s = record { consecutive = 0; failures = 0; gen = t.generation s; last_ok = false }

-- The target failed again: counting starts afresh.
abbrev pub renew : ℕ → Loop → Loop
renew g l = if g == l.gen then l else record l { gen = g; consecutive = 0; failures = 0 }

abbrev pub note : Bool → Loop → Loop
note true l = record l { consecutive = l.consecutive + 1; failures = 0; last_ok = true }
note false l = record l { consecutive = 0; failures = l.failures + 1; last_ok = false }

module _ {S : Type 0} (t : Target S) where
  -- One round on a target that is still active after the pause.
  unfoldable pub round : S → Loop → Bool → (S → S) → ℕ → S × Loop
  round s l ok during now =
      let l' = note ok (renew (t.generation s) l) in (t.result ok l'.consecutive now (during s), l')

  -- The target and the loop's variables when the loop returns or the ticks are used up.
  unfoldable pub run_loop : S → Loop → List (Tick S) → S × Loop
  unfolding round
  run_loop s l [] = (s, l)
  run_loop s l (ends_in_pause ∷ ts) = (s, l)
  run_loop s l (ends_in_check before during ∷ ts) =
      if t.active (before s)
      then (during (before s), renew (t.generation (before s)) l)
      else (before s, l)
  run_loop s l (probes before ok during now ∷ ts) =
      let (s', l') = round (before s) l ok during now in
      let rest = run_loop s' l' ts in if t.active (before s) then rest else (before s, l)
