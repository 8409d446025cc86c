-- ===== src/Retry.antt =====
-- retry/retry.go. Delays are numbers of nanoseconds, 0 for one that is not positive. A budget's
-- tokens are counted in units of which `unit` make one token, in place of floating-point numbers.
-- What the operation, the caller's context and the random source do is an argument.
pub mod Backoff
pub mod Budget
pub mod Loop
mod Examples
use Prim.Native.String.{String}
use go_guard_lib.Prelude.{
  ℕ, zero, suc, ◌+◌, ◌-◌, ◌*◌, ◌/◌, ◌%◌, ◌^◌, Bool, true, false, ◌&&◌, ◌||◌, not, if◌then◌else◌,
  ltb, leb, ◌==◌, Option, none, some, List, [], ◌∷◌, ◌++◌,
}
use go_guard_lib.Errors.{Err, is_permanent, is_canceled, is_open, unwrap_permanent}

abbrev pub Delays : Type 0
Delays = ℕ → ℕ

unfoldable pub constant : ℕ → Delays
constant d attempt = d

-- The loop of `Exponential`, with the rounds left: it breaks at the cap, or before the doubling
-- could overflow.
pub double : ℕ → ℕ → ℕ → ℕ
double zero cap d = d
double (suc rounds) cap d =
    let rest = double rounds cap (d * 2) in
    if ltb 0 cap && leb cap d then d else (if ltb (2 ^ 62 / 2) d then d else rest)

unfoldable pub exponential : ℕ → ℕ → Delays
unfolding double
exponential base cap attempt =
    if attempt == 0 || base == 0
    then 0
    else let d = double (attempt - 1) cap base in (if ltb 0 cap && ltb cap d then cap else d)

-- `spread` is the share of the delay that is random, and `random n` is a number below `n`.
unfoldable pub jitter : (ℕ → ℕ) → (ℕ → ℕ) → Delays → Delays
jitter spread random b attempt =
    let d = b attempt in if d == 0 then d else d - spread d + random (spread d + 1)

-- The tokens are exact numbers here, of units that `unit` of make one token, and `ratio` a number of
-- them; the code's are floats, whose rounding is not followed.
pub record TokenBudget : Type 0 where
  pub tokens : ℕ
  pub cap : ℕ
  pub ratio : ℕ
  pub unit : ℕ

unfoldable pub new_budget : ℕ → ℕ → ℕ → TokenBudget
new_budget unit ratio burst =
    let n = (if burst == 0 then 1 else burst) in
    record { tokens = n * unit; cap = n * unit; ratio = ratio; unit = unit }

unfoldable pub add_tokens : TokenBudget → TokenBudget
add_tokens b = let t = b.tokens + b.ratio in record b { tokens = if ltb b.cap t then b.cap else t }

unfoldable pub take_token : TokenBudget → TokenBudget × Bool
take_token b =
    if ltb b.tokens b.unit then (b, false) else (record b { tokens = b.tokens - b.unit }, true)

-- A nil budget is `none`.
unfoldable pub deposit : Option TokenBudget → Option TokenBudget
unfolding add_tokens
deposit none = none
deposit (some b) = some (add_tokens b)

unfoldable pub try_withdraw : Option TokenBudget → Option TokenBudget × Bool
unfolding take_token
try_withdraw none = (none, true)
try_withdraw (some b) = let (b', granted) = take_token b in (some b', granted)

unfoldable pub default_retryable : Err → Bool
default_retryable e = not (is_permanent e || is_canceled e || is_open e)

pub record Policy : Type 0 where
  pub max_retries : ℕ
  pub backoff : Option Delays
  pub retryable : Err → Bool

-- What the operation returns at each attempt, and whether the context has ended by then, and
-- whether it ends during the wait that follows.
pub record World : Type 0 where
  pub fn : ℕ → Option Err
  pub ctx_ended : ℕ → Bool
  pub wait_ended : ℕ → Bool

-- `waits` are the delays that `OnRetry` was told of, in order.
pub record Done : Type 0 where
  pub error : Option Err
  pub calls : ℕ
  pub waits : List ℕ
  pub budget : Option TokenBudget

abbrev delay_of : Option Delays → ℕ → ℕ
delay_of none attempt = 0
delay_of (some b) attempt = b attempt

abbrev finish : Option Err → ℕ → List ℕ → Option TokenBudget → Done
finish e calls waits b = record { error = e; calls = calls; waits = waits; budget = b }

-- The loop of `Do` with the retries left, `MaxRetries - attempt`.
pub do_from : ℕ → Policy → World → ℕ → List ℕ → Option TokenBudget → Done
do_from zero p w attempt waits b = elim (w.fn attempt) [
  | none ↦ finish none (attempt + 1) waits b
  | some e ↦ finish (some (unwrap_permanent e)) (attempt + 1) waits b
]
do_from (suc left) p w attempt waits b =
    let delay = delay_of p.backoff (attempt + 1) in
    let (b', granted) = try_withdraw b in
    let rest = do_from left p w (attempt + 1) (waits ++ delay ∷ []) b' in
    elim (w.fn attempt) [
      | none ↦ finish none (attempt + 1) waits b
      | some e ↦
          if w.ctx_ended attempt || not (p.retryable e)
          then finish (some (unwrap_permanent e)) (attempt + 1) waits b
          else (if not granted
              then finish (some (unwrap_permanent e)) (attempt + 1) waits b'
              else (if ltb 0 delay && w.wait_ended attempt
                  then finish (some (unwrap_permanent e)) (attempt + 1) (waits ++ delay ∷ []) b'
                  else rest))
    ]

unfoldable pub do_retry : Policy → World → Option TokenBudget → Done
unfolding do_from deposit try_withdraw
do_retry p w b = do_from p.max_retries p w 0 [] (deposit b)
