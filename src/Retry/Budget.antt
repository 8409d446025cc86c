-- ===== src/Retry/Budget.antt =====
-- retry/retry.go: how many retries a budget can grant.
use go_guard_lib.Prelude.{
  ℕ, suc, ◌+◌, ◌*◌, ◌≤◌, ◌≡◌, Bool, true, false, arith, if◌then◌else◌, List, [], ◌∷◌,
}
use go_guard_lib.Retry.{TokenBudget, add_tokens, take_token}

pub data BudgetCall : Type 0 where
  deposits withdraws : BudgetCall

-- The budget after the calls.
unfoldable pub spend : TokenBudget → List BudgetCall → TokenBudget
spend b [] = b
spend b (deposits ∷ cs) = spend (add_tokens b) cs
spend b (withdraws ∷ cs) = spend (take_token b).0 cs

-- How many of the withdrawals are granted.
unfoldable pub granted : TokenBudget → List BudgetCall → ℕ
granted b [] = 0
granted b (deposits ∷ cs) = granted (add_tokens b) cs
granted b (withdraws ∷ cs) =
    let n = granted (take_token b).0 cs in if (take_token b).1 then n + 1 else n

abbrev pub deposits_in : List BudgetCall → ℕ
deposits_in [] = 0
deposits_in (deposits ∷ cs) = suc (deposits_in cs)
deposits_in (withdraws ∷ cs) = deposits_in cs

add_tokens_lem :
    (b : TokenBudget)
    → b.tokens ≤ b.cap
    → ((add_tokens b).tokens ≤ (add_tokens b).cap)
      × ((add_tokens b).tokens ≤ b.tokens + b.ratio)
      × ((add_tokens b).cap ≡ b.cap)
      × ((add_tokens b).ratio ≡ b.ratio)
      × ((add_tokens b).unit ≡ b.unit)
unfolding add_tokens
add_tokens_lem b h = ground arith

take_token_lem :
    (b : TokenBudget)
    → let (b', ok) = take_token b in
      (b'.tokens + (if ok then b.unit else 0) ≡ b.tokens)
      × (b'.cap ≡ b.cap)
      × (b'.ratio ≡ b.ratio)
      × (b'.unit ≡ b.unit)
unfolding take_token
take_token_lem b = ground arith

times_if : (c : Bool) (n u : ℕ) → (if c then n + 1 else n) * u ≡ n * u + (if c then u else 0)
times_if true n u = omega arith
times_if false n u = omega arith

-- Over any sequence of deposits and withdrawals on a budget that holds at most its cap: it never
-- holds more than the cap, and what is left and what the granted withdrawals took is at most what
-- it held at first and what the deposits brought. This is of exact numbers: the code's floats round.
pub spend_bounded :
    (b : TokenBudget) (cs : List BudgetCall)
    → b.tokens ≤ b.cap
    → ((spend b cs).tokens ≤ b.cap)
      × ((spend b cs).tokens + granted b cs * b.unit ≤ b.tokens + deposits_in cs * b.ratio)
unfolding spend granted
spend_bounded b [] h = omega arith
spend_bounded b (deposits ∷ cs) h =
    ground (arith, add_tokens_lem b h, spend_bounded (add_tokens b) cs (add_tokens_lem b h).0)
spend_bounded b (withdraws ∷ cs) h = ground (
  arith,
  take_token_lem b,
  spend_bounded (take_token b).0 cs,
  times_if (take_token b).1 (granted (take_token b).0 cs) b.unit,
)
