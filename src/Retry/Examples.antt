-- ===== src/Retry/Examples.antt =====
-- retry/retry.go: the theorems at concrete delays, budgets and operations.
use go_guard_lib.Prelude.{ℕ, false, Option, none, some, if◌then◌else◌, ◌==◌}
use go_guard_lib.Errors.{Err, plain}
use go_guard_lib.Retry.{
  constant, TokenBudget, new_budget, Policy, World, do_retry, default_retryable,
}
use go_guard_lib.Retry.Loop.{Ran, do_retry-Ran}

abbrev a_cap : ℕ
a_cap = 1000

abbrev fifth : ℕ → ℕ
fifth d = 20

abbrev draw : ℕ → ℕ
draw n = 7

abbrev a_budget : TokenBudget
a_budget = new_budget 10 1 3

abbrev three_tries : Policy
three_tries = record { max_retries = 3; backoff = some (constant 5); retryable = default_retryable }

abbrev fails_twice : ℕ → Option Err
fails_twice n = if n == 2 then none else some (plain n)

abbrev a_world : World
a_world = record { fn = fails_twice; ctx_ended = λ n. false; wait_ended = λ n. false }

do_retry-Ran_example : Ran three_tries a_world 3 0 0 (do_retry three_tries a_world (some a_budget))
do_retry-Ran_example = do_retry-Ran three_tries a_world (some a_budget)
