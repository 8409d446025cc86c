-- ===== src/Retry/Loop.antt =====
-- retry/retry.go: what `Do` returns, after how many calls.
use native.Mathlib.Numerals.{add-one}
use go_guard_lib.Prelude.{
  ℕ, zero, suc, ◌+◌, ◌≤◌, ◌<◌, ◌≡◌, true, false, arith, ltb, List, [], ◌∷◌, ◌++◌, Option, none,
  some, pred, Option-cases, Bool-cases, ==_iff, ◌==◌, inl, inr, subst, not, ◌||◌, ◌&&◌, length,
  length-append,
}
use go_guard_lib.Errors.{Err, unwrap_permanent}
use go_guard_lib.Retry.{
  Policy, World, Done, TokenBudget, do_from, do_retry, deposit, try_withdraw, delay_of,
}

abbrev pub unwrapped : Option Err → Option Err
unwrapped none = none
unwrapped (some e) = some (unwrap_permanent e)

-- A failure that `Do` may retry.
abbrev pub Retries : Policy → World → ℕ → Type 0
Retries p w i = (w.ctx_ended i ≡ false) × ((e : Err) × (w.fn i ≡ some e) × (p.retryable e ≡ true))

-- The calls of a run that began at `attempt` with `left` retries left and `k` waits behind it.
pub record Ran (p : Policy) (w : World) (left attempt k : ℕ) (r : Done) : Type 0 where
  pub more : attempt < r.calls
  pub few : r.calls ≤ attempt + left + 1
  pub last : r.error ≡ unwrapped (w.fn (pred r.calls))
  pub waited : length r.waits + attempt + 1 ≤ r.calls + k + 1
  pub between : (i : ℕ) → attempt ≤ i → i < pred r.calls → Retries p w i

module _ (p : Policy) (w : World) (attempt : ℕ) where
  -- The loop ends with this call's result.
  stop :
      (left k : ℕ) (e : Option Err) (ws : List ℕ) (b : Option TokenBudget)
      → e ≡ unwrapped (w.fn attempt)
      → length ws ≤ k + 1
      → Ran p w left attempt k (record { error = e; calls = attempt + 1; waits = ws; budget = b })
  stop left k e ws b h n = record {
    more = omega arith;
    few = omega arith;
    last = rw add-one h;
    waited = omega arith;
    between = λ i lo hi. absurd (omega arith);
  }

  -- The loop goes on, after a failure that may be retried.
  go_on :
      (left k : ℕ) (r : Done)
      → Retries p w attempt
      → Ran p w left (attempt + 1) (k + 1) r
      → Ran p w (suc left) attempt k r
  go_on left k r h v = record {
    more = omega (arith, v.more);
    few = omega (arith, v.few);
    last = v.last;
    waited = omega (arith, v.waited);
    between = λ i lo hi. elim (Bool-cases (attempt == i)) [
      | inl e ↦ subst (Retries p w) ((==_iff attempt i).0 e) h
      | inr e ↦ v.between i (ground arith) hi
    ];
  }

  may_retry :
      (x : Err)
      → w.fn attempt ≡ some x
      → (w.ctx_ended attempt || not (p.retryable x)) ≡ false
      → Retries p w attempt
  may_retry x e c = (ground arith, (x, e, ground arith))

do_from-Ran :
    (left : ℕ) (p : Policy) (w : World) (attempt : ℕ) (waits : List ℕ) (b : Option TokenBudget)
    → Ran p w left attempt (length waits) (do_from left p w attempt waits b)
unfolding do_from
do_from-Ran zero p w attempt waits b = elim (Option-cases (w.fn attempt)) [
  | inl e ↦ rw (e, do_from) (stop p w attempt zero _ none waits b (rw e) (omega arith))
  | inr (x, e) ↦ rw (e, do_from) (stop p w attempt zero _ _ waits b (rw e) (omega arith))
]
do_from-Ran (suc left) p w attempt waits b = elim (Option-cases (w.fn attempt)) [
  | inl e ↦ rw (e, do_from) (stop p w attempt (suc left) _ none waits b (rw e) (omega arith))
  | inr (x, e) ↦
      let delay = delay_of p.backoff (attempt + 1) in
      let ws = waits ++ delay ∷ [] in
      let b' = (try_withdraw b).0 in
      let len : length ws ≡ length waits + 1 = length-append waits (delay ∷ []) in
      elim (Bool-cases (w.ctx_ended attempt || not (p.retryable x))) [
        | inl c ↦ rw (e, do_from, c) (stop p w attempt (suc left) _ _ waits b (rw e) (omega arith))
        | inr c ↦ elim (Bool-cases (try_withdraw b).1) [
          | inr g ↦
              rw (e, do_from, c, g) (stop p w attempt (suc left) _ _ waits b' (rw e) (omega arith))
          | inl g ↦ elim (Bool-cases (ltb 0 delay && w.wait_ended attempt)) [
            | inl d ↦
                rw (e, do_from, c, g, d)
                  (stop p w attempt (suc left) _ _ ws b' (rw e) (omega (arith, len)))
            | inr d ↦
                rw (e, do_from, c, g, d)
                  (go_on p w attempt left _ _ (may_retry p w attempt x e c)
                    (rw len at (do_from-Ran left p w (attempt + 1) ws b')))
          ]
        ]
      ]
]

-- `Do` makes at least one call and at most `MaxRetries + 1`; it returns the result of the last one,
-- nil or its error with a permanent marker applied directly to it stripped; it waits at most once
-- for each call; and each earlier call failed with a retryable error while the context was alive.
pub do_retry-Ran :
    (p : Policy) (w : World) (b : Option TokenBudget) → Ran p w p.max_retries 0 0 (do_retry p w b)
unfolding do_retry
do_retry-Ran p w b = do_from-Ran p.max_retries p w 0 [] (deposit b)
