-- ===== src/Errors.antt =====
-- The errors of the packages as one type of values, with the searches through a chain of wrapped
-- errors that `errors.Is` and `errors.As` make: retry/retry.go (`permanentError`), dlq/record.go
-- (`BlockedError`, the store's errors), breaker/breaker.go (`OpenError`, `BulkheadError`). Error
-- texts are left out but for a number that tells plain errors apart.
use Prim.Native.String.{String}
use go_guard_lib.Prelude.{ℕ, Bool, true, false, ◌||◌, Option, none, some}

pub data StoreErr : Type 0 where
  invalid_record not_found lease_lost not_parked full closed store_failed corrupt invalid_request :
      StoreErr

pub data Err : Type 0 where
  plain : ℕ → Err
  canceled deadline_exceeded : Err
  store_err : StoreErr → Err
  open_error : (name : String) → Err
  bulkhead_error : (name : String) → Err
  permanent_error : Err → Err
  blocked_error : (dependency : String) → Err → (refund : Bool) → Err
  wrapped : ℕ → Err → Err

-- Whether a link of the chain passes a test.
unfoldable pub any_link : (Err → Bool) → Err → Bool
any_link p (permanent_error e) = p (permanent_error e) || any_link p e
any_link p (blocked_error d e r) = p (blocked_error d e r) || any_link p e
any_link p (wrapped n e) = p (wrapped n e) || any_link p e
any_link p (plain n) = p (plain n)
any_link p canceled = p canceled
any_link p deadline_exceeded = p deadline_exceeded
any_link p (store_err s) = p (store_err s)
any_link p (open_error n) = p (open_error n)
any_link p (bulkhead_error n) = p (bulkhead_error n)

abbrev is_permanent_link : Err → Bool
is_permanent_link (permanent_error _) = true
is_permanent_link _ = false

abbrev is_canceled_link : Err → Bool
is_canceled_link canceled = true
is_canceled_link _ = false

abbrev is_open_link : Err → Bool
is_open_link (open_error _) = true
is_open_link _ = false

-- `retry.IsPermanent`.
unfoldable pub is_permanent : Err → Bool
unfolding any_link
is_permanent = any_link is_permanent_link

-- `errors.Is(err, context.Canceled)`.
unfoldable pub is_canceled : Err → Bool
unfolding any_link
is_canceled = any_link is_canceled_link

-- `errors.Is(err, breaker.ErrOpen)`, and whether an error of the chain declares itself
-- non-retryable: only `OpenError` does.
unfoldable pub is_open : Err → Bool
unfolding any_link
is_open = any_link is_open_link

-- `retry.Permanent`, of an error that is not nil.
abbrev pub permanent : Err → Err
permanent e = permanent_error e

-- A marker applied directly is stripped; one further down is left alone.
unfoldable pub unwrap_permanent : Err → Err
unwrap_permanent (permanent_error e) = e
unwrap_permanent e = e

pub record Blocked : Type 0 where
  pub dependency : String
  pub refund : Bool

-- `errors.As(err, &be)` for a `*dlq.BlockedError`: the first one of the chain.
unfoldable pub as_blocked : Err → Option Blocked
as_blocked (blocked_error d e r) = some (record { dependency = d; refund = r })
as_blocked (permanent_error e) = as_blocked e
as_blocked (wrapped n e) = as_blocked e
as_blocked _ = none

-- `errors.As(err, &oe)` for a `*breaker.OpenError`: its name.
unfoldable pub as_open : Err → Option String
as_open (open_error n) = some n
as_open (permanent_error e) = as_open e
as_open (blocked_error d e r) = as_open e
as_open (wrapped n e) = as_open e
as_open _ = none

-- `ctx.Err()`: nil, cancelled, or past its deadline.
pub data CtxErr : Type 0 where
  live ctx_canceled ctx_deadline : CtxErr

abbrev pub ended : CtxErr → Bool
ended live = false
ended _ = true
