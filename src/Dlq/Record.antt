-- ===== src/Dlq/Record.antt =====
-- dlq/record.go: a record of the queue. A byte slice is `none` where it is nil, which differs from
-- empty. Times are numbers of nanoseconds, 0 for the zero time. Numbers that are never negative in a
-- valid record are natural numbers.
use Prim.Native.String.{String, len}
use text.Mathlib.Text.{◌==◌ as str_eq}
use go_guard_lib.Prelude.{
  ℕ, ◌+◌, Bool, true, false, ◌||◌, if◌then◌else◌, ltb, Option, none, some, List, length, sum_by,
}
use go_guard_lib.Errors.{StoreErr, invalid_record}

pub data State : Type 0 where
  pending leased parked : State

abbrev pub Bytes : Type 0
Bytes = Option (List ℕ)

abbrev pub byte_len : Bytes → ℕ
byte_len none = 0
byte_len (some bs) = length bs

pub record Header : Type 0 where
  pub key : String
  pub value : Bytes

pub record Source : Type 0 where
  pub kind : String
  pub name : String
  pub partition : ℕ
  pub offset : ℕ

pub record Record : Type 0 where
  pub id : String
  pub seq : ℕ
  pub state : State
  pub source : Source
  pub key : Bytes
  pub value : Bytes
  pub headers : List Header
  pub order_key : String
  pub blocked_on : String
  pub attempts : ℕ
  pub first_failed : ℕ
  pub last_failed : ℕ
  pub next_attempt : ℕ
  pub last_error : String
  pub checkpoint : Bytes
  pub schema_version : ℕ

abbrev pub current_schema : ℕ
current_schema = 1

abbrev max_id_len : ℕ
max_id_len = 256

abbrev pub headers_size : List Header → ℕ
headers_size = sum_by λ h. len h.key + byte_len h.value

unfoldable pub size : Record → ℕ
size r =
    len r.id
    + byte_len r.key
    + byte_len r.value
    + byte_len r.checkpoint
    + len r.order_key
    + len r.blocked_on
    + len r.last_error
    + len r.source.kind
    + len r.source.name
    + 64
    + headers_size r.headers

abbrev pub is_leased : State → Bool
is_leased leased = true
is_leased _ = false

abbrev pub is_parked : State → Bool
is_parked parked = true
is_parked _ = false

abbrev pub is_pending : State → Bool
is_pending pending = true
is_pending _ = false

-- `none` is a valid record. (A negative number of attempts cannot be stated here.)
unfoldable pub validate : Record → Option StoreErr
validate r =
    if str_eq r.id "" || ltb max_id_len (len r.id)
    then some invalid_record
    else (if is_leased r.state then some invalid_record else none)
