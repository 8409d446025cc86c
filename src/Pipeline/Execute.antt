-- ===== src/Pipeline/Execute.antt =====
-- pipeline/pipeline.go: a message that is processed from the start (`Execute`), and a stored record
-- that is resumed (`Handler`). The codec of checkpoints (encoding/json) and the store are parameters.
pub mod Safe
use Prim.Native.String.{String}
use text.Mathlib.Text.{◌==◌ as str_eq}
use go_guard_lib.Prelude.{
  ℕ, zero, suc, ◌+◌, Bool, true, false, ◌&&◌, ◌||◌, not, if◌then◌else◌, Option, none, some, List,
  [], ◌∷◌, length, map,
}
use go_guard_lib.Errors.{Err, plain, is_permanent, Blocked, as_blocked, live}
use go_guard_lib.Dlq.Record as DlqRecord
use go_guard_lib.Dlq.Record.{Bytes, Source, Header, Record}
use go_guard_lib.Dlq.Store.{Store}
use go_guard_lib.Pipeline.{
  Pipeline, Checkpoint, new_checkpoint, Loaded, loaded, mismatched, load, State,
}
use go_guard_lib.Pipeline.Run.{Run, Surroundings, advance, in_checkpoint, fresh}

-- How the handler ends: it refuses the checkpoint, or the run ended, with its error.
pub data Handled : Type 0 where
  refused : Err → Handled
  ended : Run → Option Err → Handled

abbrev pub as_handled : Run × Option Err → Handled
as_handled (r, e) = ended r e

abbrev pub handle_loaded : (Err → String) → Pipeline → Surroundings → Loaded → Handled
unfolding advance
handle_loaded redact p s (mismatched e) = refused e
handle_loaded redact p s (loaded c) = as_handled (advance redact p s (fresh false c))

unfoldable pub handler :
    (Err → String) → (List ℕ → Option Checkpoint) → Pipeline → Surroundings → Bytes → Handled
unfolding load advance
handler redact decode p s raw = handle_loaded redact p s (load decode p raw)

pub record Input : Type 0 where
  pub id : String
  pub source : Source
  pub key : Bytes
  pub value : Bytes
  pub headers : List Header
  pub order_key : String

pub data Result : Type 0 where
  failed done deferred parked : Result

abbrev pub as_record : Input → DlqRecord.State → String → String → Bytes → Record
as_record m state dep text cp = record {
  id = m.id;
  seq = 0;
  state = state;
  source = m.source;
  key = m.key;
  value = m.value;
  headers = m.headers;
  order_key = m.order_key;
  blocked_on = dep;
  attempts = 0;
  first_failed = 0;
  last_failed = 0;
  next_attempt = 0;
  last_error = text;
  checkpoint = cp;
  schema_version = 0;
}

module _ {S : Type 0} (ops : Store S) where
  abbrev stored_as : Result → S × Option Err → S × Result × Option Err
  stored_as ok (s, none) = (s, ok, none)
  stored_as ok (s, some e) = (s, failed, some e)

  -- `p.store`. The append is detached from the context's end.
  unfoldable pub store :
      S → Input → Bytes → DlqRecord.State → String → String → ℕ → Result → S × Result × Option Err
  store s m cp state dep text now ok =
      stored_as ok (ops.append s live (as_record m state dep text cp) now)

  -- What becomes of the message when the run has ended with the error.
  abbrev pub store_failed :
      (Err → String) → S → Input → Bytes → ℕ → Err → Option Blocked → S × Result × Option Err
  store_failed redact s m cp now e (some b) =
      store s m cp DlqRecord.pending b.dependency (redact e) now deferred
  store_failed redact s m cp now e none =
      if is_permanent e
      then store s m cp DlqRecord.parked "" (redact e) now parked
      else (s, failed, some e)

  abbrev pub store_result :
      (Err → String)
      → (Checkpoint → List ℕ)
      → S
      → Input
      → ℕ
      → Run × Option Err
      → S × Result × Option Err
  store_result redact encode s m now (r, none) = (s, done, none)
  store_result redact encode s m now (r, some e) =
      store_failed redact s m (some (encode (in_checkpoint r))) now e (as_blocked e)

  unfoldable pub execute :
      (Err → String)
      → (Checkpoint → List ℕ)
      → Pipeline
      → Surroundings
      → S
      → Input
      → ℕ
      → S × Result × Option Err
  unfolding advance new_checkpoint store
  execute redact encode p around s m now =
      if str_eq m.id ""
      then (s, failed, some (plain 25))
      else store_result redact encode s m now
          (advance redact p around (fresh true (new_checkpoint p)))
