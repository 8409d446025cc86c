-- ===== src/Pipeline/Rewind.antt =====
-- pipeline/pipeline.go: inspecting and rewinding a parked record, its idempotency keys, and the data
-- that its steps have saved. The codec of checkpoints is a parameter, and so is the hash of a key.
pub mod Resumes
use Prim.Native.Nat.{Ordering, lt, eq, gt}
use Prim.Native.String.{String, compare, ◌++◌ as ◌+++◌}
use text.Mathlib.Text.{◌==◌ as str_eq}
use go_guard_lib.Prelude.{
  ℕ, zero, suc, ◌+◌, Bool, true, false, ◌&&◌, ◌||◌, not, if◌then◌else◌, ltb, Option, none, some,
  List, [], ◌∷◌, length, map, take, get_elem?, mem_str,
}
use go_guard_lib.Errors.{Err, plain, wrapped, store_err, not_parked, CtxErr}
use go_guard_lib.Dlq.Record.{Bytes, Record, is_parked}
use go_guard_lib.Dlq.Memory.{Read, read, not_read}
use go_guard_lib.Dlq.Store.{Store}
use go_guard_lib.Pipeline.{
  Step, Pipeline, Checkpoint, DoneStep, State, Loaded, loaded, mismatched, load, phase_forward,
}

-- `x.Get`, and `x.Set` of a copy of the value.
unfoldable pub get_state : String → State → Bytes
get_state k [] = none
get_state k ((k', v) ∷ s) = if str_eq k' k then some v else get_state k s

unfoldable pub set_state : String → List ℕ → State → State
set_state k v [] = (k, v) ∷ []
set_state k v ((k', v') ∷ s) = if str_eq k' k then (k, v) ∷ s else (k', v') ∷ set_state k v s

-- `itoa` writes a number in decimal, and `hash` is the text of the first half of a SHA-256.
unfoldable pub idempotency_key_epoch :
    (String → String) → (ℕ → String) → String → String → ℕ → String
idempotency_key_epoch hash itoa id step epoch =
    let text = "goguard/pipeline/v1\0" +++ (id +++ ("\0" +++ step)) in
    hash (if ltb 0 epoch then text +++ ("\0epoch=" +++ itoa epoch) else text)

abbrev insert_string : String → List String → List String
insert_string x [] = x ∷ []
insert_string x (y ∷ ys) = elim (compare x y) [
  | gt ↦ y ∷ insert_string x ys
  | lt ↦ x ∷ y ∷ ys
  | eq ↦ x ∷ y ∷ ys
]

-- `sort.Strings`.
abbrev sort_strings : List String → List String
sort_strings [] = []
sort_strings (x ∷ xs) = insert_string x (sort_strings xs)

abbrev done_names : List DoneStep → List String
done_names ds = map (λ d. d.step) ds

abbrev pub state_keys : State → List String
state_keys s = sort_strings (map (λ kv. kv.0) s)

pub record Progress : Type 0 where
  pub pipeline : String
  pub version : String
  pub completed : List String
  pub next : String
  pub phase : String
  pub compensated : List String
  pub failed_step : String
  pub fail_reason : String
  pub state_keys : List String
  pub epoch : ℕ

abbrev name_at : List Step → ℕ → String
name_at sts i = elim (get_elem? sts i) [ none ↦ "" | some st ↦ st.name ]

abbrev progress : Pipeline → Checkpoint → Progress
progress p c = record {
  pipeline = c.pipeline;
  version = c.version;
  completed = done_names c.completed;
  next = if str_eq c.phase phase_forward then name_at p.steps (length c.completed) else "";
  phase = c.phase;
  compensated = c.compensated;
  failed_step = c.failed_step;
  fail_reason = c.fail_reason;
  state_keys = state_keys c.state;
  epoch = c.epoch;
}

abbrev described : Pipeline → Loaded → Read Progress
described p (loaded c) = read (progress p c)
described p (mismatched e) = not_read e

unfoldable pub describe : (List ℕ → Option Checkpoint) → Pipeline → Bytes → Read Progress
unfolding load
describe decode p raw = described p (load decode p raw)

-- The index of the last step with that name, the first of the list being at `i`.
unfoldable pub step_index : String → ℕ → List Step → Option ℕ
step_index name i [] = none
step_index name i (st ∷ sts) =
    let rest = step_index name (suc i) sts in
    elim rest [ some j ↦ some j | none ↦ if str_eq st.name name then some i else none ]

-- Whether one of the steps is one of the names.
abbrev pub any_undone : List String → List DoneStep → Bool
any_undone gone [] = false
any_undone gone (d ∷ ds) = mem_str d.step gone || any_undone gone ds

abbrev is_nil : List String → Bool
is_nil [] = true
is_nil (x ∷ xs) = false

-- The checkpoint that resumes at the index.
unfoldable pub rewound_to : ℕ → Checkpoint → Checkpoint
rewound_to i c = record c {
  epoch = if is_nil c.compensated then c.epoch else c.epoch + 1;
  completed = take i c.completed;
  compensated = [];
  phase = phase_forward;
  failed_step = "";
  fail_reason = "";
}

abbrev pub unknown_step : Err
unknown_step = wrapped 30 (plain 101)

abbrev pub cannot_skip_forward : Err
cannot_skip_forward = wrapped 31 (plain 102)

abbrev pub step_undone : Err
step_undone = wrapped 32 (plain 103)

abbrev rewound_at : Option ℕ → Checkpoint → Read Checkpoint
rewound_at none c = not_read unknown_step
rewound_at (some i) c =
    if ltb (length c.completed) i
    then not_read cannot_skip_forward
    else (if any_undone c.compensated (take i c.completed)
        then not_read step_undone
        else read (rewound_to i c))

abbrev pub rewound : Pipeline → String → Loaded → Read Checkpoint
unfolding step_index rewound_to
rewound p to_step (mismatched e) = not_read e
rewound p to_step (loaded c) = rewound_at (step_index to_step 0 p.steps) c

abbrev encoded : (Checkpoint → List ℕ) → Read Checkpoint → Read (List ℕ)
encoded encode (read c) = read (encode c)
encoded encode (not_read e) = not_read e

unfoldable pub rewind :
    (List ℕ → Option Checkpoint) → (Checkpoint → List ℕ) → Pipeline → Bytes → String → Read (List ℕ)
unfolding load step_index rewound_to
rewind decode encode p raw to_step = encoded encode (rewound p to_step (load decode p raw))

module _ {S : Type 0} (ops : Store S) where
  abbrev requeue_at : S → CtxErr → String → Read (List ℕ) → S × Option Err
  requeue_at s ctx id (not_read e) = (s, some e)
  requeue_at s ctx id (read cp) = ops.requeue_with s ctx id true (some cp)

  abbrev redrive_record :
      (List ℕ → Option Checkpoint)
      → (Checkpoint → List ℕ)
      → Pipeline
      → S
      → CtxErr
      → String
      → String
      → Read Record
      → S × Option Err
  unfolding rewind
  redrive_record decode encode p s ctx id from_step (not_read e) = (s, some e)
  redrive_record decode encode p s ctx id from_step (read r) =
      if not (is_parked r.state)
      then (s, some (store_err not_parked))
      else (if str_eq from_step ""
          then ops.requeue_with s ctx id false none
          else requeue_at s ctx id (rewind decode encode p r.checkpoint from_step))

  unfoldable pub redrive :
      (List ℕ → Option Checkpoint)
      → (Checkpoint → List ℕ)
      → Pipeline
      → S
      → CtxErr
      → String
      → String
      → S × Option Err
  unfolding rewind
  redrive decode encode p s ctx id from_step =
      redrive_record decode encode p s ctx id from_step (ops.get s ctx id)
