-- ===== src/Pipeline.antt =====
-- pipeline/pipeline.go: the steps, the building of a pipeline, and its checkpoints. What HTTP steps
-- and health URLs compile to is a parameter (pipeline/http.go, breaker.NewHTTP), as is the JSON codec
-- (encoding/json). A checkpoint's state is an association list, and so is `Exec`'s.
pub mod Run
pub mod Rewind
pub mod Execute
pub mod Names
mod Examples
use Prim.Native.String.{String}
use text.Mathlib.Text.{◌==◌ as str_eq}
use go_guard_lib.Prelude.{
  ℕ, zero, suc, ◌+◌, Bool, true, false, ◌&&◌, ◌||◌, not, if◌then◌else◌, ltb, ◌==◌, Option, none,
  some, List, [], ◌∷◌, ◌++◌, length, map, mem_str,
}
use go_guard_lib.Errors.{Err, plain, permanent_error, wrapped}
use go_guard_lib.Retry.{Policy}
use go_guard_lib.Dlq.Record.{Bytes}

-- `breaker` is the name of the breaker that guards the step, if there is one. `has_run` and
-- `has_http` say which of `Run` and `HTTP` is set, `compensates` whether `Compensate` is.
pub record Step : Type 0 where
  pub name : String
  pub dependency : String
  pub breaker : Option String
  pub health_url : String
  pub retry : Policy
  pub retries : ℕ
  pub has_run : Bool
  pub has_http : Bool
  pub save_as : String
  pub compensates : Bool

abbrev pub has_breaker : Option String → Bool
has_breaker none = false
has_breaker (some b) = true

abbrev breaker_name : Option String → String
breaker_name none = ""
breaker_name (some b) = b

unfoldable pub dependency_of : Step → String
dependency_of st =
    if not (str_eq st.dependency "")
    then st.dependency
    else (if not (str_eq (breaker_name st.breaker) "") then breaker_name st.breaker else st.name)

-- `owned` are the breakers made for health URLs.
pub record Pipeline : Type 0 where
  pub name : String
  pub version : String
  pub steps : List Step
  pub saga : Bool
  pub owned : List String

-- What can be wrong with a step.
pub data StepErr : Type 0 where
  needs_name_and_one : StepErr
  duplicate_name : StepErr
  save_as_without_http : StepErr
  http_refused : StepErr
  health_url_refused : StepErr

-- The step as it is kept, and the breakers made so far, or what is wrong.
pub data Built : Type 0 where
  built : List Step → List String → Built
  not_built : StepErr → Built

-- The policy that stands for `Retries`, if the step has no other.
abbrev with_retries : Policy → Step → Step
with_retries short st =
    if ltb 0 st.retries && (st.retry.max_retries == 0)
    then record st { retry = record short { max_retries = st.retries } }
    else st

abbrev own_name : Step → String
own_name st = if str_eq st.dependency "" then st.name else st.dependency

-- A breaker is made for a step that has a health URL and no breaker.
abbrev wants_breaker : Step → Bool
wants_breaker st = not (has_breaker st.breaker) && not (str_eq st.health_url "")

-- `Run` of a step that has an HTTP call is that call.
abbrev pub finished : Policy → Step → Step
finished short st =
    let st' = record st {
      breaker = if wants_breaker st then some (own_name st) else st.breaker;
      has_run = st.has_run || st.has_http;
    } in
    with_retries short st'

abbrev pub check_step : (Step → Bool) → (Step → Bool) → List String → Step → Option StepErr
check_step compiles probes seen st =
    if str_eq st.name "" || not (if st.has_run then not st.has_http else st.has_http)
    then some needs_name_and_one
    else (if mem_str st.name seen
        then some duplicate_name
        else (if not (str_eq st.save_as "") && not st.has_http
            then some save_as_without_http
            else (if st.has_http && not (compiles st)
                then some http_refused
                else (if wants_breaker st && not (probes st)
                    then some health_url_refused
                    else none))))

abbrev pub add_built : Policy → Step → Built → Built
add_built short st (built sts owned) =
    built (finished short st ∷ sts) (if wants_breaker st then own_name st ∷ owned else owned)
add_built short st (not_built e) = not_built e

abbrev pub next_built : Policy → Step → Built → Option StepErr → Built
next_built short st rest none = add_built short st rest
next_built short st rest (some e) = not_built e

-- The loop of `New` over the steps, the names seen before them given.
unfoldable pub build_steps :
    Policy → (Step → Bool) → (Step → Bool) → List String → List Step → Built
build_steps short compiles probes seen [] = built [] []
build_steps short compiles probes seen (st ∷ sts) =
    let rest = build_steps short compiles probes (st.name ∷ seen) sts in
    next_built short st rest (check_step compiles probes seen st)

pub data New : Type 0 where
  pipeline : Pipeline → New
  needs_name needs_steps : New
  bad_step : StepErr → New

abbrev pub is_empty : List Step → Bool
is_empty [] = true
is_empty (x ∷ xs) = false

abbrev pub as_pipeline : String → String → Bool → Built → New
as_pipeline name version saga (built sts owned) =
    pipeline (record { name = name; version = version; steps = sts; saga = saga; owned = owned })
as_pipeline name version saga (not_built e) = bad_step e

-- `compiles` and `probes` say whether the step's HTTP call and its health URL are accepted.
unfoldable pub new :
    Policy → (Step → Bool) → (Step → Bool) → String → String → List Step → Bool → New
unfolding build_steps
new short compiles probes name version steps saga =
    if str_eq name ""
    then needs_name
    else (if is_empty steps
        then needs_steps
        else as_pipeline name version saga (build_steps short compiles probes [] steps))

pub record DoneStep : Type 0 where
  pub step : String
  pub at : ℕ

abbrev pub State : Type 0
State = List (String × List ℕ)

-- `phase` is a string in the code as well: a stored checkpoint may hold any.
pub record Checkpoint : Type 0 where
  pub v : ℕ
  pub pipeline : String
  pub version : String
  pub completed : List DoneStep
  pub phase : String
  pub compensated : List String
  pub failed_step : String
  pub fail_reason : String
  pub epoch : ℕ
  pub state : State

abbrev pub checkpoint_version : ℕ
checkpoint_version = 1

abbrev pub phase_forward : String
phase_forward = "forward"

abbrev pub phase_compensating : String
phase_compensating = "compensating"

unfoldable pub new_checkpoint : Pipeline → Checkpoint
new_checkpoint p = record {
  v = checkpoint_version;
  pipeline = p.name;
  version = p.version;
  completed = [];
  phase = phase_forward;
  compensated = [];
  failed_step = "";
  fail_reason = "";
  epoch = 0;
  state = [];
}

-- The error of a checkpoint that does not fit: it is always permanent. The number says why.
unfoldable pub mismatch : ℕ → Err
mismatch n = permanent_error (wrapped n (plain 100))

-- The completed steps are the pipeline's first ones.
abbrev pub names_fit : List DoneStep → List Step → Bool
names_fit [] sts = true
names_fit (d ∷ ds) [] = false
names_fit (d ∷ ds) (st ∷ sts) = str_eq d.step st.name && names_fit ds sts

pub data Loaded : Type 0 where
  loaded : Checkpoint → Loaded
  mismatched : Err → Loaded

unfoldable pub check_loaded : Pipeline → Checkpoint → Loaded
unfolding mismatch
check_loaded p c =
    if not (c.v == checkpoint_version)
    then mismatched (mismatch 2)
    else (if not (str_eq c.pipeline p.name)
        then mismatched (mismatch 3)
        else (if not (str_eq c.phase phase_forward) && not (str_eq c.phase phase_compensating)
            then mismatched (mismatch 4)
            else (if ltb (length p.steps) (length c.completed)
                then mismatched (mismatch 5)
                else (if names_fit c.completed p.steps
                    then loaded c
                    else mismatched (mismatch 6)))))

abbrev decoded : Pipeline → Option Checkpoint → Loaded
decoded p none = mismatched (mismatch 1)
decoded p (some c) = check_loaded p c

-- An empty checkpoint is none: the record was stored without progress.
unfoldable pub load : (List ℕ → Option Checkpoint) → Pipeline → Bytes → Loaded
unfolding check_loaded mismatch new_checkpoint
load decode p none = loaded (new_checkpoint p)
load decode p (some []) = loaded (new_checkpoint p)
load decode p (some (b ∷ bs)) = decoded p (decode (b ∷ bs))

unfoldable pub step_names : Pipeline → List String
step_names p = map (λ st. st.name) p.steps
