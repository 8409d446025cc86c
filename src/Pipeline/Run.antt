-- ===== src/Pipeline/Run.antt =====
-- pipeline/pipeline.go: running the steps of a pipeline, and undoing them. What a step's call meets is
-- given for each step: what happens at each attempt, what the step makes of the saved data, and how
-- the checkpoint after it is persisted. The redactor is a parameter.
pub mod Once
pub mod Well
pub mod Completed
pub mod Saved
pub mod Fits
pub mod Resume
pub mod Undone
use Prim.Native.String.{String}
use text.Mathlib.Text.{◌==◌ as str_eq}
use go_guard_lib.Prelude.{
  ℕ, zero, suc, ◌+◌, Bool, true, false, ◌&&◌, ◌||◌, not, if◌then◌else◌, ltb, ◌==◌, Option, none,
  some, List, [], ◌∷◌, ◌++◌, length, get_elem?, drop, map, mem_str,
}
use go_guard_lib.Errors.{
  Err, plain, permanent_error, wrapped, blocked_error, is_permanent, is_open, CtxErr, live,
  ctx_canceled, ctx_deadline,
}
use go_guard_lib.Retry.{Policy, do_retry, Done, World}
use go_guard_lib.Breaker.{FnEnd, returned, panicked}
use go_guard_lib.Pipeline.{
  Step, Pipeline, Checkpoint, DoneStep, State, dependency_of, has_breaker, phase_compensating,
}

-- One attempt: the breaker turns it away, or the function runs. The breaker is asked only by a step
-- that has one.
pub record Attempt : Type 0 where
  pub refused : Option Err
  pub ends : FnEnd

-- What happens around a step: its attempts, whether the context has ended after each and during the
-- wait that follows, what it leaves of the saved data, `ctx.Err()` when its error is classified, the
-- clock, and the error of persisting the checkpoint after it.
pub record Around : Type 0 where
  pub attempts : ℕ → Attempt
  pub ctx_ended : ℕ → Bool
  pub wait_ended : ℕ → Bool
  pub change : State → State
  pub ctx : CtxErr
  pub at : ℕ
  pub persisted : Option Err

-- A call of a step's `Run`, or of its `Compensate`, and the error it ended with. The step is named by
-- its index. One call is all that `r.call` does: the attempts that the step's policy allows, within the
-- process, some of which its breaker may refuse.
pub data Event : Type 0 where
  ran undid : (i : ℕ) → (ends : Option Err) → Event

-- `events` are the calls that were made, and `saves` the checkpoints the store has accepted, both
-- newest first. A live run has nowhere to save to.
pub record Run : Type 0 where
  pub cp : Checkpoint
  pub state : State
  pub is_live : Bool
  pub events : List Event
  pub saves : List Checkpoint

-- A run that begins with the checkpoint.
abbrev pub fresh : Bool → Checkpoint → Run
fresh is_live c = record { cp = c; state = c.state; is_live = is_live; events = []; saves = [] }

-- The checkpoint the store holds: the last one it accepted, or the one the run began with.
abbrev pub stored : Checkpoint → List Checkpoint → Checkpoint
stored c [] = c
stored c (c' ∷ cs) = c'

abbrev pub in_checkpoint : Run → Checkpoint
in_checkpoint r = record r.cp { state = r.state }

abbrev save_error : Option Err → Option Err
save_error none = none
save_error (some e) = some (wrapped 20 e)

abbrev stored_with : Option Err → Checkpoint → List Checkpoint → List Checkpoint
stored_with none cp cps = cp ∷ cps
stored_with (some e) cp cps = cps

-- The run after the save, and the error.
unfoldable pub save : Option Err → Run → Run × Option Err
save persisted r =
    let cp = in_checkpoint r in
    (
      record r { cp = cp; saves = if r.is_live then r.saves else stored_with persisted cp r.saves },
      if r.is_live then none else save_error persisted,
    )

-- A panic is an error that says nothing of the message.
abbrev end_error : FnEnd → Option Err
end_error (returned e) = e
end_error panicked = some (plain 21)

abbrev guarded : Step → Attempt → Option Err
guarded st a =
    if has_breaker st.breaker then or_else a.refused (end_error a.ends) else end_error a.ends
  where
    or_else : Option Err → Option Err → Option Err
    or_else none e = e
    or_else (some r) e = some r

-- The call of a step's function: its error, if any.
unfoldable pub call : Step → Around → Option Err
call st a =
    let w : World = record {
      fn = λ n. guarded st (a.attempts n);
      ctx_ended = a.ctx_ended;
      wait_ended = a.wait_ended;
    } in
    if ltb 0 st.retry.max_retries
    then (do_retry st.retry w none).error
    else guarded st (a.attempts 0)

-- A cancelled context is the caller stopping. A deadline is held against the step.
abbrev gave_up : CtxErr → Bool
gave_up live = false
gave_up ctx_canceled = true
gave_up ctx_deadline = false

unfoldable pub classify : CtxErr → Step → Err → Err
classify ctx st e =
    if is_permanent e
    then e
    else (if gave_up ctx
        then e
        else (if is_open e
            then blocked_error (dependency_of st) e true
            else blocked_error (dependency_of st) e false))

-- What the steps meet, by index, when they run and when they are undone, and the save of a run that
-- turns back.
pub record Surroundings : Type 0 where
  pub forward : ℕ → Around
  pub backward : ℕ → Around
  pub turning : Option Err

abbrev pub called : Event → (State → State) → Run → Run
called ev change r = record r { state = change r.state; events = ev ∷ r.events }

abbrev compensates_at : List Step → ℕ → Bool
compensates_at sts i = elim (get_elem? sts i) [ none ↦ false | some st ↦ st.compensates ]

-- Whether one of the first `n` steps, the completed ones, can be undone.
unfoldable pub any_compensation : ℕ → List Step → Bool
any_compensation zero sts = false
any_compensation (suc n) [] = false
any_compensation (suc n) (st ∷ sts) = st.compensates || any_compensation n sts

abbrev pub undone : Step → Run → Run
undone st r = record r { cp = record r.cp { compensated = r.cp.compensated ++ st.name ∷ [] } }

abbrev pub undo_failed : Err → Err
undo_failed e = if is_permanent e then permanent_error (plain 22) else e

-- The loop of `compensate` over the steps below `n`, newest first. The names in `gone` were undone
-- before it began. A completed step is one of the pipeline's, so there is one at each index.
unfoldable pub undo_below : Pipeline → Surroundings → List String → ℕ → Run → Run × Option Err
unfolding call classify save
undo_below p s gone zero r = (r, some (permanent_error (plain 23)))
undo_below p s gone (suc i) r = elim (get_elem? p.steps i) [
  | none ↦ undo_below p s gone i r
  | some st ↦
      let a = s.backward i in
      let r' = called (undid i (call st a)) a.change r in
      let (r'', failed) = save a.persisted (undone st r') in
      if not st.compensates || mem_str st.name gone
      then undo_below p s gone i r
      else elim (call st a) [
        | some e ↦ (r', some (undo_failed (classify a.ctx st e)))
        | none ↦ elim failed [ some e ↦ (r'', some e) | none ↦ undo_below p s gone i r'' ]
      ]
]

unfoldable pub compensate : Pipeline → Surroundings → Run → Run × Option Err
unfolding undo_below
compensate p s r = undo_below p s r.cp.compensated (length r.cp.completed) r

abbrev pub turned : (Err → String) → Step → Err → Run → Run
turned redact st e r = record r {
  cp = record r.cp { phase = phase_compensating; failed_step = st.name; fail_reason = redact e };
}

abbrev then_compensate : Pipeline → Surroundings → Run × Option Err → Run × Option Err
then_compensate p s (r, some e) = (r, some e)
then_compensate p s (r, none) = compensate p s r

-- A step has failed with the error.
unfoldable pub failed :
    (Err → String) → Pipeline → Surroundings → Step → Around → Err → Run → Run × Option Err
unfolding classify any_compensation compensate save
failed redact p s st a err r =
    let e = classify a.ctx st err in
    if not (is_permanent e)
    then (r, some e)
    else (if p.saga && any_compensation (length r.cp.completed) p.steps
        then then_compensate p s (save s.turning (turned redact st e r))
        else (r, some (permanent_error (plain 24))))

abbrev pub completed_with : Step → ℕ → Run → Run
completed_with st at r = record r {
  cp = record r.cp { completed = r.cp.completed ++ record { step = st.name; at = at } ∷ [] };
}

-- The loop of `advance` over the steps that are left, the first of them at index `i`.
unfoldable pub run_from :
    (Err → String) → Pipeline → Surroundings → ℕ → List Step → Run → Run × Option Err
unfolding call failed save
run_from redact p s i [] r = (r, none)
run_from redact p s i (st ∷ sts) r =
    let a = s.forward i in
    let r' = called (ran i (call st a)) a.change r in
    let (r'', unsaved) = save a.persisted (completed_with st a.at r') in
    elim (call st a) [
      | some e ↦ failed redact p s st a e r'
      | none ↦ elim unsaved [ some e ↦ (r'', some e) | none ↦ run_from redact p s (i + 1) sts r'' ]
    ]

-- Runs the pipeline from wherever its checkpoint says.
unfoldable pub advance : (Err → String) → Pipeline → Surroundings → Run → Run × Option Err
unfolding run_from compensate
advance redact p s r =
    let n = length r.cp.completed in
    if str_eq r.cp.phase phase_compensating
    then compensate p s r
    else run_from redact p s n (drop n p.steps) r

-- A stored record is resumed, and again for each of the surroundings: the checkpoint that is stored at
-- the end, and the calls that were made, newest first.
unfoldable pub resume_each :
    (Err → String) → Pipeline → Checkpoint → List Surroundings → Checkpoint × List Event
unfolding advance
resume_each redact p c [] = (c, [])
resume_each redact p c (s ∷ ss) =
    let r = (advance redact p s (fresh false c)).0 in
    let (c', es) = resume_each redact p (stored c r.saves) ss in (c', es ++ r.events)
