-- ===== src/Pipeline/Run/Completed.antt =====
-- pipeline/pipeline.go: a run that ends without an error.
use Prim.Native.String.{String}
use go_guard_lib.Prelude.{
  ℕ, zero, suc, ◌+◌, ◌≤◌, ◌≡◌, none, List, [], ◌∷◌, length, length-append, length-drop, get_elem?,
  drop, arith, Option-cases, inl, inr,
}
use go_guard_lib.Errors.{Err}
use go_guard_lib.Pipeline.{Step, Pipeline}
use go_guard_lib.Pipeline.Run.{
  ran, undid, Run, Around, Surroundings, call, classify, save, called, undone, completed_with,
  turned, failed, compensate, undo_below, run_from, advance,
}

pub undo_below-some :
    (p : Pipeline) (s : Surroundings) (gone : List String) (n : ℕ) (r : Run)
    → ¬ (undo_below p s gone n r).1 ≡ none
unfolding undo_below
undo_below-some p s gone zero r = λ e. ground arith
undo_below-some p s gone (suc i) r = elim (Option-cases (get_elem? p.steps i)) [
  | inl n ↦ ground (arith, undo_below-some p s gone i r)
  | inr (st, e) ↦
      let a = s.backward i in
      let r' = (save a.persisted (undone st (called (undid i (call st a)) a.change r))).0 in
      ground (arith, undo_below-some p s gone i r, undo_below-some p s gone i r')
]

failed-some :
    (redact : Err → String) (p : Pipeline) (s : Surroundings) (st : Step) (a : Around) (err : Err)
    (r : Run)
    → ¬ (failed redact p s st a err r).1 ≡ none
unfolding failed save compensate
failed-some redact p s st a err r =
    let e = classify a.ctx st err in
    let r' = (save s.turning (turned redact st e r)).0 in
    ground (arith, undo_below-some p s r'.cp.compensated (length r'.cp.completed) r')

run_from-all :
    (redact : Err → String) (p : Pipeline) (s : Surroundings) (i : ℕ) (sts : List Step) (r : Run)
    → (run_from redact p s i sts r).1 ≡ none
    → length (run_from redact p s i sts r).0.cp.completed ≡ length r.cp.completed + length sts
unfolding run_from save
run_from-all redact p s i [] r eq = omega arith
run_from-all redact p s i (st ∷ sts) r eq = elim (Option-cases (call st (s.forward i))) [
  | inl n ↦
      let a = s.forward i in
      let r' =
        (save a.persisted (completed_with st a.at (called (ran i (call st a)) a.change r))).0 in
      ground (
        arith,
        n,
        eq,
        length-append r.cp.completed (record { step = st.name; at = a.at } ∷ []),
        run_from-all redact p s (i + 1) sts r',
      )
  | inr (e, eq') ↦
      let a = s.forward i in
      ground (arith, eq, failed-some redact p s st a e (called (ran i (call st a)) a.change r))
]

-- A run that ends without an error has completed every step: a run that turns back never does.
pub advance-completes :
    (redact : Err → String) (p : Pipeline) (s : Surroundings) (r : Run)
    → (advance redact p s r).1 ≡ none
    → length r.cp.completed ≤ length p.steps
    → length (advance redact p s r).0.cp.completed ≡ length p.steps
unfolding advance compensate
advance-completes redact p s r ok fits =
    let n = length r.cp.completed in
    ground (
      arith,
      ok,
      fits,
      length-drop n p.steps,
      undo_below-some p s r.cp.compensated n r,
      run_from-all redact p s n (drop n p.steps) r,
    )
