-- ===== src/Pipeline/Run/Well.antt =====
-- pipeline/pipeline.go: which of a run's calls of steps succeed, and that it makes the first one.
use Prim.Native.String.{String}
use text.Mathlib.Text.{◌==◌ as str_eq}
use go_guard_lib.Prelude.{
  false, ℕ, zero, suc, ◌+◌, ◌≤◌, ◌<◌, ◌≡◌, refl, if◌then◌else◌, ◌==◌, none, some, List, [], ◌∷◌,
  length, length-append, length-drop, get_elem?, drop, arith, Option-cases, inl, inr,
}
use go_guard_lib.Errors.{Err}
use go_guard_lib.Pipeline.{Step, Pipeline, phase_compensating}
use go_guard_lib.Pipeline.Run.{
  Event, ran, undid, Run, Around, Surroundings, call, classify, save, called, undone,
  completed_with, turned, failed, compensate, undo_below, run_from, advance,
}
use go_guard_lib.Pipeline.Run.Once.{runs, hit, undo_below-runs, failed-runs, run_from-runs}

-- How often it was called and succeeded.
abbrev pub ran_well : ℕ → List Event → ℕ
ran_well j [] = 0
ran_well j (ran i none ∷ es) = if i == j then suc (ran_well j es) else ran_well j es
ran_well j (ran i (some e) ∷ es) = ran_well j es
ran_well j (undid i e ∷ es) = ran_well j es

run_from-first :
    (redact : Err → String) (p : Pipeline) (s : Surroundings) (i : ℕ) (sts : List Step) (r : Run)
    → length r.cp.completed ≡ i
    → 0 < length sts
    → suc (runs i r.events) ≤ runs i (run_from redact p s i sts r).0.events
unfolding run_from save
run_from-first redact p s i [] r eq some_left = ground (arith, some_left)
run_from-first redact p s i (st ∷ sts) r eq some_left =
    let a = s.forward i in
    let called_once = called (ran i (call st a)) a.change r in
    elim (Option-cases (call st a)) [
      | inl n ↦
          let r' = (save a.persisted (completed_with st a.at called_once)).0 in
          let grown : length r'.cp.completed ≡ i + 1 =
            omega (
              arith,
              eq,
              length-append r.cp.completed (record { step = st.name; at = a.at } ∷ []),
            ) in
          ground (arith, n, run_from-runs redact p s (i + 1) sts r' i grown)
      | inr (e, n) ↦ ground (arith, n, failed-runs redact p s st a e called_once i)
    ]

-- A run that goes forward calls the first step that is not recorded as completed, if there is one.
pub advance-first :
    (redact : Err → String) (p : Pipeline) (s : Surroundings) (r : Run)
    → str_eq r.cp.phase phase_compensating ≡ false
    → length r.cp.completed < length p.steps
    → suc (runs (length r.cp.completed) r.events)
      ≤ runs (length r.cp.completed) (advance redact p s r).0.events
unfolding advance
advance-first redact p s r forward some_left =
    let n = length r.cp.completed in
    let left : 0 < length (drop n p.steps) = omega (arith, length-drop n p.steps, some_left) in
    rw (forward) (run_from-first redact p s n (drop n p.steps) r refl left)

undo_below-ran_well :
    (p : Pipeline) (s : Surroundings) (gone : List String) (n : ℕ) (r : Run) (j : ℕ)
    → ran_well j (undo_below p s gone n r).0.events ≡ ran_well j r.events
unfolding undo_below save
undo_below-ran_well p s gone zero r j = refl
undo_below-ran_well p s gone (suc i) r j = elim (Option-cases (get_elem? p.steps i)) [
  | inl n ↦ ground (arith, undo_below-ran_well p s gone i r j)
  | inr (st, e) ↦
      let a = s.backward i in
      let r' = (save a.persisted (undone st (called (undid i (call st a)) a.change r))).0 in
      ground (arith, undo_below-ran_well p s gone i r j, undo_below-ran_well p s gone i r' j)
]

failed-ran_well :
    (redact : Err → String) (p : Pipeline) (s : Surroundings) (st : Step) (a : Around) (err : Err)
    (r : Run) (j : ℕ)
    → ran_well j (failed redact p s st a err r).0.events ≡ ran_well j r.events
unfolding failed save compensate
failed-ran_well redact p s st a err r j =
    let e = classify a.ctx st err in
    let r' = (save s.turning (turned redact st e r)).0 in
    ground (arith, undo_below-ran_well p s r'.cp.compensated (length r'.cp.completed) r' j)

-- From index `i`, each step that is then completed was called once with success, and no other was.
run_from-ran_well :
    (redact : Err → String) (p : Pipeline) (s : Surroundings) (i : ℕ) (sts : List Step) (r : Run)
    (j : ℕ)
    → length r.cp.completed ≡ i
    → let r' = (run_from redact p s i sts r).0 in
      ran_well j r'.events ≡ ran_well j r.events + hit i (length r'.cp.completed) j
unfolding run_from save
run_from-ran_well redact p s i [] r j eq = ground (arith, eq)
run_from-ran_well redact p s i (st ∷ sts) r j eq =
    let a = s.forward i in
    let called_once = called (ran i (call st a)) a.change r in
    let within = run_from-runs redact p s (i + 1) sts in
    elim (Option-cases (call st a)) [
      | inl n ↦
          let r' = (save a.persisted (completed_with st a.at called_once)).0 in
          let grown : length r'.cp.completed ≡ i + 1 =
            omega (
              arith,
              eq,
              length-append r.cp.completed (record { step = st.name; at = a.at } ∷ []),
            ) in
          ground (
            arith,
            n,
            grown,
            within r' j grown,
            run_from-ran_well redact p s (i + 1) sts r' j grown,
          )
      | inr (e, eq') ↦ ground (
        arith,
        eq,
        eq',
        failed-ran_well redact p s st a e called_once j,
        failed-runs redact p s st a e called_once j,
      )
    ]

-- A run calls with success just the steps that it records as completed, each once.
pub advance-ran_well :
    (redact : Err → String) (p : Pipeline) (s : Surroundings) (r : Run) (j : ℕ)
    → let r' = (advance redact p s r).0 in
      ran_well j r'.events
      ≡ ran_well j r.events + hit (length r.cp.completed) (length r'.cp.completed) j
unfolding advance compensate
advance-ran_well redact p s r j =
    let n = length r.cp.completed in
    ground (
      arith,
      undo_below-runs p s r.cp.compensated n r j,
      undo_below-ran_well p s r.cp.compensated n r j,
      run_from-ran_well redact p s n (drop n p.steps) r j refl,
    )
