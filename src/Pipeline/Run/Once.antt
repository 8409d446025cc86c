-- ===== src/Pipeline/Run/Once.antt =====
-- pipeline/pipeline.go: which steps a run calls, and how often.
use Prim.Native.String.{String}
use go_guard_lib.Prelude.{
  ℕ, zero, suc, ◌+◌, ◌≤◌, ◌≡◌, refl, ◌&&◌, if◌then◌else◌, ltb, leb, ◌==◌, List, [], ◌∷◌, length,
  length-append, get_elem?, drop, arith, Option-cases, inl, inr,
}
use go_guard_lib.Errors.{Err}
use go_guard_lib.Pipeline.{Step, Pipeline}
use go_guard_lib.Pipeline.Run.{
  Event, ran, undid, Run, Around, Surroundings, call, classify, save, called, undone,
  completed_with, turned, failed, compensate, undo_below, run_from, advance,
}

-- How often the `Run` of the step at `j` was called.
abbrev pub runs : ℕ → List Event → ℕ
runs j [] = 0
runs j (ran i e ∷ es) = if i == j then suc (runs j es) else runs j es
runs j (undid i e ∷ es) = runs j es

-- Undoing runs no step and completes none.
pub undo_below-runs :
    (p : Pipeline) (s : Surroundings) (gone : List String) (n : ℕ) (r : Run) (j : ℕ)
    → let r' = (undo_below p s gone n r).0 in
      (runs j r'.events ≡ runs j r.events) × (r'.cp.completed ≡ r.cp.completed)
unfolding undo_below save
undo_below-runs p s gone zero r j = (refl, refl)
undo_below-runs p s gone (suc i) r j = elim (Option-cases (get_elem? p.steps i)) [
  | inl n ↦ ground (arith, undo_below-runs p s gone i r j)
  | inr (st, e) ↦
      let a = s.backward i in
      let r' = (save a.persisted (undone st (called (undid i (call st a)) a.change r))).0 in
      ground (arith, undo_below-runs p s gone i r j, undo_below-runs p s gone i r' j)
]

-- One if `j` is at least `from` and below `to`.
abbrev pub hit : ℕ → ℕ → ℕ → ℕ
hit from to j = if leb from j && ltb j to then 1 else 0

pub failed-runs :
    (redact : Err → String) (p : Pipeline) (s : Surroundings) (st : Step) (a : Around) (err : Err)
    (r : Run) (j : ℕ)
    → let r' = (failed redact p s st a err r).0 in
      (runs j r'.events ≡ runs j r.events) × (r'.cp.completed ≡ r.cp.completed)
unfolding failed save compensate
failed-runs redact p s st a err r j =
    let e = classify a.ctx st err in
    let r' = (save s.turning (turned redact st e r)).0 in
    ground (arith, undo_below-runs p s r'.cp.compensated (length r'.cp.completed) r' j)

-- From index `i`, each step up to the last completed one is called once, and the one after it at most
-- once.
pub run_from-runs :
    (redact : Err → String) (p : Pipeline) (s : Surroundings) (i : ℕ) (sts : List Step) (r : Run)
    (j : ℕ)
    → length r.cp.completed ≡ i
    → let r' = (run_from redact p s i sts r).0 in
      let n = length r'.cp.completed in
      (runs j r.events + hit i n j ≤ runs j r'.events)
      × (runs j r'.events ≤ runs j r.events + hit i (suc n) j)
      × (i ≤ n)
unfolding run_from save
run_from-runs redact p s i [] r j eq = ground arith
run_from-runs redact p s i (st ∷ sts) r j eq = elim (Option-cases (call st (s.forward i))) [
  | inl n ↦
      let a = s.forward i in
      let r' =
        (save a.persisted (completed_with st a.at (called (ran i (call st a)) a.change r))).0 in
      let grown : length r'.cp.completed ≡ i + 1 =
        omega
          (arith, eq, length-append r.cp.completed (record { step = st.name; at = a.at } ∷ [])) in
      ground (arith, n, grown, run_from-runs redact p s (i + 1) sts r' j grown)
  | inr (e, eq') ↦ ground (
    arith,
    eq,
    failed-runs redact p s st (s.forward i) e
        (called (ran i (call st (s.forward i))) (s.forward i).change r) j,
  )
]

-- A run from wherever its checkpoint says calls no step that is recorded as completed. Each step it
-- records as completed is called once, the one after those at most once, and no other.
pub advance-runs :
    (redact : Err → String) (p : Pipeline) (s : Surroundings) (r : Run) (j : ℕ)
    → let r' = (advance redact p s r).0 in
      let n = length r'.cp.completed in
      (runs j r.events + hit (length r.cp.completed) n j ≤ runs j r'.events)
      × (runs j r'.events ≤ runs j r.events + hit (length r.cp.completed) (suc n) j)
      × (length r.cp.completed ≤ n)
unfolding advance compensate
advance-runs redact p s r j =
    let n = length r.cp.completed in
    ground (
      arith,
      undo_below-runs p s r.cp.compensated n r j,
      run_from-runs redact p s n (drop n p.steps) r j refl,
    )
