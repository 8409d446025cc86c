-- ===== src/Pipeline/Run/Saved.antt =====
-- pipeline/pipeline.go: what a stored run leaves in the store, and what resuming from it runs again.
use Prim.Native.String.{String}
use go_guard_lib.Prelude.{
  ℕ, zero, suc, ◌+◌, ◌≤◌, ◌≡◌, refl, false, List, [], ◌∷◌, length, length-append, get_elem?, drop,
  arith, Option-cases, inl, inr,
}
use go_guard_lib.Errors.{Err}
use go_guard_lib.Pipeline.{Step, Pipeline, Checkpoint}
use go_guard_lib.Pipeline.Run.{
  stored, ran, undid, Run, Around, Surroundings, call, classify, save, called, undone,
  completed_with, turned, failed, compensate, undo_below, run_from, advance,
}
use go_guard_lib.Pipeline.Run.Once.{runs, hit, undo_below-runs, failed-runs}

undo_below-stored :
    (p : Pipeline) (s : Surroundings) (gone : List String) (n : ℕ) (r : Run) (c : Checkpoint)
    → (stored c r.saves).completed ≡ r.cp.completed
    → (stored c (undo_below p s gone n r).0.saves).completed ≡ r.cp.completed
unfolding undo_below save
undo_below-stored p s gone zero r c eq = eq
undo_below-stored p s gone (suc i) r c eq = elim (Option-cases (get_elem? p.steps i)) [
  | inl n ↦ ground (arith, eq, undo_below-stored p s gone i r c)
  | inr (st, e) ↦
      let a = s.backward i in
      let r' = (save a.persisted (undone st (called (undid i (call st a)) a.change r))).0 in
      ground (arith, eq, undo_below-stored p s gone i r c, undo_below-stored p s gone i r' c)
]

failed-stored :
    (redact : Err → String) (p : Pipeline) (s : Surroundings) (st : Step) (a : Around) (err : Err)
    (r : Run) (c : Checkpoint)
    → (stored c r.saves).completed ≡ r.cp.completed
    → (stored c (failed redact p s st a err r).0.saves).completed ≡ r.cp.completed
unfolding failed save compensate
failed-stored redact p s st a err r c eq =
    let e = classify a.ctx st err in
    let r' = (save s.turning (turned redact st e r)).0 in
    ground (arith, eq, undo_below-stored p s r'.cp.compensated (length r'.cp.completed) r' c)

run_from-stored :
    (redact : Err → String) (p : Pipeline) (s : Surroundings) (i : ℕ) (sts : List Step) (r : Run)
    (j : ℕ) (c : Checkpoint)
    → r.is_live ≡ false
    → length r.cp.completed ≡ i
    → (stored c r.saves).completed ≡ r.cp.completed
    → let r' = (run_from redact p s i sts r).0 in
      let n = length (stored c r'.saves).completed in
      (runs j r'.events ≤ runs j r.events + hit i (suc n) j)
      × (i ≤ n)
      × (n ≤ length r'.cp.completed)
unfolding run_from save
run_from-stored redact p s i [] r j c kept at eq =
    let same : length (stored c r.saves).completed ≡ i = (rw (eq) at) in ground (arith, same)
run_from-stored redact p s i (st ∷ sts) r j c kept at eq =
    elim (Option-cases (call st (s.forward i))) [
      | inl n ↦
          let a = s.forward i in
          let r' =
            (save a.persisted (completed_with st a.at (called (ran i (call st a)) a.change r))).0 in
          let grown : length r'.cp.completed ≡ i + 1 =
            omega (
              arith,
              at,
              length-append r.cp.completed (record { step = st.name; at = a.at } ∷ []),
            ) in
          let same : length (stored c r.saves).completed ≡ i = (rw (eq) at) in
          elim (Option-cases a.persisted) [
            | inl n' ↦ ground (
              arith,
              n,
              n',
              kept,
              grown,
              run_from-stored redact p s (i + 1) sts r' j c kept grown (rw (kept, n') refl),
            )
            | inr (e, n') ↦ ground (arith, n, n', kept, same)
          ]
      | inr (e, eq') ↦
          let a = s.forward i in
          let r' = called (ran i (call st a)) a.change r in
          ground (
            arith,
            eq,
            at,
            failed-runs redact p s st a e r' j,
            failed-stored redact p s st a e r' c eq,
          )
    ]

-- A run of a stored record, and how it stops. What the store then holds is where the next one resumes.
pub advance-stored :
    (redact : Err → String) (p : Pipeline) (s : Surroundings) (r : Run) (j : ℕ)
    → r.is_live ≡ false
    → r.saves ≡ []
    → let r' = (advance redact p s r).0 in
      let n = length (stored r.cp r'.saves).completed in
      (runs j r'.events ≤ runs j r.events + hit (length r.cp.completed) (suc n) j)
      × (length r.cp.completed ≤ n)
      × (n ≤ length r'.cp.completed)
unfolding advance compensate
advance-stored redact p s r j kept unsaved =
    let n = length r.cp.completed in
    let synced : (stored r.cp r.saves).completed ≡ r.cp.completed = rw (unsaved) refl in
    ground (
      arith,
      undo_below-runs p s r.cp.compensated n r j,
      undo_below-stored p s r.cp.compensated n r r.cp synced,
      run_from-stored redact p s n (drop n p.steps) r j r.cp kept refl synced,
    )
