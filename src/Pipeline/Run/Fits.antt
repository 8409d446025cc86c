-- ===== src/Pipeline/Run/Fits.antt =====
-- pipeline/pipeline.go: the checkpoints of a pipeline, and that a run saves no others.
use Prim.Native.String.{String}
use text.Mathlib.Text.{◌==◌ as str_eq}
use text.Mathlib.TextPositions.{eq_refl}
use go_guard_lib.Prelude.{
  ℕ, zero, suc, ◌+◌, ◌≤◌, ◌≡◌, refl, Bool, true, ◌&&◌, ◌||◌, ◌==◌, Option, some, List, [], ◌∷◌,
  ◌++◌, length, length-append, get_elem?, drop, arith, Option-cases, Bool-cases, inl, inr, not,
  mem_str,
}
use go_guard_lib.Errors.{Err}
use go_guard_lib.Pipeline.{
  Step, DoneStep, Pipeline, Checkpoint, checkpoint_version, phase_forward, phase_compensating,
  names_fit, State, check_loaded, load, loaded, new_checkpoint,
}
use go_guard_lib.Pipeline.Run.{
  stored, Event, ran, undid, Run, Around, Surroundings, call, classify, save, called, undone,
  completed_with, turned, failed, compensate, undo_below, run_from, advance, in_checkpoint,
}

abbrev is_phase : String → Bool
is_phase ph = str_eq ph phase_forward || str_eq ph phase_compensating

-- Whether the pipeline accepts the checkpoint.
abbrev pub fits : Pipeline → Checkpoint → Bool
fits p c =
    (c.v == checkpoint_version)
    && str_eq c.pipeline p.name
    && is_phase c.phase
    && names_fit c.completed p.steps

names_fit-length :
    (ds : List DoneStep) (sts : List Step) → names_fit ds sts ≡ true → length ds ≤ length sts
names_fit-length [] sts e = omega arith
names_fit-length (d ∷ ds) [] e = ground (arith, e)
names_fit-length (d ∷ ds) (st ∷ sts) e = ground (arith, e, names_fit-length ds sts)

-- A checkpoint is loaded just if it fits.
pub check_loaded-fits :
    (p : Pipeline) (c : Checkpoint) → fits p c ≡ true → check_loaded p c ≡ loaded c
unfolding check_loaded
check_loaded-fits p c e = ground (arith, e, names_fit-length c.completed p.steps)

-- What is encoded is loaded, if it fits.
pub load-encode :
    (decode : List ℕ → Option Checkpoint) (p : Pipeline) (c : Checkpoint) (bs : List ℕ)
    → ¬ bs ≡ []
    → decode bs ≡ some c
    → fits p c ≡ true
    → load decode p (some bs) ≡ loaded c
unfolding load
load-encode decode p c [] filled back f = ground (arith, filled)
load-encode decode p c (b ∷ bs) filled back f = rw (back) (check_loaded-fits p c f)

pub fits-check_loaded :
    (p : Pipeline) (c d : Checkpoint) → check_loaded p c ≡ loaded d → (fits p c ≡ true) × (c ≡ d)
unfolding check_loaded
fits-check_loaded p c d e = ground (arith, e)

pub new_checkpoint-fits : (p : Pipeline) → fits p (new_checkpoint p) ≡ true
unfolding new_checkpoint
new_checkpoint-fits p = ground (arith, eq_refl p.name)

names_fit-snoc :
    (ds : List DoneStep) (sts rest : List Step) (st : Step) (at : ℕ)
    → names_fit ds sts ≡ true
    → drop (length ds) sts ≡ st ∷ rest
    → names_fit (ds ++ record { step = st.name; at = at } ∷ []) sts ≡ true
names_fit-snoc [] [] rest st at e eq = ground (arith, eq)
names_fit-snoc [] (x ∷ sts) rest st at e eq = ground (arith, eq, eq_refl st.name)
names_fit-snoc (d ∷ ds) [] rest st at e eq = ground (arith, eq)
names_fit-snoc (d ∷ ds) (x ∷ sts) rest st at e eq =
    ground (arith, eq, e, names_fit-snoc ds sts rest st at)

drop-suc :
    {A : Type 0} (n : ℕ) (xs rest : List A) (x : A) → drop n xs ≡ x ∷ rest → drop (suc n) xs ≡ rest
drop-suc zero [] rest x e = ground (arith, e)
drop-suc zero (y ∷ ys) rest x e = ground (arith, e)
drop-suc (suc n) [] rest x e = ground (arith, e)
drop-suc (suc n) (y ∷ ys) rest x e = drop-suc n ys rest x e

-- The phase of a run that turns back is one that fits.
turned-fits :
    (p : Pipeline) (c : Checkpoint)
    → fits p c ≡ true
    → fits p (record c { phase = phase_compensating }) ≡ true
turned-fits p c f = ground (arith, f)

-- A property that no undone step and no turn takes from the checkpoint is one of all that is stored.
module _ (q : Checkpoint → Bool)
    (undone-q : (r : Run) (st : Step) (ev : Event) (change : State → State)
      → q r.cp ≡ true
      → q (in_checkpoint (undone st (called ev change r))) ≡ true) where
  undo_below-keeps :
      (p : Pipeline) (s : Surroundings) (gone : List String) (n : ℕ) (r : Run) (c : Checkpoint)
      → q r.cp ≡ true
      → q (stored c r.saves) ≡ true
      → let r' = (undo_below p s gone n r).0 in (q (stored c r'.saves) ≡ true) × (q r'.cp ≡ true)
  unfolding undo_below save
  undo_below-keeps p s gone zero r c f eq = (eq, f)
  undo_below-keeps p s gone (suc i) r c f eq = elim (Option-cases (get_elem? p.steps i)) [
    | inl n ↦ ground (arith, f, eq, undo_below-keeps p s gone i r c)
    | inr (st, e) ↦
        let a = s.backward i in
        let r' = (save a.persisted (undone st (called (undid i (call st a)) a.change r))).0 in
        let f' = undone-q r st (undid i (call st a)) a.change f in
        let skipped = undo_below-keeps p s gone i r c f eq in
        elim (Bool-cases (not st.compensates || mem_str st.name gone)) [
          | inl t ↦ ground (arith, e, t, skipped)
          | inr n ↦ elim (Option-cases (call st a)) [
            | inl n' ↦ ground (arith, e, n, n', f', eq, undo_below-keeps p s gone i r' c)
            | inr (err, n') ↦ ground (arith, e, n, n', eq, f)
          ]
        ]
  ]

  failed-keeps :
      (redact : Err → String) (p : Pipeline) (s : Surroundings) (st : Step) (a : Around) (err : Err)
      (r : Run) (c : Checkpoint)
      → q r.cp ≡ true
      → q (in_checkpoint (turned redact st (classify a.ctx st err) r)) ≡ true
      → q (stored c r.saves) ≡ true
      → let r' = (failed redact p s st a err r).0 in
        (q (stored c r'.saves) ≡ true) × (q r'.cp ≡ true)
  unfolding failed save compensate
  failed-keeps redact p s st a err r c h f eq =
      let e = classify a.ctx st err in
      let r' = (save s.turning (turned redact st e r)).0 in
      ground (arith, h, f, eq, undo_below-keeps p s r'.cp.compensated (length r'.cp.completed) r' c)

run_from-fits :
    (redact : Err → String) (p : Pipeline) (s : Surroundings) (i : ℕ) (sts : List Step) (r : Run)
    (c : Checkpoint)
    → drop (length r.cp.completed) p.steps ≡ sts
    → fits p r.cp ≡ true
    → fits p (stored c r.saves) ≡ true
    → let r' = (run_from redact p s i sts r).0 in
      (fits p (stored c r'.saves) ≡ true) × (fits p r'.cp ≡ true)
unfolding run_from save
run_from-fits redact p s i [] r c left f eq = (eq, f)
run_from-fits redact p s i (st ∷ sts) r c left f eq = elim (Option-cases (call st (s.forward i))) [
  | inl n ↦
      let a = s.forward i in
      let r' =
        (save a.persisted (completed_with st a.at (called (ran i (call st a)) a.change r))).0 in
      let grown : length r'.cp.completed ≡ suc (length r.cp.completed) =
        omega (arith, length-append r.cp.completed (record { step = st.name; at = a.at } ∷ [])) in
      let left' : drop (length r'.cp.completed) p.steps ≡ sts =
        rw (grown) (drop-suc (length r.cp.completed) p.steps sts st left) in
      let f' : fits p r'.cp ≡ true =
        ground (arith, f, left, names_fit-snoc r.cp.completed p.steps sts st a.at) in
      ground (arith, n, f', eq, run_from-fits redact p s (i + 1) sts r' c left' f')
  | inr (e, eq') ↦
      let a = s.forward i in
      let r' = called (ran i (call st a)) a.change r in
      let f' : fits p (in_checkpoint (turned redact st (classify a.ctx st e) r')) ≡ true =
        turned-fits p r.cp f in
      ground (arith, eq', failed-keeps (fits p) (λ r st ev ch f. f) redact p s st a e r' c f f' eq)
]

-- What a run leaves in the store is a checkpoint that the pipeline accepts, and so is the one it ends
-- with.
pub advance-fits :
    (redact : Err → String) (p : Pipeline) (s : Surroundings) (r : Run)
    → fits p r.cp ≡ true
    → r.saves ≡ []
    → let r' = (advance redact p s r).0 in
      (fits p (stored r.cp r'.saves) ≡ true) × (fits p r'.cp ≡ true)
unfolding advance compensate
advance-fits redact p s r f unsaved =
    let n = length r.cp.completed in
    let f' : fits p (stored r.cp r.saves) ≡ true = rw (unsaved) f in
    ground (
      arith,
      undo_below-keeps (fits p) (λ r st ev ch f. f) p s r.cp.compensated n r r.cp f f',
      run_from-fits redact p s n (drop n p.steps) r r.cp refl f f',
    )
