-- ===== src/Pipeline/Run/Undone.antt =====
-- pipeline/pipeline.go: what `compensate` undoes, and in which order.
use Prim.Native.String.{String}
use go_guard_lib.Prelude.{
  ℕ, zero, suc, ◌+◌, ◌≤◌, ◌≡◌, refl, ◌∙◌, sym, ap, Bool, true, false, ◌&&◌, not, if◌then◌else◌, ltb,
  leb, ◌==◌, Option, none, some, List, [], ◌∷◌, length, get_elem?, arith, Option-cases, Bool-cases,
  inl, inr, mem_str,
}
use go_guard_lib.Errors.{Err, is_permanent, any_link, permanent_error, plain}
use go_guard_lib.Pipeline.{Step, Pipeline, Checkpoint}
use go_guard_lib.Pipeline.Run.{
  fresh, Event, ran, undid, Run, Surroundings, call, classify, save, called, undone, compensate,
  undo_below, undo_failed,
}

-- How often the `Compensate` of the step at `j` was called.
abbrev pub undos : ℕ → List Event → ℕ
undos j [] = 0
undos j (ran i e ∷ es) = undos j es
undos j (undid i e ∷ es) = if i == j then suc (undos j es) else undos j es

-- How often it was called and succeeded.
abbrev pub undone_well : ℕ → List Event → ℕ
undone_well j [] = 0
undone_well j (ran i e ∷ es) = undone_well j es
undone_well j (undid i none ∷ es) = if i == j then suc (undone_well j es) else undone_well j es
undone_well j (undid i (some e) ∷ es) = undone_well j es

-- The latest events, newest first, undo steps at ascending indices from `n`.
abbrev pub backward_from : ℕ → List Event → Bool
backward_from n [] = true
backward_from n (ran i e ∷ es) = true
backward_from n (undid i e ∷ es) = leb n i && backward_from (suc i) es

-- Whether the step can be undone and is not in `gone`.
abbrev is_owed : List String → Option Step → Bool
is_owed gone none = false
is_owed gone (some st) = st.compensates && not (mem_str st.name gone)

-- One if the step at `j` is one of the first `n` and is to be undone, the names in `gone` being so.
abbrev pub owed : Pipeline → List String → ℕ → ℕ → ℕ
owed p gone n j = if ltb j n && is_owed gone (get_elem? p.steps j) then 1 else 0

backward_from-suc :
    (n : ℕ) (es : List Event) → backward_from (suc n) es ≡ true → backward_from n es ≡ true
backward_from-suc n [] e = refl
backward_from-suc n (ran i x ∷ es) e = refl
backward_from-suc n (undid i x ∷ es) e = ground (arith, e)

undo_below-order :
    (p : Pipeline) (s : Surroundings) (gone : List String) (n : ℕ) (r : Run)
    → backward_from n r.events ≡ true
    → backward_from 0 (undo_below p s gone n r).0.events ≡ true
unfolding undo_below save
undo_below-order p s gone zero r e = e
undo_below-order p s gone (suc i) r e = elim (Option-cases (get_elem? p.steps i)) [
  | inl n ↦ ground (arith, n, e, backward_from-suc i r.events e, undo_below-order p s gone i r)
  | inr (st, eq) ↦
      let a = s.backward i in
      let r' = (save a.persisted (undone st (called (undid i (call st a)) a.change r))).0 in
      ground (
        arith,
        eq,
        e,
        backward_from-suc i r.events e,
        undo_below-order p s gone i r,
        undo_below-order p s gone i r',
      )
]

undo_below-undos :
    (p : Pipeline) (s : Surroundings) (gone : List String) (n : ℕ) (r : Run) (j : ℕ)
    → (undos j r.events ≤ undos j (undo_below p s gone n r).0.events)
      × (undos j (undo_below p s gone n r).0.events ≤ undos j r.events + owed p gone n j)
unfolding undo_below save
undo_below-undos p s gone zero r j = ground arith
undo_below-undos p s gone (suc i) r j = elim (Option-cases (get_elem? p.steps i)) [
  | inl n ↦ ground (arith, n, undo_below-undos p s gone i r j)
  | inr (st, eq) ↦
      let a = s.backward i in
      let r' = (save a.persisted (undone st (called (undid i (call st a)) a.change r))).0 in
      ground (arith, eq, undo_below-undos p s gone i r j, undo_below-undos p s gone i r' j)
]

owed-suc :
    (p : Pipeline) (gone : List String) (i j : ℕ) (o : Option Step)
    → get_elem? p.steps i ≡ o
    → owed p gone (suc i) j ≡ owed p gone i j + (if i == j && is_owed gone o then 1 else 0)
owed-suc p gone i j o e = elim (Bool-cases (i == j)) [
  | inl same ↦
      let eq : i ≡ j = ground (arith, same) in
      let at : get_elem? p.steps j ≡ o = sym (ap (get_elem? p.steps) eq) ∙ e in
      ground (arith, same, eq, at)
  | inr differ ↦ ground (arith, differ)
]

undo_failed-differs : (e : Err) → ¬ undo_failed e ≡ permanent_error (plain 23)
unfolding is_permanent any_link
undo_failed-differs e eq = elim (Bool-cases (is_permanent e)) [
  | inl p ↦ ground (arith, p, eq)
  | inr n ↦
      let same : e ≡ permanent_error (plain 23) = ground (arith, n, eq) in
      let is : is_permanent e ≡ true = rw (same) refl in ground (arith, is, n)
]

undo_below_complete :
    (p : Pipeline) (s : Surroundings) (gone : List String) (n : ℕ) (r : Run) (j : ℕ)
    → (undo_below p s gone n r).1 ≡ some (permanent_error (plain 23))
    → undone_well j (undo_below p s gone n r).0.events ≡ undone_well j r.events + owed p gone n j
unfolding undo_below save classify
undo_below_complete p s gone zero r j e = ground arith
undo_below_complete p s gone (suc i) r j e = elim (Option-cases (get_elem? p.steps i)) [
  | inl n ↦ ground (arith, n, e, owed-suc p gone i j none n, undo_below_complete p s gone i r j)
  | inr (st, eq) ↦
      let a = s.backward i in
      let r' = (save a.persisted (undone st (called (undid i (call st a)) a.change r))).0 in
      let o = owed-suc p gone i j (some st) eq in
      let skipped = undo_below_complete p s gone i r j in
      elim (Option-cases (call st a)) [
        | inl n ↦ ground (arith, eq, e, o, n, skipped, undo_below_complete p s gone i r' j)
        | inr (err, n) ↦
            ground (arith, eq, e, o, n, skipped, undo_failed-differs (classify a.ctx st err))
      ]
]

-- When a stored record that turned back is resumed, the `Compensate` of a step is called at most once,
-- and only of a step that is recorded as completed, can be undone and is not recorded as compensated;
-- and the calls go backwards. A call is all the attempts that the step's policy allows.
pub compensate-undos :
    (p : Pipeline) (s : Surroundings) (c : Checkpoint) (j : ℕ)
    → let es = (compensate p s (fresh false c)).0.events in
      (undos j es ≤ owed p c.compensated (length c.completed) j) × (backward_from 0 es ≡ true)
unfolding compensate
compensate-undos p s c j =
    let r = fresh false c in
    let n = length c.completed in
    ground
      (arith, undo_below-undos p s c.compensated n r j, undo_below-order p s c.compensated n r refl)

-- If it reports that it has undone what it can, then for each step that is recorded as completed, can
-- be undone and is not recorded as compensated, a call of its `Compensate` succeeded.
pub compensate_complete :
    (p : Pipeline) (s : Surroundings) (c : Checkpoint) (j : ℕ)
    → (compensate p s (fresh false c)).1 ≡ some (permanent_error (plain 23))
    → undone_well j (compensate p s (fresh false c)).0.events
      ≡ owed p c.compensated (length c.completed) j
unfolding compensate
compensate_complete p s c j e =
    omega (arith, undo_below_complete p s c.compensated (length c.completed) (fresh false c) j e)
