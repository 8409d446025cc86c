-- ===== src/Pipeline/Run/Resume.antt =====
-- pipeline/pipeline.go: a stored record that is resumed any number of times.
use Prim.Native.String.{String}
use go_guard_lib.Prelude.{
  ℕ, suc, ◌+◌, ◌*◌, ◌≤◌, ◌≡◌, refl, false, none, some, List, [], ◌∷◌, ◌++◌, length, arith,
}
use go_guard_lib.Errors.{Err}
use go_guard_lib.Pipeline.{Pipeline, Checkpoint}
use go_guard_lib.Pipeline.Run.{Event, ran, undid, Surroundings, stored, fresh, advance, resume_each}
use go_guard_lib.Pipeline.Run.Once.{runs, hit, advance-runs}
use go_guard_lib.Pipeline.Run.Well.{ran_well, advance-ran_well}
use go_guard_lib.Pipeline.Run.Saved.{advance-stored}

runs-append : (j : ℕ) (xs ys : List Event) → runs j (xs ++ ys) ≡ runs j xs + runs j ys
runs-append j [] ys = omega arith
runs-append j (ran i e ∷ xs) ys = ground (arith, runs-append j xs ys)
runs-append j (undid i e ∷ xs) ys = ground (arith, runs-append j xs ys)

ran_well-append :
    (j : ℕ) (xs ys : List Event) → ran_well j (xs ++ ys) ≡ ran_well j xs + ran_well j ys
ran_well-append j [] ys = omega arith
ran_well-append j (ran i none ∷ xs) ys = ground (arith, ran_well-append j xs ys)
ran_well-append j (ran i (some e) ∷ xs) ys = ground (arith, ran_well-append j xs ys)
ran_well-append j (undid i e ∷ xs) ys = ground (arith, ran_well-append j xs ys)

-- However often a stored record is resumed, a step that is stored as completed is not called again, and
-- for a step that becomes so, a call succeeded. A step is called at most as often as there are
-- resumptions, and not at all if it is beyond the first one that is not stored as completed at the end.
-- A call of a step is all the attempts at its `Run` that its policy allows, which may be several.
pub resume_each-runs :
    (redact : Err → String) (p : Pipeline) (c : Checkpoint) (ss : List Surroundings) (j : ℕ)
    → let (c', es) = resume_each redact p c ss in
      (hit (length c.completed) (length c'.completed) j ≤ ran_well j es)
      × (runs j es ≤ hit (length c.completed) (suc (length c'.completed)) j * length ss)
      × (length c.completed ≤ length c'.completed)
unfolding resume_each
resume_each-runs redact p c [] j = ground arith
resume_each-runs redact p c (s ∷ ss) j =
    let r = (advance redact p s (fresh false c)).0 in
    let c₁ = stored c r.saves in
    ground (
      arith,
      runs-append j (resume_each redact p c₁ ss).1 r.events,
      ran_well-append j (resume_each redact p c₁ ss).1 r.events,
      advance-runs redact p s (fresh false c) j,
      advance-ran_well redact p s (fresh false c) j,
      advance-stored redact p s (fresh false c) j refl refl,
      resume_each-runs redact p c₁ ss j,
    )
