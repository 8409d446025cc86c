-- ===== src/Pipeline/Names.antt =====
-- pipeline/pipeline.go: what `New` makes sure of.
use Prim.Native.String.{String}
use text.Mathlib.Text.{◌==◌ as str_eq}
use go_guard_lib.Prelude.{◌≡◌, ◌==◌, Bool, true, ◌&&◌, not, List, [], ◌∷◌, map, mem_str}
use go_guard_lib.Pipeline.{
  Step, Pipeline, Built, built, not_built, New, pipeline, needs_name, needs_steps, bad_step,
}

-- No name is empty, and none is one of those before it.
abbrev pub are_distinct : List String → List String → Bool
are_distinct seen [] = true
are_distinct seen (x ∷ xs) = not (str_eq x "") && not (mem_str x seen) && are_distinct (x ∷ seen) xs

-- Each step can be run.
abbrev pub all_run : List Step → Bool
all_run [] = true
all_run (st ∷ sts) = st.has_run && all_run sts

abbrev IsBuilt : List String → List Step → Built → Type 0
IsBuilt seen sts (not_built e) = Unit
IsBuilt seen sts (built out owned) =
    (map (λ st. st.name) out ≡ map (λ st. st.name) sts)
    × (are_distinct seen (map (λ st. st.name) sts) ≡ true)
    × (all_run out ≡ true)

abbrev steps_or : List Step → New → List Step
steps_or d (pipeline p) = p.steps
steps_or d needs_name = d
steps_or d needs_steps = d
steps_or d (bad_step e) = d
