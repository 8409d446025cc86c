-- ===== src/Pipeline/Rewind/Resumes.antt =====
-- pipeline/pipeline.go: where a rewound record resumes.
use Prim.Native.String.{String}
use text.Mathlib.Text.{◌==◌ as str_eq}
use go_guard_lib.Prelude.{
  ℕ, zero, suc, ◌-◌, ◌≤◌, ◌<◌, ◌≡◌, refl, subst, ap, Bool, true, false, Option, none, some, List,
  [], ◌∷◌, length, take, get_elem?, arith, Option-cases, inl, inr, ltb,
}
use go_guard_lib.Errors.{Err}
use go_guard_lib.Dlq.Record.{Bytes}
use go_guard_lib.Dlq.Memory.{read}
use go_guard_lib.Pipeline.{
  Step, Pipeline, Checkpoint, DoneStep, load, Loaded, loaded, mismatched, decoded, new_checkpoint,
  names_fit,
}
use go_guard_lib.Pipeline.Run.{Surroundings, advance, fresh}
use go_guard_lib.Pipeline.Run.Once.{runs, hit, advance-runs}
use go_guard_lib.Pipeline.Run.Well.{ran_well, advance-ran_well, advance-first}
use go_guard_lib.Pipeline.Run.Fits.{fits, fits-check_loaded, load-encode, new_checkpoint-fits}
use go_guard_lib.Pipeline.Rewind.{step_index, rewound_to, rewind, any_undone}

abbrev pub is_named : String → Option Step → Bool
is_named name none = false
is_named name (some st) = str_eq st.name name

step_index-is_named :
    (name : String) (k : ℕ) (sts : List Step) (j : ℕ)
    → step_index name k sts ≡ some j
    → (k ≤ j) × (is_named name (get_elem? sts (j - k)) ≡ true)
unfolding step_index
step_index-is_named name k [] j e = ground (arith, e)
step_index-is_named name k (st ∷ sts) j e = elim (Option-cases (step_index name (suc k) sts)) [
  | inl n ↦
      let here : j ≡ k = ground (arith, n, e) in
      let zeroth : j - k ≡ 0 = omega (arith, here) in
      (omega (arith, here), rw (zeroth) (ground (arith, n, e)))
  | inr (i, n) ↦
      let same : i ≡ j = ground (arith, n, e) in
      let later = step_index-is_named name (suc k) sts i n in
      let next : j - k ≡ suc (i - suc k) = ground (arith, later, same) in
      (omega (arith, later.0, same), rw (next) later.1)
]

length-take : {A : Type 0} (n : ℕ) (xs : List A) → n ≤ length xs → length (take n xs) ≡ n
length-take zero xs e = refl
length-take (suc n) [] e = omega (arith, e)
length-take (suc n) (x ∷ xs) e = omega (arith, e, length-take n xs (omega (arith, e)))

names_fit-take :
    (n : ℕ) (ds : List DoneStep) (sts : List Step)
    → names_fit ds sts ≡ true
    → names_fit (take n ds) sts ≡ true
names_fit-take zero ds sts e = refl
names_fit-take (suc n) [] sts e = refl
names_fit-take (suc n) (d ∷ ds) [] e = ground (arith, e)
names_fit-take (suc n) (d ∷ ds) (st ∷ sts) e = ground (arith, e, names_fit-take n ds sts)

rewound_to-fits :
    (p : Pipeline) (c : Checkpoint) (i : ℕ) → fits p c ≡ true → fits p (rewound_to i c) ≡ true
unfolding rewound_to
rewound_to-fits p c i f = ground (arith, f, names_fit-take i c.completed p.steps)

abbrev loaded_or : Checkpoint → Loaded → Checkpoint
loaded_or c (loaded d) = d
loaded_or c (mismatched e) = c

load-fits :
    (decode : List ℕ → Option Checkpoint) (p : Pipeline) (raw : Bytes) (c : Checkpoint)
    → load decode p raw ≡ loaded c
    → fits p c ≡ true
unfolding load new_checkpoint
load-fits decode p none c e =
    subst (λ d. fits p d ≡ true) (ap (loaded_or c) e) (new_checkpoint-fits p)
load-fits decode p (some []) c e =
    subst (λ d. fits p d ≡ true) (ap (loaded_or c) e) (new_checkpoint-fits p)
load-fits decode p (some (b ∷ bs)) c e = elim (Option-cases (decode (b ∷ bs))) [
  | inl n ↦ ground (arith, n, e)
  | inr (d, n) ↦
      let f : (fits p d ≡ true) × (d ≡ c) =
        fits-check_loaded p d c (subst (λ o. decoded p o ≡ loaded c) n e) in
      subst (λ d. fits p d ≡ true) f.1 f.0
]

step_index-at :
    (name : String) (sts : List Step) (i : ℕ)
    → step_index name 0 sts ≡ some i
    → is_named name (get_elem? sts i) ≡ true
step_index-at name sts i e =
    let same : i - 0 ≡ i = omega arith in
    subst (λ k. is_named name (get_elem? sts k) ≡ true) same (step_index-is_named name 0 sts i e).1

rewind-read :
    (decode : List ℕ → Option Checkpoint) (encode : Checkpoint → List ℕ) (p : Pipeline)
    (raw : Bytes) (to_step : String) (c : Checkpoint) (i : ℕ)
    → load decode p raw ≡ loaded c
    → step_index to_step 0 p.steps ≡ some i
    → i ≤ length c.completed
    → any_undone c.compensated (take i c.completed) ≡ false
    → rewind decode encode p raw to_step ≡ read (encode (rewound_to i c))
unfolding rewind
rewind-read decode encode p raw to_step c i l at reached whole =
    let within : ltb (length c.completed) i ≡ false = ground (arith, reached) in
    rw (l, at, within, whole) refl

rewound_to-runs :
    (redact : Err → String) (p : Pipeline) (c : Checkpoint) (i : ℕ) (s : Surroundings) (j : ℕ)
    → i ≤ length c.completed
    → let r = (advance redact p s (fresh false (rewound_to i c))).0 in
      (ran_well j r.events ≡ hit i (length r.cp.completed) j)
      × (runs j r.events ≤ hit i (suc (length r.cp.completed)) j)
unfolding rewound_to
rewound_to-runs redact p c i s j reached = ground (
  arith,
  length-take i c.completed reached,
  advance-runs redact p s (fresh false (rewound_to i c)) j,
  advance-ran_well redact p s (fresh false (rewound_to i c)) j,
)

-- Wherever the checkpoint was, in a turned back run too, the run goes forward from the step.
rewound_to-first :
    (redact : Err → String) (p : Pipeline) (c : Checkpoint) (i : ℕ) (s : Surroundings)
    → i ≤ length c.completed
    → i < length p.steps
    → 1 ≤ runs i (advance redact p s (fresh false (rewound_to i c))).0.events
unfolding rewound_to
rewound_to-first redact p c i s reached within =
    let n : length (take i c.completed) ≡ i = length-take i c.completed reached in
    let left : length (take i c.completed) < length p.steps = omega (arith, n, within) in
    subst
      (λ k. suc (runs k []) ≤ runs k (advance redact p s (fresh false (rewound_to i c))).0.events) n
      (advance-first redact p s (fresh false (rewound_to i c)) refl left)

is_named-within :
    (name : String) (sts : List Step) (i : ℕ)
    → is_named name (get_elem? sts i) ≡ true
    → i < length sts
is_named-within name [] i e = ground (arith, e)
is_named-within name (st ∷ sts) zero e = omega arith
is_named-within name (st ∷ sts) (suc i) e = omega (arith, is_named-within name sts i e)

-- A record that is rewound to a step it has reached, with nothing undone before it, resumes there, also
-- if it had turned back: that step is called, no earlier one is, no step is called twice, and for each
-- step that is then completed the call succeeded.
pub rewind-resumes :
    (redact : Err → String) (decode : List ℕ → Option Checkpoint) (encode : Checkpoint → List ℕ)
    (p : Pipeline) (raw : Bytes) (to_step : String) (c : Checkpoint) (i : ℕ)
    → load decode p raw ≡ loaded c
    → step_index to_step 0 p.steps ≡ some i
    → i ≤ length c.completed
    → any_undone c.compensated (take i c.completed) ≡ false
    → (¬ encode (rewound_to i c) ≡ [])
    → decode (encode (rewound_to i c)) ≡ some (rewound_to i c)
    → (s : Surroundings) (j : ℕ)
    → let c' = rewound_to i c in
      let r = (advance redact p s (fresh false c')).0 in
      (rewind decode encode p raw to_step ≡ read (encode c'))
      × (load decode p (some (encode c')) ≡ loaded c')
      × (is_named to_step (get_elem? p.steps i) ≡ true)
      × (1 ≤ runs i r.events)
      × (ran_well j r.events ≡ hit i (length r.cp.completed) j)
      × (runs j r.events ≤ hit i (suc (length r.cp.completed)) j)
unfolding rewind
rewind-resumes redact decode encode p raw to_step c i l at reached whole filled back s j =
    let c' = rewound_to i c in
    let f = rewound_to-fits p c i (load-fits decode p raw c l) in
    let ran = rewound_to-runs redact p c i s j reached in
    (
      rewind-read decode encode p raw to_step c i l at reached whole,
      load-encode decode p c' (encode c') filled back f,
      step_index-at to_step p.steps i at,
      rewound_to-first redact p c i s reached
          (is_named-within to_step p.steps i (step_index-at to_step p.steps i at)),
      ran.0,
      ran.1,
    )
