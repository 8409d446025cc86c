-- ===== src/Engine/Rates.antt =====
-- internal/engine/engine.go: bounds on the rates, and what a rotation leaves of the window.
use native.Mathlib.Nat.{div-le_of_le-mul, mod-eq_of_lt, mod_self, lt-div-mul-add, le-div_iff_mul-le}
use go_guard_lib.Prelude.{
  ℕ, zero, suc, ◌+◌, ◌-◌, ◌*◌, ◌/◌, ◌%◌, ◌≤◌, ◌<◌, ◌≡◌, ◌⊎◌, ◌≢◌, ◌∙◌, ap, inl, inr, ltb, leb,
  if◌then◌else◌, min, length, get_or, List, [], ◌∷◌, set, refl, length-set, sum_by, arith, ltb→lt,
  Bool-cases,
}
use go_guard_lib.Engine.{
  Bucket, RollingWindow, empty_bucket, clear_next, clear, rotate, share_bps, failure_rate_bps,
  retry_rate_bps,
}
use go_guard_lib.Engine.Totals.{IsExact, clear_next-IsExact, clear-IsExact, next-lt}

share_bps-le : (part total : ℕ) → part ≤ total → share_bps part total ≤ 10000
share_bps-le part total h =
    ground (arith, div-le_of_le-mul total {m = part * 10000} {n = 10000} (omega arith))

-- The failure rate and the retry rate are between 0 and 10000 basis points, whatever the window
-- holds and whatever the clock reads.
pub rates_bounded :
    (w : RollingWindow) (now : ℕ)
    → ((failure_rate_bps w now).1 ≤ 10000) × (retry_rate_bps w ≤ 10000)
unfolding failure_rate_bps retry_rate_bps
rates_bounded w now = (share_bps-le _ _ (omega arith), share_bps-le _ _ (omega arith))

-- How many steps back from the head the bucket `i` is, in a ring of `n`.
abbrev age : ℕ → ℕ → ℕ → ℕ
age head n i = if leb i head then head - i else head + n - i

get_or-set :
    (bs : List Bucket) (i j : ℕ) (b : Bucket)
    → i < length bs
    → ((i ≡ j) × (get_or (set bs i b) j empty_bucket ≡ b))
      ⊎ ((i ≢ j) × (get_or (set bs i b) j empty_bucket ≡ get_or bs j empty_bucket))
get_or-set [] i j b h = elim h [ ]
get_or-set (x ∷ bs) zero zero b h = inl (refl, refl)
get_or-set (x ∷ bs) zero (suc j) b h = inr (omega arith, refl)
get_or-set (x ∷ bs) (suc i) zero b h = inr (omega arith, refl)
get_or-set (x ∷ bs) (suc i) (suc j) b h = elim (get_or-set bs i j b (omega arith)) [
  | inl (e, q) ↦ inl (omega arith, q)
  | inr (ne, q) ↦ inr (omega arith, q)
]

-- The buckets that the last `k` steps of `rotate` passed are empty.
abbrev Forgot : ℕ → RollingWindow → Type 0
Forgot k w =
    (i : ℕ)
    → i < length w.buckets
    → age w.head (length w.buckets) i < k
    → get_or w.buckets i empty_bucket ≡ empty_bucket

next-age :
    (h n i k : ℕ)
    → h < n
    → i < n
    → age ((h + 1) % n) n i < suc k
    → ((h + 1) % n ≡ i) ⊎ (age h n i < k)
next-age h n i k hh hi a = elim (Bool-cases (ltb (h + 1) n)) [
  | inl lt ↦
      let e : (h + 1) % n ≡ h + 1 = mod-eq_of_lt (ltb→lt _ _ lt) in
      let a' : age (h + 1) n i < suc k = (rw e at a) in rw e (ground arith)
  | inr ge ↦
      let n' : h + 1 ≡ n = ground arith in
      let e : (h + 1) % n ≡ 0 = rw n' (mod_self n) in
      let a' : age 0 n i < suc k = (rw e at a) in rw e (ground arith)
]

clear_next-Forgot :
    (k : ℕ) (w : RollingWindow)
    → w.head < length w.buckets
    → (w.head + 1) % length w.buckets < length w.buckets
    → Forgot k w
    → Forgot (suc k) (clear_next w)
unfolding clear_next
clear_next-Forgot k w hh hn f i hi a =
    let n = length w.buckets in
    let next = (w.head + 1) % n in
    let len : length (set w.buckets next empty_bucket) ≡ n =
      length-set w.buckets next empty_bucket in
    let hi' : i < n = omega (arith, len) in
    let a' : age next n i < suc k = (rw len at a) in
    elim (get_or-set w.buckets next i empty_bucket hn) [
      | inl (e, q) ↦ q
      | inr (ne, q) ↦ elim (next-age w.head n i k hh hi' a') [
        | inl e ↦ absurd (ne e)
        | inr b ↦ q ∙ f i hi' b
      ]
    ]

clear-Forgot : (m k : ℕ) (w : RollingWindow) → IsExact w → Forgot k w → Forgot (m + k) (clear m w)
unfolding clear
clear-Forgot zero k w v f = λ i hi a. f i hi (omega arith)
clear-Forgot (suc m) k w v f = λ i hi a.
    clear-Forgot m (suc k) (clear_next w) (clear_next-IsExact w v)
      (clear_next-Forgot k w v.in_range (next-lt (length w.buckets) (w.head + 1) v.nonempty) f) i hi
      (omega arith)

sum_by-Forgot :
    (f : Bucket → ℕ) (bs : List Bucket)
    → f empty_bucket ≡ 0
    → ((i : ℕ) → i < length bs → get_or bs i empty_bucket ≡ empty_bucket)
    → sum_by f bs ≡ 0
sum_by-Forgot f [] z h = refl
sum_by-Forgot f (b ∷ bs) z h =
    omega (arith, ap f (h 0 (omega arith)), sum_by-Forgot f bs z (λ i hi. h (suc i) (omega arith)))

length-clear : (m : ℕ) (w : RollingWindow) → length (clear m w).buckets ≡ length w.buckets
unfolding clear clear_next
length-clear zero w = refl
length-clear (suc m) w = length-clear m (clear_next w) ∙ length-set w.buckets _ empty_bucket

-- After one step per bucket nothing is left.
clear_all :
    (w : RollingWindow)
    → IsExact w
    → let w' = clear (length w.buckets) w in
      (w'.total_success ≡ 0)
      × (w'.total_failure ≡ 0)
      × (w'.total_latency ≡ 0)
      × (w'.total_retries ≡ 0)
clear_all w v =
    let n = length w.buckets in
    let w' = clear n w in
    let v' = clear-IsExact n w v in
    let len = length-clear n w in
    let gone = λ (i : ℕ) (hi : i < length w'.buckets).
      clear-Forgot n 0 w v (λ j hj a. absurd (omega arith)) i hi (grind (arith, v'.in_range)) in
    (
      v'.successes ∙ sum_by-Forgot (λ b. b.success) w'.buckets refl gone,
      v'.failures ∙ sum_by-Forgot (λ b. b.failure) w'.buckets refl gone,
      v'.latencies ∙ sum_by-Forgot (λ b. b.total_latency) w'.buckets refl gone,
      v'.retries ∙ sum_by-Forgot (λ b. b.retry_count) w'.buckets refl gone,
    )

le-mul_left : (n d : ℕ) → 0 < n → d ≤ n * d
le-mul_left n d h = grind arith

enough : (n d t : ℕ) → 0 < d → n * d ≤ t → min (t / d) n ≡ n
enough n d t h k = omega (arith, (le-div_iff_mul-le {k = d} {x = n} {y = t} h).1 k)

-- For a window with exact totals: once as many bucket durations as there are buckets have passed
-- since the last update, a rotation leaves a window with all four totals at 0, so nothing older
-- than the window counts.
pub rotate_forgets :
    (w : RollingWindow) (now : ℕ)
    → IsExact w
    → w.last_update + length w.buckets * w.bucket_duration ≤ now
    → let w' = rotate w now in
      (w'.total_success ≡ 0)
      × (w'.total_failure ≡ 0)
      × (w'.total_latency ≡ 0)
      × (w'.total_retries ≡ 0)
unfolding rotate
rotate_forgets w now v h = ground (
  arith,
  clear_all w v,
  enough (length w.buckets) w.bucket_duration (now - w.last_update) v.ticking,
  le-mul_left (length w.buckets) w.bucket_duration v.nonempty,
)

phase : (now last d : ℕ) → 0 < d → last ≤ now → now < last + (now - last) / d * d + d
phase now last d h k = omega (arith, lt-div-mul-add {a = now - last} {b = d} h)

-- A rotation leaves the last update less than one bucket duration ago.
pub rotate_in_phase :
    (w : RollingWindow) (now : ℕ)
    → 0 < w.bucket_duration
    → now < (rotate w now).last_update + w.bucket_duration
unfolding rotate
rotate_in_phase w now h = ground (arith, phase now w.last_update w.bucket_duration h)

clear-duration : (n : ℕ) (w : RollingWindow) → (clear n w).bucket_duration ≡ w.bucket_duration
unfolding clear clear_next
clear-duration zero w = refl
clear-duration (suc n) w = clear-duration n (clear_next w)

pub rotate-duration :
    (w : RollingWindow) (now : ℕ) → (rotate w now).bucket_duration ≡ w.bucket_duration
unfolding rotate
rotate-duration w now =
    ground
      (arith, clear-duration (min ((now - w.last_update) / w.bucket_duration) (length w.buckets)) w)

-- Within a bucket's time there is nothing to rotate.
pub rotate_idle :
    (w : RollingWindow) (now : ℕ) → now < w.last_update + w.bucket_duration → rotate w now ≡ w
unfolding rotate
rotate_idle w now h = ground arith
