-- ===== src/Retry/Backoff.antt =====
-- retry/retry.go: the exponential backoff against its closed form.
use native.Mathlib.Nat.{pow-suc}
use go_guard_lib.Prelude.{ℕ, zero, suc, ◌+◌, ◌-◌, ◌*◌, ◌^◌, ◌≤◌, ◌<◌, ◌≡◌, ◌⊎◌, min, arith}
use go_guard_lib.Retry.{double, exponential, jitter, Delays}

le-mul-pow : (n d : ℕ) → d ≤ d * 2 ^ n
le-mul-pow zero d = omega arith
le-mul-pow (suc n) d = rw (pow-suc 2 n) (omega (arith, le-mul-pow n d))

-- Past the cap it does not matter how far.
double_lem : (n cap d : ℕ) → 0 < cap → cap ≤ 2 ^ 61 → min cap (double n cap d) ≡ min cap (d * 2 ^ n)
unfolding double
double_lem zero cap d h k = omega arith
double_lem (suc n) cap d h k =
    let ih : min cap (double n cap (d * 2)) ≡ min cap (d * 2 * 2 ^ n) =
      double_lem n cap (d * 2) h k in
    let e : d * 2 ^ suc n ≡ d * 2 * 2 ^ n = rw (pow-suc 2 n) (omega arith) in
    rw e (ground (arith, ih, le-mul-pow n (d * 2)))

-- Under a cap of at most 2^61 nanoseconds, the delay before retry `attempt` is the base doubled
-- `attempt - 1` times, or the cap if that is less: the guard against overflow changes nothing.
pub exponential-min :
    (base cap n : ℕ)
    → 0 < base
    → 0 < cap
    → cap ≤ 2 ^ 61
    → exponential base cap (suc n) ≡ min cap (base * 2 ^ n)
unfolding exponential
exponential-min base cap n b h k = ground (arith, double_lem n cap base h k)

double-fits : (n cap d : ℕ) → d < 2 ^ 63 → double n cap d < 2 ^ 63
unfolding double
double-fits zero cap d h = h
double-fits (suc n) cap d h = ground (arith, double-fits n cap (d * 2))

-- Whatever the attempt, a base that fits an int64 gives a delay that does, and a cap is kept.
pub exponential_bounded :
    (base cap attempt : ℕ)
    → base < 2 ^ 63
    → (exponential base cap attempt < 2 ^ 63) × ((cap ≡ 0) ⊎ (exponential base cap attempt ≤ cap))
unfolding exponential
exponential_bounded base cap attempt h = ground (arith, double-fits (attempt - 1) cap base h)

-- With a spread of at most the delay and random numbers below their bound, jitter never lengthens
-- the delay, and shortens it by at most the spread.
pub jitter_bounded :
    (spread random : ℕ → ℕ) (b : Delays) (attempt : ℕ)
    → spread (b attempt) ≤ b attempt
    → random (spread (b attempt) + 1) < spread (b attempt) + 1
    → (jitter spread random b attempt ≤ b attempt)
      × (b attempt ≤ jitter spread random b attempt + spread (b attempt))
unfolding jitter
jitter_bounded spread random b attempt h k = ground arith
