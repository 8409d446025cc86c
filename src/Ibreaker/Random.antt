-- ===== src/Ibreaker/Random.antt =====
-- internal/breaker/breaker.go: the jitter's random numbers, as 64-bit words.
use go_guard_lib.Prelude.{ℕ, ◌*◌, ◌/◌, ◌%◌, ◌^◌, bit_xor, if◌then◌else◌, ◌==◌}

abbrev u64 : ℕ → ℕ
u64 x = x % 2 ^ 64

-- `now` is the clock reading that replaces a seed of 0.
unfoldable pub xorshift64 : ℕ → ℕ → ℕ
xorshift64 seed now =
    let x = if seed == 0 then u64 now else seed in
    let y = bit_xor x (u64 (x * 2 ^ 13)) in
    let z = bit_xor y (y / 2 ^ 7) in bit_xor z (u64 (z * 2 ^ 17))
