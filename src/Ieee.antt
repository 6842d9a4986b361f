-- ===== src/Ieee.antt =====
-- `f64` as its IEEE 754 bit pattern (a number below 2 ^ 64), and `i64` as its two's complement bit
-- pattern: the comparisons of floats and the cast `x as f64`, as the Rust language defines them.
use sealstack.Prelude.{
  ℕ, zero, suc, ◌+◌, ◌-◌, ◌*◌, ◌/◌, ◌%◌, ◌^◌, ◌≡◌, refl, Bool, true, false, ◌&&◌, ◌||◌, not, ltb,
  leb, ◌==◌, if◌then◌else◌,
}

abbrev pub sign_bit : ℕ
sign_bit = 0x8000_0000_0000_0000

abbrev infinity : ℕ
infinity = 0x7ff0_0000_0000_0000

is_nan : ℕ → Bool
is_nan b = ltb infinity (b % sign_bit)

-- The order of two patterns that are not NaN: by sign, then by magnitude.
below : ℕ → ℕ → Bool
below a b =
    if ltb a sign_bit
    then (if ltb b sign_bit then ltb a b else false)
    else if ltb b sign_bit
    then ltb 0 (a % sign_bit + b)
    else ltb b a

unfoldable pub f64_eq : ℕ → ℕ → Bool
unfolding is_nan
f64_eq a b = not (is_nan a || is_nan b) && (a == b || (a % sign_bit == 0 && b % sign_bit == 0))

unfoldable pub f64_lt : ℕ → ℕ → Bool
unfolding is_nan below
f64_lt a b = not (is_nan a || is_nan b) && below a b

unfoldable pub f64_le : ℕ → ℕ → Bool
unfolding f64_lt f64_eq
f64_le a b = f64_lt a b || f64_eq a b

-- The number of binary digits, with fuel for 64 of them.
bit_length : ℕ → ℕ → ℕ
bit_length zero n = 0
bit_length (suc f) n = let rest = bit_length f (n / 2) in if n == 0 then 0 else suc rest

-- A magnitude of `e + 1` digits, rounded to 53 of them, ties to even; a carry moves into the exponent.
round_magnitude : ℕ → ℕ → ℕ
round_magnitude e m =
    if leb e 52
    then (e + 1023) * 2 ^ 52 + (m * 2 ^ (52 - e) - 2 ^ 52)
    else let q = m / 2 ^ (e - 52) in
      let r = 2 * (m % 2 ^ (e - 52)) in
      let up = if ltb (2 ^ (e - 52)) r || (r == 2 ^ (e - 52) && q % 2 == 1) then 1 else 0 in
      (e + 1023) * 2 ^ 52 + (q + up - 2 ^ 52)

magnitude_to_f64 : ℕ → ℕ
unfolding bit_length round_magnitude
magnitude_to_f64 m = if m == 0 then 0 else round_magnitude (bit_length 64 m - 1) m

-- `x as f64` for an `i64`.
unfoldable pub i64_to_f64 : ℕ → ℕ
unfolding magnitude_to_f64
i64_to_f64 w =
    if ltb w sign_bit
    then magnitude_to_f64 w
    else sign_bit + magnitude_to_f64 (0x1_0000_0000_0000_0000 - w)

i64_to_f64_runs :
    (i64_to_f64 1 ≡ 0x3ff0_0000_0000_0000)
    × (i64_to_f64 0xffff_ffff_ffff_fffd ≡ 0xc008_0000_0000_0000)
    × (i64_to_f64 0x7fff_ffff_ffff_ffff ≡ 0x43e0_0000_0000_0000)
unfolding i64_to_f64
i64_to_f64_runs = (refl, refl, refl)

f64_lt_runs :
    (f64_lt 0xc008_0000_0000_0000 0 ≡ true)
    × (f64_lt 0 sign_bit ≡ false)
    × (f64_eq 0 sign_bit ≡ true)
    × (f64_le 0x7ff8_0000_0000_0000 0x7ff8_0000_0000_0000 ≡ false)
unfolding f64_lt f64_eq f64_le
f64_lt_runs = (refl, refl, refl, refl)
