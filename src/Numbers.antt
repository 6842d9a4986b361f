-- ===== src/Numbers.antt =====
-- The standard library's conversions that crates/sealstack-policy-runtime/src/json.rs and
-- crates/sealstack-connector-sdk/src/retry.rs call: `str::parse::<i64>` and the cast `f as i64`, on two's complement and IEEE 754 bit patterns.
use sealstack.Prelude.{
  ℕ, ◌+◌, ◌-◌, ◌*◌, ◌/◌, ◌%◌, ◌^◌, ◌≡◌, refl, Bool, ◌&&◌, Option, none, some, [], ◌∷◌, ltb, leb,
  ◌==◌, if◌then◌else◌, ◌||◌,
}
use sealstack.Bytes.{Bytes, codes}

abbrev pub is_digit : ℕ → Bool
is_digit b = leb 48 b && leb b 57

digits_value : Bytes → ℕ → Option ℕ
digits_value [] acc = some acc
digits_value (b ∷ bs) acc =
    let rest = digits_value bs (acc * 10 + (b - 48)) in if is_digit b then rest else none

-- One digit at least.
magnitude : Bytes → Option ℕ
unfolding digits_value
magnitude [] = none
magnitude (b ∷ bs) = digits_value (b ∷ bs) 0

positive : Option ℕ → Option ℕ
positive none = none
positive (some n) = if ltb n (2 ^ 63) then some n else none

negative : Option ℕ → Option ℕ
negative none = none
negative (some n) = if leb n (2 ^ 63) then some ((2 ^ 64 - n) % 2 ^ 64) else none

unfoldable pub parse_i64 : Bytes → Option ℕ
unfolding magnitude positive negative
parse_i64 [] = none
parse_i64 (b ∷ bs) =
    if b == 45
    then negative (magnitude bs)
    else if b == 43
    then positive (magnitude bs)
    else positive (magnitude (b ∷ bs))

signed : ℕ → ℕ → ℕ
signed bits mag = if ltb bits (2 ^ 63) then mag else (2 ^ 64 - mag) % 2 ^ 64

-- Truncates, sends NaN to 0 and saturates.
unfoldable pub f64_to_i64 : ℕ → ℕ
unfolding signed
f64_to_i64 bits =
    let m = bits % 2 ^ 63 in
    let e = m / 2 ^ 52 in
    let mantissa = 2 ^ 52 + m % 2 ^ 52 in
    if ltb 0x7ff0_0000_0000_0000 m || ltb e 1023
    then 0
    else if leb 1086 e
    then (if ltb bits (2 ^ 63) then 2 ^ 63 - 1 else 2 ^ 63)
    else signed bits (if leb 1075 e then mantissa * 2 ^ (e - 1075) else mantissa / 2 ^ (1075 - e))

parse_i64_runs :
    (parse_i64 (codes "42") ≡ some 42)
    × (parse_i64 (codes "-1") ≡ some 0xffff_ffff_ffff_ffff)
    × (parse_i64 (codes "1.0") ≡ none)
    × (parse_i64 (codes "9223372036854775808") ≡ none)
    × (parse_i64 (codes "-") ≡ none)
unfolding parse_i64 magnitude digits_value positive negative
parse_i64_runs = (refl, refl, refl, refl, refl)

f64_to_i64_runs :
    (f64_to_i64 0x4008_0000_0000_0000 ≡ 3)
    × (f64_to_i64 0xc00c_0000_0000_0000 ≡ 0xffff_ffff_ffff_fffd)
    × (f64_to_i64 0x7ff0_0000_0000_0000 ≡ 0x7fff_ffff_ffff_ffff)
unfolding f64_to_i64 signed
f64_to_i64_runs = (refl, refl, refl)
