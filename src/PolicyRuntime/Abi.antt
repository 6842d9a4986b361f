-- ===== src/PolicyRuntime/Abi.antt =====
-- crates/sealstack-policy-runtime/src/lib.rs: what the WebAssembly module exports. An `i32` is its
-- 32-bit pattern; `BUMP` is passed from call to call.
use sealstack.Prelude.{
  ℕ, ◌+◌, ◌^◌, ◌≤◌, ◌≡◌, ◌⊎◌, inl, inr, Bool, false, ◌||◌, not, Option, none, some, List, [], ◌∷◌,
  arith, ltb, leb, ◌==◌, if◌then◌else◌, take, drop,
}
use sealstack.Bytes.{Bytes, bytes_eq}
use sealstack.Bytes.Le.{from_le_bytes}
use sealstack.PolicyIr.{ir_max_bytes, magic}
use sealstack.PolicyRuntime.Interp.{Verdict, evaluate}

-- -1
abbrev pub failed : ℕ
failed = 0xffff_ffff

abbrev is_negative : ℕ → Bool
is_negative n = leb 0x8000_0000 n

abbrev pub i32_max : ℕ
i32_max = 0x7fff_ffff

-- The offset that is returned, and `BUMP` after the call.
unfoldable pub sealstack_alloc : ℕ → ℕ → ℕ × ℕ
sealstack_alloc bump n =
    if is_negative n
    then (failed, bump)
    else if leb (2 ^ 32) (bump + n)
    then (failed, bump)
    else if ltb i32_max (bump + n)
    then (failed, bump)
    else (bump, bump + n)

-- `BUMP` at the start.
abbrev pub initial_bump : ℕ
initial_bump = 1024

unfoldable pub ir_payload : Bytes → Option Bytes
ir_payload section =
    let len = from_le_bytes (take 4 (drop 4 section)) in
    if not (bytes_eq (take 4 section) magic)
    then none
    else if ltb ir_max_bytes len
    then none
    else some (take len (drop 8 section))

abbrev verdict_code : Verdict → ℕ
verdict_code Verdict.allow = 1
verdict_code Verdict.deny = 0
verdict_code Verdict.error = failed

-- `memory` is the linear memory, `section` the live `PREDICATE_IR`.
unfoldable pub sealstack_evaluate : (Bytes → Option ℕ) → Bytes → Bytes → ℕ → ℕ → ℕ
unfolding evaluate
sealstack_evaluate parse_f64 memory section ptr len =
    if is_negative ptr || is_negative len
    then failed
    else verdict_code (evaluate parse_f64 (take len (drop ptr memory)) section)

-- The regions that a sequence of calls hands out, as their starts and lengths.
granted : ℕ → ℕ → List (ℕ × ℕ) → List (ℕ × ℕ)
granted p n rest = if p == failed then rest else (p, n) ∷ rest

unfoldable pub regions : ℕ → List ℕ → List (ℕ × ℕ)
unfolding granted
regions bump [] = []
regions bump (n ∷ ns) = let (p, bump') = sealstack_alloc bump n in granted p n (regions bump' ns)

-- Each region begins behind the one before it, and ends at `i32::MAX` or earlier.
pub Apart : ℕ → List (ℕ × ℕ) → Type 0
Apart from [] = Unit
Apart from ((p, n) ∷ rs) = (from ≤ p) × (p + n ≤ i32_max) × Apart (p + n) rs

Apart-le : (a b : ℕ) (rs : List (ℕ × ℕ)) → a ≤ b → Apart b rs → Apart a rs
unfolding Apart
Apart-le a b [] le h = tt
Apart-le a b ((p, n) ∷ rs) le (h, k, r) = (omega arith, k, r)

-- One call: the region is at the old `BUMP`, and `BUMP` is its end.
sealstack_alloc-cases :
    (bump n : ℕ)
    → bump ≤ i32_max
    → (sealstack_alloc bump n ≡ (failed, bump))
      ⊎ ((sealstack_alloc bump n ≡ (bump, bump + n)) × (bump + n ≤ i32_max))
unfolding sealstack_alloc
sealstack_alloc-cases bump n h = ground arith

-- The regions that any sequence of calls hands out do not overlap, and lie between the `BUMP` at the
-- start and `i32::MAX`, whatever sizes are asked for.
pub regions-Apart : (ns : List ℕ) (bump : ℕ) → bump ≤ i32_max → Apart bump (regions bump ns)
unfolding regions Apart granted
regions-Apart [] bump h = tt
regions-Apart (n ∷ ns) bump h = elim (sealstack_alloc-cases bump n h) [
  | inl refused ↦ rw refused (regions-Apart ns bump h)
  | inr (given, fits) ↦ rw (given, lt_failed) (omega arith, fits, regions-Apart ns (bump + n) fits)
]
  where
    lt_failed : (bump == failed) ≡ false
    lt_failed = ground arith
