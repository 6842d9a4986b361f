-- ===== src/PolicyIr/Host/Values.antt =====
-- The values on the interpreter's stack, its errors, and the operations on values (host.rs).
use sealstack.Prelude.{
  ℕ, Bool, true, false, not, Option, none, some, ◌==◌, if◌then◌else◌, Result, ok, err,
}
use sealstack.Bytes.{Bytes, codes, bytes_eq}
use sealstack.Ieee.{f64_eq, i64_to_f64}
use sealstack.Json.{Value, Items, get, as_str, as_array, any_item}

pub data IrError : Type 0 where
  bad_magic bad_length : IrError
  unknown_opcode : ℕ → IrError
  stack_underflow stack_overflow type_mismatch unexpected_eof unknown_action : IrError

abbrev pub IrResult : Type 0 → Type 0
IrResult A = Result IrError A

pub data NativeVal : Type 0 where
  null : NativeVal
  boolean : Bool → NativeVal
  i64 f64 : ℕ → NativeVal
  str : Bytes → NativeVal
  array : Items → NativeVal

native_of_f64 : Option ℕ → NativeVal
native_of_f64 none = null
native_of_f64 (some x) = f64 x

native_of_number : Option ℕ → Option ℕ → NativeVal
unfolding native_of_f64
native_of_number none as_f64 = native_of_f64 as_f64
native_of_number (some n) as_f64 = i64 n

unfoldable pub native_of : Value → NativeVal
unfolding native_of_number
native_of Value.null = null
native_of (Value.object fs) = null
native_of (Value.boolean b) = boolean b
native_of (Value.number n) = native_of_number n.as_i64 n.as_f64
native_of (Value.string s) = str s
native_of (Value.array xs) = array xs

bool_eq : Bool → Bool → Bool
bool_eq a b = if a then b else not b

unfoldable pub eq_native : NativeVal → NativeVal → Bool
unfolding bool_eq
eq_native null null = true
eq_native (boolean x) (boolean y) = bool_eq x y
eq_native (i64 x) (i64 y) = x == y
eq_native (f64 x) (f64 y) = f64_eq x y
eq_native (i64 x) (f64 y) = f64_eq (i64_to_f64 x) y
eq_native (f64 y) (i64 x) = f64_eq (i64_to_f64 x) y
eq_native (str x) (str y) = bytes_eq x y
eq_native _ _ = false

-- The operands of `<`, `<=`, `>`, `>=`, widened to floats.
unfoldable pub order_native : (ℕ → ℕ → Bool) → NativeVal → NativeVal → IrResult Bool
order_native r (i64 x) (i64 y) = ok (r (i64_to_f64 x) (i64_to_f64 y))
order_native r (f64 x) (f64 y) = ok (r x y)
order_native r (i64 x) (f64 y) = ok (r (i64_to_f64 x) y)
order_native r (f64 x) (i64 y) = ok (r x (i64_to_f64 y))
order_native r _ _ = err type_mismatch

-- `IN`: is the needle equal to an element of the array?
unfoldable pub member : NativeVal → NativeVal → IrResult Bool
member needle (array xs) = ok (any_item (λ v. eq_native needle (native_of v)) xs)
member needle _ = err type_mismatch

is_role : Bytes → Value → Bool
is_role role v = elim (as_str v) [ none ↦ false | some s ↦ bytes_eq s role ]

role_among : Option Items → Bytes → Bool
unfolding is_role
role_among none role = false
role_among (some roles) role = any_item (is_role role) roles

-- `caller.pointer("/roles").and_then(|v| v.as_array())`
array_at : Value → Bytes → Option Items
array_at v key = elim (get v key) [ none ↦ none | some x ↦ as_array x ]

unfoldable pub str_at : Value → Bytes → Option Bytes
str_at v key = elim (get v key) [ none ↦ none | some x ↦ as_str x ]

unfoldable pub has_role : Value → NativeVal → IrResult Bool
unfolding role_among array_at
has_role caller (str role) = ok (role_among (array_at caller (codes "roles")) role)
has_role caller _ = err type_mismatch

unfoldable pub same_tenant : Option Bytes → Option Bytes → Bool
same_tenant (some a) (some b) = bytes_eq a b
same_tenant _ _ = false

unfoldable pub tenant_match : Value → Value → Bool
unfolding same_tenant str_at
tenant_match caller record_value =
    same_tenant (str_at caller (codes "tenant")) (str_at record_value (codes "tenant"))
