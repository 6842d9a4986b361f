-- ===== src/PolicyIr/Decode.antt =====
-- The dispatch `match tag { op::LIT_NULL => .., .., other => .. }` of the interpreters: which
-- operation a byte stands for.
use sealstack.Prelude.{ℕ, ◌≡◌, refl, ◌⊎◌, inl, inr, Option, none, some, arith, ◌==◌, if◌then◌else◌}
use sealstack.PolicyIr.{
  Op, lit_null, lit_bool, lit_i64, lit_f64, lit_str, lit_duration_secs, load_caller, load_self,
  op_eq, op_ne, op_lt, op_le, op_gt, op_ge, op_and, op_or, op_not, op_in, op_not_in, call_has_role,
  call_tenant_match, result, deny, allow, tag,
}

literal_of : ℕ → Option Op
literal_of b =
    if b == 0x01
    then some lit_null
    else if b == 0x02
    then some lit_bool
    else if b == 0x03
    then some lit_i64
    else if b == 0x04
    then some lit_f64
    else if b == 0x05
    then some lit_str
    else if b == 0x06
    then some lit_duration_secs
    else none

test_of : ℕ → Option Op
test_of b =
    if b == 0x20
    then some op_eq
    else if b == 0x21
    then some op_ne
    else if b == 0x22
    then some op_lt
    else if b == 0x23
    then some op_le
    else if b == 0x24
    then some op_gt
    else if b == 0x25
    then some op_ge
    else none

load_or_logic_of : ℕ → Option Op
load_or_logic_of b =
    if b == 0x10
    then some load_caller
    else if b == 0x11
    then some load_self
    else if b == 0x30
    then some op_and
    else if b == 0x31
    then some op_or
    else if b == 0x32
    then some op_not
    else none

call_or_end_of : ℕ → Option Op
call_or_end_of b =
    if b == 0x40
    then some op_in
    else if b == 0x41
    then some op_not_in
    else if b == 0x50
    then some call_has_role
    else if b == 0x51
    then some call_tenant_match
    else if b == 0xfd
    then some result
    else if b == 0xfe
    then some deny
    else if b == 0xff
    then some allow
    else none

or_else : Option Op → Option Op → Option Op
or_else none o = o
or_else (some x) o = some x

unfoldable pub op_of : ℕ → Option Op
unfolding literal_of test_of load_or_logic_of call_or_end_of or_else
op_of b =
    or_else (literal_of b) (or_else (load_or_logic_of b) (or_else (test_of b) (call_or_end_of b)))

-- Each operation's byte is read back as that operation.
pub op_of-tag : (o : Op) → op_of (tag o) ≡ some o
unfolding op_of tag
op_of-tag lit_null = refl
op_of-tag _ = refl

literal_of_sound : (b : ℕ) (o : Op) → literal_of b ≡ some o → tag o ≡ b
unfolding literal_of tag
literal_of_sound b o h = ground arith

test_of_sound : (b : ℕ) (o : Op) → test_of b ≡ some o → tag o ≡ b
unfolding test_of tag
test_of_sound b o h = ground arith

load_or_logic_of_sound : (b : ℕ) (o : Op) → load_or_logic_of b ≡ some o → tag o ≡ b
unfolding load_or_logic_of tag
load_or_logic_of_sound b o h = ground arith

call_or_end_of_sound : (b : ℕ) (o : Op) → call_or_end_of b ≡ some o → tag o ≡ b
unfolding call_or_end_of tag
call_or_end_of_sound b o h = ground arith

or_else-eq-some : (a b : Option Op) (o : Op) → or_else a b ≡ some o → (a ≡ some o) ⊎ (b ≡ some o)
unfolding or_else
or_else-eq-some none b o h = inr h
or_else-eq-some (some x) b o h = inl h

-- A byte that stands for an operation is that operation's byte.
pub tag_of_op_of : (b : ℕ) (o : Op) → op_of b ≡ some o → tag o ≡ b
unfolding op_of
tag_of_op_of b o h = elim (or_else-eq-some (literal_of b) _ o h) [
  | inl p ↦ literal_of_sound b o p
  | inr p ↦ elim (or_else-eq-some (load_or_logic_of b) _ o p) [
    | inl q ↦ load_or_logic_of_sound b o q
    | inr q ↦ elim (or_else-eq-some (test_of b) _ o q) [
      | inl r ↦ test_of_sound b o r
      | inr r ↦ call_or_end_of_sound b o r
    ]
  ]
]
