-- ===== src/Csl/Policy.antt =====
-- crates/sealstack-csl/src/codegen/policy.rs: policy predicates lowered to bytecode, the action
-- table, and the header. Each `lower_*` takes the bytes written so far and returns them extended.
pub mod Meaning
pub mod Paths
pub mod Ops
pub mod Leaves
pub mod Correct
pub mod Layout
pub mod Verdict
pub mod Schema
pub mod MissingKey
pub mod Bundle
mod Tests
use sealstack.Prelude.{
  ℕ, ◌+◌, ◌^◌, Option, none, some, List, [], ◌∷◌, ◌++◌, bit_or, ltb, if◌then◌else◌, length, Result,
  ok, err, ◌>>=◌, ok_or,
}
use sealstack.Bytes.{Bytes, codes, bytes_eq}
use sealstack.Bytes.Le.{to_le_bytes}
use sealstack.PolicyIr.{Op, tag, magic, read_bit, list_bit, write_bit, delete_bit}
use sealstack.Csl.Ast.{
  joined, Literal, UnaryOp, BinaryOp, Expr, Exprs, Action, PolicyRule, PolicyBlock, SchemaDecl,
}

-- `CslError::Codegen`, one constructor for each message.
pub data CslError : Type 0 where
  list_literal duration_literal empty_path path_too_deep string_too_long segment_too_long : CslError
  arithmetic unary_minus too_many_rules rule_too_long rules_too_long ir_too_long : CslError
  section_too_long bad_runtime section_not_found : CslError
  self_pass_failed : Bytes → ℕ → CslError
  unsupported_root takes_two_arguments unknown_built_in schema_not_found : Bytes → CslError

abbrev pub CslResult : Type 0 → Type 0
CslResult A = Result CslError A

-- `T::try_from(n)` for an unsigned type of `width` bits.
pub try_from : ℕ → ℕ → CslError → CslResult ℕ
try_from width n e = if ltb n (2 ^ width) then ok n else err e

-- A length in two bytes, then the bytes.
pub lower_text : Bytes → CslError → Bytes → CslResult Bytes
unfolding try_from
lower_text text e out = do
  len ← try_from 16 (length text) e
  ok (out ++ (to_le_bytes 2 len ++ text))

pub lower_literal : Literal → Bytes → CslResult Bytes
unfolding lower_text
lower_literal Literal.null out = ok (out ++ tag Op.lit_null ∷ [])
lower_literal (Literal.boolean b) out = ok (out ++ tag Op.lit_bool ∷ (if b then 1 else 0) ∷ [])
lower_literal (Literal.integer i) out = ok (out ++ tag Op.lit_i64 ∷ to_le_bytes 8 i)
lower_literal (Literal.float f) out = ok (out ++ tag Op.lit_f64 ∷ to_le_bytes 8 f)
lower_literal (Literal.string s) out = lower_text s string_too_long (out ++ tag Op.lit_str ∷ [])
lower_literal (Literal.duration n u) out = err duration_literal

unfoldable pub lower_segments : List Bytes → Bytes → CslResult Bytes
unfolding lower_text
lower_segments [] out = ok out
lower_segments (seg ∷ rest) out = do
  out' ← lower_text seg segment_too_long out
  lower_segments rest out'

-- The operation that loads the root of a path.
pub root_op : Bytes → CslResult Op
root_op root =
    if bytes_eq root (codes "caller")
    then ok Op.load_caller
    else if bytes_eq root (codes "self")
    then ok Op.load_self
    else err (unsupported_root root)

pub lower_path : List Bytes → Bytes → CslResult Bytes
unfolding root_op lower_segments
lower_path [] out = err empty_path
lower_path (root ∷ rest) out = do
  load_op ← root_op root
  n_seg ← try_from 8 (length rest) path_too_deep
  lower_segments rest (out ++ tag load_op ∷ n_seg ∷ [])

pub binary_op : BinaryOp → CslResult Op
binary_op BinaryOp.eq = ok Op.op_eq
binary_op BinaryOp.ne = ok Op.op_ne
binary_op BinaryOp.lt = ok Op.op_lt
binary_op BinaryOp.le = ok Op.op_le
binary_op BinaryOp.gt = ok Op.op_gt
binary_op BinaryOp.ge = ok Op.op_ge
binary_op BinaryOp.and = ok Op.op_and
binary_op BinaryOp.or = ok Op.op_or
binary_op BinaryOp.in_set = ok Op.op_in
binary_op BinaryOp.not_in = ok Op.op_not_in
binary_op _ = err arithmetic

pub unary_op : UnaryOp → CslResult Op
unary_op UnaryOp.not = ok Op.op_not
unary_op UnaryOp.neg = err unary_minus

-- The operation of a built-in; both built-ins take two arguments.
pub call_op : Bytes → CslResult Op
call_op name =
    if bytes_eq name (codes "has_role")
    then ok Op.call_has_role
    else if bytes_eq name (codes "tenant_match")
    then ok Op.call_tenant_match
    else err (unknown_built_in name)

mutual
  unfolding lower_literal lower_path binary_op unary_op call_op

  pub lower_expr : Expr → Bytes → CslResult Bytes
  lower_expr (Expr.literal lit span) out = lower_literal lit out
  lower_expr (Expr.path p) out = lower_path p.segments out
  lower_expr (Expr.binary bop a b span) out = do
    out₁ ← lower_expr a out
    out₂ ← lower_expr b out₁
    op ← binary_op bop
    ok (out₂ ++ tag op ∷ [])
  lower_expr (Expr.unary uop inner span) out = do
    out₁ ← lower_expr inner out
    op ← unary_op uop
    ok (out₁ ++ tag op ∷ [])
  lower_expr (Expr.call name args span) out = lower_call args (joined name) out
  lower_expr (Expr.list items span) out = err list_literal

  pub lower_call : Exprs → Bytes → Bytes → CslResult Bytes
  lower_call (Exprs.cons a (Exprs.cons b Exprs.nil)) name out = do
    op ← call_op name
    out₁ ← lower_expr a out
    out₂ ← lower_expr b out₁
    ok (out₂ ++ tag op ∷ [])
  lower_call _ name out = do op ← call_op name; err (takes_two_arguments name)

action_bit : Action → ℕ
action_bit Action.read = read_bit
action_bit Action.list = list_bit
action_bit Action.write = write_bit
action_bit Action.delete = delete_bit

-- The loop of `action_mask`, from the mask so far.
mask_from : ℕ → List Action → ℕ
unfolding action_bit
mask_from m [] = m
mask_from m (a ∷ rest) = mask_from (bit_or m (action_bit a)) rest

pub action_mask : List Action → ℕ
unfolding mask_from
action_mask actions = mask_from 0 actions

-- A rule's bytecode ends in `RESULT`, which returns the predicate's value as the verdict.
pub lower_rule : PolicyRule → CslResult (ℕ × Bytes)
lower_rule rule = do
  stream ← lower_expr rule.predicate []
  ok (action_mask rule.actions, stream ++ tag Op.result ∷ [])

pub lower_rules : List PolicyRule → CslResult (List (ℕ × Bytes))
unfolding lower_rule
lower_rules [] = ok []
lower_rules (rule ∷ rest) = do
  stream ← lower_rule rule
  streams ← lower_rules rest
  ok (stream ∷ streams)

-- Where each rule starts, counted from the end of the table; the sum is a `checked_add` on `u16`.
pub table_offsets : ℕ → List (ℕ × Bytes) → CslResult (List ℕ)
unfolding try_from
table_offsets running [] = ok []
table_offsets running ((mask, stream) ∷ rest) = do
  len ← try_from 16 (length stream) rule_too_long
  running' ← try_from 16 (running + len) rules_too_long
  offsets ← table_offsets running' rest
  ok (running ∷ offsets)

pub table_entries : List (ℕ × Bytes) → List ℕ → Bytes
table_entries ((mask, stream) ∷ rest) (offset ∷ offsets) =
    mask ∷ (to_le_bytes 2 offset ++ table_entries rest offsets)
table_entries _ _ = []

pub concat_streams : List (ℕ × Bytes) → Bytes
concat_streams [] = []
concat_streams ((mask, stream) ∷ rest) = stream ++ concat_streams rest

pub build_action_table_and_rules : PolicyBlock → CslResult Bytes
unfolding lower_rules table_offsets table_entries concat_streams
build_action_table_and_rules block = do
  streams ← lower_rules block.rules
  count ← try_from 8 (length streams) too_many_rules
  offsets ← table_offsets 0 streams
  ok (count ∷ (table_entries streams offsets ++ concat_streams streams))

pub lower_policy_block_body : SchemaDecl → CslResult Bytes
unfolding build_action_table_and_rules
lower_policy_block_body decl = elim decl.policy [
  | none ↦ ok (0 ∷ [])
  | some block ↦ build_action_table_and_rules block
]

unfoldable pub find_schema : List (Bytes × SchemaDecl) → Bytes → Option SchemaDecl
find_schema [] name = none
find_schema ((k, decl) ∷ rest) name =
    let later = find_schema rest name in if bytes_eq k name then some decl else later

-- `lower_schema_to_ir` behind the lookup of the schema.
pub with_header : SchemaDecl → CslResult Bytes
unfolding lower_policy_block_body try_from
with_header decl = do
  body ← lower_policy_block_body decl
  len ← try_from 32 (length body) ir_too_long
  ok (magic ++ (to_le_bytes 4 len ++ body))

unfoldable pub lower_schema_to_ir : List (Bytes × SchemaDecl) → Bytes → CslResult Bytes
unfolding find_schema with_header
lower_schema_to_ir schemas name = do
  decl ← ok_or (find_schema schemas name) (schema_not_found name)
  with_header decl
