-- ===== src/Csl/Policy/Tests.antt =====
-- A policy compiled and run.
use sealstack.Csl.Policy.{
  lower_schema_to_ir, find_schema, lower_segments, lower_expr, action_mask, CslResult, with_header,
  ℕ,
}
use sealstack.Bytes.{slice, bytes_eq, is_utf8, Bytes, codes}
use sealstack.PolicyIr.Host.{native_of, eq_native, interpret, load_path, NativeVal}
use sealstack.Json.{get_field, get, Value, Fields}
use sealstack.Bytes.Le.{to_le_bytes, from_le_bytes}
use sealstack.PolicyIr.Decode.{op_of}
use sealstack.Csl.Policy.MissingKey.{load_path-missing}
use sealstack.Csl.Policy.Meaning.{
  eval, depth, Fits, path_reaches, applicable, policy_verdict, verdict,
}
use mathlib.Core.List.{Memᴰ}
use sealstack.Csl.Policy.Bundle.{
  zeros, PolicyBundle, emit_policy_bundles, TypedFile, Runs, emit_policy_bundles-Runs,
}
use sealstack.Prelude.{
  ◌<◌, get_elem?, Sees-zero, ◌++◌, arith, ◌≡◌, refl, true, false, none, some, List, [], ◌∷◌, ok,
}
use sealstack.PolicyIr.{tag, read_bit, write_bit}
use sealstack.Csl.Ast.{
  Span, DottedPath, Literal, UnaryOp, BinaryOp, Expr, Action, PolicyRule, SchemaDecl,
}
use sealstack.Csl.Policy.Schema.{with_header-interpret}

abbrev here : Span
here = record { start = 0; finish = 0 }

abbrev path_of : List Bytes → DottedPath
path_of segs = record { segments = segs; span = here }

-- `caller.id == self.owner and not false`
abbrev predicate : Expr
predicate =
    Expr.binary BinaryOp.and
      (Expr.binary BinaryOp.eq (Expr.path (path_of (codes "caller" ∷ codes "id" ∷ [])))
        (Expr.path (path_of (codes "self" ∷ codes "owner" ∷ []))) here)
      (Expr.unary UnaryOp.not (Expr.literal (Literal.boolean false) here) here) here

abbrev rule : List Action → Expr → PolicyRule
rule actions e = record { name = none; actions = actions; predicate = e; span = here }

abbrev schema : SchemaDecl
schema = record {
  name = codes "Doc";
  fields = [];
  span = here;
  policy = some (record {
    rules =
        rule (Action.write ∷ []) (Expr.literal (Literal.boolean false) here)
        ∷ rule (Action.read ∷ Action.list ∷ []) predicate
        ∷ [];
    span = here;
  });
}

abbrev owner : Value
owner = Value.object (Fields.field (codes "id") (Value.string (codes "ann")) Fields.end)

abbrev doc : Value
doc = Value.object (Fields.field (codes "owner") (Value.string (codes "ann")) Fields.end)

compiled : CslResult Bytes
unfolding with_header
compiled = with_header schema

abbrev bytecode : Bytes
bytecode =
    codes "SLIR"
    ++ (31 ∷ 0 ∷ 0 ∷ 0 ∷ 2 ∷ 4 ∷ 0 ∷ 0 ∷ 3 ∷ 3 ∷ 0 ∷ 2 ∷ 0 ∷ 253 ∷ 16 ∷ 1 ∷ 2 ∷ 0 ∷ [])
    ++ (codes "id" ++ (17 ∷ 1 ∷ 5 ∷ 0 ∷ []) ++ codes "owner" ++ (32 ∷ 2 ∷ 0 ∷ 50 ∷ 48 ∷ 253 ∷ []))

with_header_runs : with_header schema ≡ ok bytecode
unfolding with_header lower_expr bytes_eq to_le_bytes action_mask tag
with_header_runs = refl

-- The second rule is the first for reading, and the owner may.
with_header-interpret_example : interpret bytecode owner doc read_bit ≡ some (ok true)
unfolding action_mask bytes_eq eval depth Fits path_reaches is_utf8 applicable policy_verdict
    verdict eq_native get get_field native_of
with_header-interpret_example =
    with_header-interpret owner doc read_bit schema with_header_runs
      (((((refl, (refl, tt)), refl), ((refl, (refl, tt)), refl)), tt), omega arith)

-- No rule allows writing.
write_is_denied : interpret bytecode owner doc write_bit ≡ some (ok false)
unfolding interpret bytes_eq from_le_bytes op_of
write_is_denied = refl

-- `self.owner` against a record with no `owner`: a missing last key is null.
abbrev orphan : Value
orphan = Value.object Fields.end

with_header_missing : interpret bytecode owner orphan read_bit ≡ some (ok false)
unfolding interpret bytes_eq from_le_bytes op_of slice is_utf8 get get_field eq_native native_of
with_header_missing = refl

-- The operand of `caller.team.id`.
abbrev operand : Bytes
operand = 2 ∷ 4 ∷ 0 ∷ codes "team" ++ (2 ∷ 0 ∷ codes "id")

load_path-missing_example :
    (ip' : ℕ) × (load_path operand 0 owner ≡ ok (NativeVal.null, ip'))
    × (get_elem? operand ip' ≡ some 2)
    × (ip' < 11)
unfolding lower_segments to_le_bytes is_utf8 get get_field bytes_eq
load_path-missing_example =
    load_path-missing operand 0 owner (codes "team") (codes "id") []
      (4 ∷ 0 ∷ codes "team" ++ (2 ∷ 0 ∷ codes "id")) [] refl refl refl (Sees-zero operand)

abbrev file : TypedFile
file = record {
  namespace = [];
  decl_order = codes "Doc" ∷ [];
  schemas = (codes "Doc", schema) ∷ [];
}

-- A binary that is the reserved slot and nothing else.
abbrev slot : Bytes
slot = codes "SLIR" ++ zeros 4100

emitted :
    (bundles : List PolicyBundle) × (emit_policy_bundles slot (some (0, slot) ∷ []) file
      ≡ ok bundles)
unfolding emit_policy_bundles find_schema bytes_eq lower_schema_to_ir lower_expr to_le_bytes
    interpret from_le_bytes action_mask op_of tag slice is_utf8 get get_field
emitted = (_, refl)

emit_policy_bundles-Runs_example : Runs file (codes "Doc") write_bit
unfolding find_schema bytes_eq
emit_policy_bundles-Runs_example =
    emit_policy_bundles-Runs slot (some (0, slot) ∷ []) file (codes "Doc") schema write_bit
      emitted.1 (Memᴰ.head refl) refl (Memᴰ.tail (Memᴰ.tail (Memᴰ.head refl)))
