-- ===== src/Csl/Policy/Meaning.antt =====
-- What a policy predicate means: its value for a caller and a record, by recursion on the syntax
-- tree, with no bytecode, positions or stack. Operands are evaluated left to right, all of them.
use sealstack.Prelude.{
  ℕ, suc, ◌+◌, ◌^◌, ◌<◌, ◌≤◌, ◌≡◌, Bool, true, false, Option, none, some, List, [], ◌∷◌, max,
  if◌then◌else◌, length, Result, ok, err, ◌>>=◌, ◌==◌, bit_and,
}
use sealstack.Bytes.{Bytes, codes, bytes_eq, is_utf8}
use sealstack.Ieee.{f64_lt, f64_le}
use sealstack.Json.{Value, get}
use sealstack.PolicyIr.Host.{
  NativeVal, IrResult, type_mismatch, native_of, eq_native, order_native, member, has_role,
  tenant_match, as_bool,
}
use sealstack.Csl.Policy.{action_mask}
use sealstack.Csl.Ast.{PolicyRule, joined, Literal, UnaryOp, BinaryOp, Expr, Exprs}
use sealstack.Prelude

-- The value behind a chain of keys; null where a key is missing.
unfoldable pub follow : Value → List Bytes → NativeVal
follow v [] = native_of v
follow v (seg ∷ rest) = elim (get v seg) [ none ↦ NativeVal.null | some w ↦ follow w rest ]

-- Every key but the last is there.
unfoldable pub reaches : Value → List Bytes → Bool
reaches v [] = true
reaches v (seg ∷ []) = true
reaches v (seg ∷ next ∷ rest) = elim (get v seg) [ none ↦ false | some w ↦ reaches w (next ∷ rest) ]

unfoldable pub literal_value : Literal → IrResult NativeVal
literal_value Literal.null = ok NativeVal.null
literal_value (Literal.boolean b) = ok (NativeVal.boolean b)
literal_value (Literal.integer i) = ok (NativeVal.i64 i)
literal_value (Literal.float f) = ok (NativeVal.f64 f)
literal_value (Literal.string s) = ok (NativeVal.str s)
literal_value (Literal.duration n u) = err type_mismatch

abbrev of_bool : IrResult Bool → IrResult NativeVal
of_bool r = r >>= λ b. ok (NativeVal.boolean b)

unfoldable pub unary_value : UnaryOp → NativeVal → IrResult NativeVal
unfolding as_bool
unary_value UnaryOp.not v = of_bool (do b ← as_bool v; ok (Prelude.not b))
unary_value UnaryOp.neg v = err type_mismatch

unfoldable pub binary_value : BinaryOp → NativeVal → NativeVal → IrResult NativeVal
unfolding as_bool
binary_value BinaryOp.eq a b = ok (NativeVal.boolean (eq_native a b))
binary_value BinaryOp.ne a b = ok (NativeVal.boolean (Prelude.not (eq_native a b)))
binary_value BinaryOp.lt a b = of_bool (order_native f64_lt a b)
binary_value BinaryOp.le a b = of_bool (order_native f64_le a b)
binary_value BinaryOp.gt a b = of_bool (order_native (λ x y. f64_lt y x) a b)
binary_value BinaryOp.ge a b = of_bool (order_native (λ x y. f64_le y x) a b)
binary_value BinaryOp.and a b =
    of_bool (do y ← as_bool b; x ← as_bool a; ok (if x then y else false))
binary_value BinaryOp.or a b = of_bool (do y ← as_bool b; x ← as_bool a; ok (if x then true else y))
binary_value BinaryOp.in_set a b = of_bool (member a b)
binary_value BinaryOp.not_in a b = of_bool (do r ← member a b; ok (Prelude.not r))
binary_value _ a b = err type_mismatch

module _ (caller record_value : Value) where
  unfoldable pub root_value : Bytes → Value
  root_value root = if bytes_eq root (codes "caller") then caller else record_value

  unfoldable pub path_value : List Bytes → NativeVal
  unfolding root_value follow
  path_value [] = NativeVal.null
  path_value (root ∷ segs) = follow (root_value root) segs

  unfoldable pub call_value : Bytes → NativeVal → NativeVal → IrResult NativeVal
  call_value name a b =
      if bytes_eq name (codes "has_role")
      then of_bool (has_role caller b)
      else ok (NativeVal.boolean (tenant_match caller record_value))

  unfoldable mutual
    unfolding literal_value path_value unary_value binary_value call_value

    pub eval : Expr → IrResult NativeVal
    eval (Expr.literal lit span) = literal_value lit
    eval (Expr.path p) = ok (path_value p.segments)
    eval (Expr.unary uop inner span) = do v ← eval inner; unary_value uop v
    eval (Expr.binary bop a b span) = do x ← eval a; y ← eval b; binary_value bop x y
    eval (Expr.call name args span) = eval_call args (joined name)
    eval (Expr.list items span) = err type_mismatch

    pub eval_call : Exprs → Bytes → IrResult NativeVal
    eval_call (Exprs.cons a (Exprs.cons b Exprs.nil)) name = do
      x ← eval a
      y ← eval b
      call_value name x y
    eval_call _ name = err type_mismatch

  -- The verdict of a predicate: its value must be a boolean.
  unfoldable pub verdict : Expr → IrResult Bool
  unfolding eval
  verdict e = eval e >>= as_bool

-- The first rule for an action: its mask shares a bit with the action's.
unfoldable pub applicable : List PolicyRule → ℕ → Option PolicyRule
applicable [] action = none
applicable (rule ∷ rest) action =
    let later = applicable rest action in
    if bit_and (action_mask rule.actions) action == 0 then later else some rule

-- The verdict of a policy: that of the first rule for the action, and deny if there is none.
unfoldable pub policy_verdict : Value → Value → Option PolicyRule → IrResult Bool
policy_verdict caller record_value none = ok false
policy_verdict caller record_value (some rule) = verdict caller record_value rule.predicate

-- The stack slots that evaluation needs.
unfoldable mutual
  pub depth : Expr → ℕ
  depth (Expr.literal lit span) = 1
  depth (Expr.path p) = 1
  depth (Expr.unary uop inner span) = depth inner
  depth (Expr.binary bop a b span) = max (depth a) (depth b + 1)
  depth (Expr.call name args span) = depth_args args
  depth (Expr.list items span) = 1

  pub depth_args : Exprs → ℕ
  depth_args (Exprs.cons a (Exprs.cons b Exprs.nil)) = max (depth a) (depth b + 1)
  depth_args _ = 1

-- The operations that evaluation takes.
unfoldable mutual
  pub rounds : Expr → ℕ
  rounds (Expr.literal lit span) = 1
  rounds (Expr.path p) = 1
  rounds (Expr.unary uop inner span) = rounds inner + 1
  rounds (Expr.binary bop a b span) = rounds a + (rounds b + 1)
  rounds (Expr.call name args span) = rounds_args args
  rounds (Expr.list items span) = 0

  pub rounds_args : Exprs → ℕ
  rounds_args (Exprs.cons a (Exprs.cons b Exprs.nil)) = rounds a + (rounds b + 1)
  rounds_args _ = 0

-- What Rust's types promise of a tree: 64-bit words, and texts in UTF-8.
abbrev pub LiteralFits : Literal → Type 0
LiteralFits (Literal.integer i) = i < 256 ^ 8
LiteralFits (Literal.float f) = f < 256 ^ 8
LiteralFits (Literal.string s) = is_utf8 s ≡ true
LiteralFits _ = Unit

abbrev pub TextsFit : List Bytes → Type 0
TextsFit [] = Unit
TextsFit (s ∷ rest) = (is_utf8 s ≡ true) × TextsFit rest

unfoldable pub path_reaches : Value → Value → List Bytes → Bool
unfolding root_value reaches
path_reaches caller record_value [] = true
path_reaches caller record_value (root ∷ segs) = reaches (root_value caller record_value root) segs

module _ (caller record_value : Value) where
  -- A tree whose texts and words are in range, and whose paths miss at most their last key.
  unfoldable mutual
    pub Fits : Expr → Type 0
    Fits (Expr.literal lit span) = LiteralFits lit
    Fits (Expr.path p) = TextsFit p.segments × (path_reaches caller record_value p.segments ≡ true)
    Fits (Expr.unary uop inner span) = Fits inner
    Fits (Expr.binary bop a b span) = Fits a × Fits b
    Fits (Expr.call name args span) = FitsArgs args
    Fits (Expr.list items span) = Unit

    pub FitsArgs : Exprs → Type 0
    FitsArgs (Exprs.cons a (Exprs.cons b Exprs.nil)) = Fits a × Fits b
    FitsArgs _ = Unit
