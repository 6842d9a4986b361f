-- ===== src/Csl/Policy/Correct.antt =====
-- `lower_expr` of crates/sealstack-csl/src/codegen/policy.rs against the meaning of a predicate.
use sealstack.Prelude.{
  ℕ, ◌+◌, ◌≤◌, ◌≡◌, ap, sym, ◌∙◌, ok, err, ◌>>=◌, >>=-eq-ok, ok_inj, [], ◌∷◌, ◌++◌, append_assoc,
  arith, max,
}
use sealstack.Bytes.{Bytes}
use sealstack.Json.{Value}
use sealstack.PolicyIr.{Op, tag}
use sealstack.PolicyIr.Host.{NativeVal, IrResult}
use sealstack.PolicyIr.Host.Steps.{RunsAs, unary-RunsAs, binary-RunsAs}
use sealstack.Csl.Ast.{Expr, Exprs, joined}
use sealstack.Csl.Policy.{CslResult, CslError, lower_expr, lower_call, binary_op, unary_op, call_op}
use sealstack.Csl.Policy.Meaning.{
  eval, eval_call, depth, depth_args, rounds, rounds_args, Fits, FitsArgs, binary_value,
  unary_value, call_value,
}
use sealstack.Csl.Policy.Ops.{Binary, exec-binary_op, exec-unary_op, exec-call_op}
use sealstack.Csl.Policy.Leaves.{literal-Leaf, path-Leaf}

mutual
  unfolding depth

  depth_pos : (e : Expr) → 1 ≤ depth e
  depth_pos (Expr.literal lit span) = omega arith
  depth_pos (Expr.path p) = omega arith
  depth_pos (Expr.unary uop inner span) = depth_pos inner
  depth_pos (Expr.binary bop a b span) = omega (arith, depth_pos a)
  depth_pos (Expr.call name args span) = depth_args_pos args
  depth_pos (Expr.list items span) = omega arith

  depth_args_pos : (args : Exprs) → 1 ≤ depth_args args
  depth_args_pos Exprs.nil = omega arith
  depth_args_pos (Exprs.cons a Exprs.nil) = omega arith
  depth_args_pos (Exprs.cons a (Exprs.cons b Exprs.nil)) = omega (arith, depth_pos a)
  depth_args_pos (Exprs.cons a (Exprs.cons b (Exprs.cons c rest))) = omega arith

bind_err :
    {A : Type 0} (r : CslResult A) (e : CslError) {b : Bytes}
    → ◌≡◌ {A = CslResult Bytes} (r >>= λ _. err e) (ok b)
    → ⊥
bind_err (ok a) e h = cc
bind_err (err x) e h = cc

module _ (ir : Bytes) (caller record_value : Value) where
  -- The bytes appended to `out` compute `value`, with `d` stack slots and in `n` rounds.
  abbrev pub Emits : IrResult NativeVal → ℕ → ℕ → Bytes → Bytes → Type 0
  Emits value d n out out' =
      (code : Bytes) × (out' ≡ out ++ code) × RunsAs ir caller record_value value d n code

  Emits-Binary :
      (a b : IrResult NativeVal) (da db na nb : ℕ) (out out₁ out₂ out' : Bytes) (op : Op)
      (g : NativeVal → NativeVal → IrResult NativeVal)
      → Emits a da na out out₁
      → Emits b db nb out₁ out₂
      → Binary ir caller record_value g op
      → ◌≡◌ {A = CslResult Bytes} (ok (out₂ ++ tag op ∷ [])) (ok out')
      → Emits (a >>= λ x. b >>= λ y. g x y) (max da (db + 1)) (na + (nb + 1)) out out'
  Emits-Binary a b da db na nb out out₁ out₂ out' op g (ca, ea, ra) (cb, eb, rb) h e = (
    ca ++ (cb ++ tag op ∷ []),
    sym (ok_inj e) ∙ rw (eb, ea) (simp append_assoc),
    binary-RunsAs ir caller record_value a b da db na nb ca cb op g ra rb h,
  )

  mutual
    unfolding lower_expr eval depth rounds Fits

    pub lower_expr-Emits :
        (e : Expr) (out : Bytes) {out' : Bytes}
        → Fits caller record_value e
        → lower_expr e out ≡ ok out'
        → Emits (eval caller record_value e) (depth e) (rounds e) out out'
    lower_expr-Emits (Expr.literal lit span) out fit h =
        literal-Leaf ir caller record_value lit out fit h
    lower_expr-Emits (Expr.path p) out fit h =
        path-Leaf ir caller record_value p.segments out fit.0 fit.1 h
    lower_expr-Emits (Expr.list items span) out fit h = cc
    lower_expr-Emits (Expr.unary uop inner span) out fit h =
        let (out₁, h₁, k₁) = >>=-eq-ok (lower_expr inner out) _ h in
        let (op, known, k₂) = >>=-eq-ok (unary_op uop) _ k₁ in
        let (code, e, runs) = lower_expr-Emits inner out fit h₁ in
        (
          code ++ tag op ∷ [],
          sym (ok_inj k₂) ∙ (ap (λ k. k ++ tag op ∷ []) e ∙ append_assoc out code (tag op ∷ [])),
          unary-RunsAs ir caller record_value _ _ _ code op (unary_value uop) runs (depth_pos inner)
              (exec-unary_op ir caller record_value uop known),
        )
    lower_expr-Emits (Expr.binary bop a b span) out {out'} fit h =
        let (out₁, h₁, k₁) = >>=-eq-ok (lower_expr a out) _ h in
        let (out₂, h₂, k₂) = >>=-eq-ok (lower_expr b out₁) _ k₁ in
        let (op, known, k₃) = >>=-eq-ok (binary_op bop) _ k₂ in
        Emits-Binary _ _ _ _ _ _ out out₁ out₂ out' op (binary_value bop)
          (lower_expr-Emits a out fit.0 h₁) (lower_expr-Emits b out₁ fit.1 h₂)
          (exec-binary_op ir caller record_value bop known) k₃
    lower_expr-Emits (Expr.call name args span) out fit h =
        lower_call-Emits args (joined name) out fit h

    lower_call-Emits :
        (args : Exprs) (name : Bytes) (out : Bytes) {out' : Bytes}
        → FitsArgs caller record_value args
        → lower_call args name out ≡ ok out'
        → Emits
            (eval_call caller record_value args name)
            (depth_args args)
            (rounds_args args)
            out
            out'
    lower_call-Emits (Exprs.cons a (Exprs.cons b Exprs.nil)) name out {out'} fit h =
        let (op, known, k₁) = >>=-eq-ok (call_op name) _ h in
        let (out₁, h₁, k₂) = >>=-eq-ok (lower_expr a out) _ k₁ in
        let (out₂, h₂, k₃) = >>=-eq-ok (lower_expr b out₁) _ k₂ in
        Emits-Binary _ _ _ _ _ _ out out₁ out₂ out' op (call_value caller record_value name)
          (lower_expr-Emits a out fit.0 h₁) (lower_expr-Emits b out₁ fit.1 h₂)
          (exec-call_op ir caller record_value name known) k₃
    lower_call-Emits Exprs.nil name out fit h = absurd (bind_err (call_op name) _ h)
    lower_call-Emits (Exprs.cons a Exprs.nil) name out fit h = absurd (bind_err (call_op name) _ h)
    lower_call-Emits (Exprs.cons a (Exprs.cons b (Exprs.cons c rest))) name out fit h =
        absurd (bind_err (call_op name) _ h)
