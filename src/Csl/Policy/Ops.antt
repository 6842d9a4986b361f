-- ===== src/Csl/Policy/Ops.antt =====
-- The operations that operators and built-ins are lowered to, on the top of the stack.
use mathlib.Core.Path.{subst}
use sealstack.Prelude.{
  ℕ, ◌≡◌, refl, ok, err, ◌>>=◌, >>=_assoc, ok_inj, ◌∷◌, if◌then◌else◌, true, false, Bool,
}
use sealstack.Bytes.{Bytes, bytes_eq, codes}
use sealstack.Json.{Value}
use sealstack.PolicyIr.{Op}
use sealstack.PolicyIr.Host.{NativeVal, IrResult, Stack, push_next, exec, has_role, tenant_match}
use sealstack.Csl.Ast.{UnaryOp, BinaryOp}
use sealstack.Csl.Policy.{CslError, binary_op, unary_op, call_op}
use sealstack.Csl.Policy.Meaning.{unary_value, binary_value, call_value}

module _ (ir : Bytes) (caller record_value : Value) where
  abbrev pub Binary : (NativeVal → NativeVal → IrResult NativeVal) → Op → Type 0
  Binary g op =
      (x y : NativeVal) (ip : ℕ) (s : Stack)
      → exec ir caller record_value op ip (y ∷ x ∷ s) ≡ (g x y >>= λ v. push_next v ip s)

  pub exec-binary_op :
      (bop : BinaryOp) {op : Op} → binary_op bop ≡ ok op → Binary (binary_value bop) op
  unfolding binary_op binary_value exec
  exec-binary_op BinaryOp.eq h =
      subst (Binary (binary_value BinaryOp.eq)) (ok_inj h) (λ x y ip s. refl)
  exec-binary_op BinaryOp.ne h =
      subst (Binary (binary_value BinaryOp.ne)) (ok_inj h) (λ x y ip s. refl)
  exec-binary_op BinaryOp.add h = cc
  exec-binary_op BinaryOp.sub h = cc
  exec-binary_op BinaryOp.mul h = cc
  exec-binary_op BinaryOp.div h = cc
  exec-binary_op _ h = subst (Binary _) (ok_inj h) (λ x y ip s. simp >>=_assoc)

  pub exec-unary_op :
      (uop : UnaryOp) {op : Op}
      → unary_op uop ≡ ok op
      → (x : NativeVal) (ip : ℕ) (s : Stack)
      → exec ir caller record_value op ip (x ∷ s) ≡ (unary_value uop x >>= λ v. push_next v ip s)
  unfolding unary_op unary_value exec
  exec-unary_op UnaryOp.not h x ip s =
      subst
        (λ o.
          exec ir caller record_value o ip (x ∷ s)
          ≡ (unary_value UnaryOp.not x >>= λ v. push_next v ip s))
        (ok_inj h) (simp >>=_assoc)
  exec-unary_op UnaryOp.neg h x ip s = cc

  call-cases :
      (b c : Bool) (e : CslError) {op : Op}
      → (if b then ok Op.call_has_role else if c then ok Op.call_tenant_match else err e) ≡ ok op
      → Binary
          (λ x y.
            if b
            then (has_role caller y >>= λ r. ok (NativeVal.boolean r))
            else ok (NativeVal.boolean (tenant_match caller record_value)))
          op
  unfolding exec
  call-cases true c e h = subst (Binary _) (ok_inj h) (λ x y ip s. simp >>=_assoc)
  call-cases false true e h =
      subst (Binary (λ x y. ok (NativeVal.boolean (tenant_match caller record_value)))) (ok_inj h)
        (λ x y ip s. refl)
  call-cases false false e h = cc

  pub exec-call_op :
      (name : Bytes) {op : Op}
      → call_op name ≡ ok op
      → Binary (call_value caller record_value name) op
  unfolding call_op call_value
  exec-call_op name h =
      call-cases (bytes_eq name (codes "has_role")) (bytes_eq name (codes "tenant_match")) _ h
