-- ===== src/Csl/Policy/Verdict.antt =====
-- Runs of the interpreter from a rule's offset to its `RESULT`.
use mathlib.Core.Path.{subst}
use sealstack.Prelude.{
  ℕ, suc, ◌+◌, ◌≤◌, ◌≡◌, refl, ap, sym, ◌∙◌, false, Option, none, some, ok, err, ◌>>=◌, [], ◌∷◌,
  ◌++◌, arith, length, Sees, Sees-append,
}
use sealstack.Bytes.{Bytes}
use sealstack.Json.{Value}
use sealstack.PolicyIr.{Op, tag}
use sealstack.PolicyIr.Host.{NativeVal, IrResult, as_bool, exec, run, max_stack}
use sealstack.PolicyIr.Host.Progress.{run_total, run_mono}
use sealstack.PolicyIr.Host.Steps.{RunsAs, and_then, run-suc}
use sealstack.Csl.Ast.{PolicyRule, Expr}
use sealstack.Csl.Policy.{lower_expr}
use sealstack.Csl.Policy.Meaning.{eval, depth, rounds, Fits, verdict, policy_verdict}
use sealstack.Csl.Policy.Correct.{lower_expr-Emits}
use sealstack.Csl.Policy.Layout.{Located, absent, located}

-- The rule that decides fits, and evaluates within the stack.
abbrev pub RuleFits : Value → Value → Option PolicyRule → Type 0
RuleFits caller record_value none = Unit
RuleFits caller record_value (some rule) =
    Fits caller record_value rule.predicate × (depth rule.predicate ≤ max_stack)

module _ (ir : Bytes) (caller record_value : Value) where
  -- `RESULT` returns the boolean on top.
  run-result :
      (f ip : ℕ) (rest : Bytes) (v : NativeVal)
      → Sees ir ip (tag Op.result ∷ rest)
      → run ir caller record_value (suc f) ip (v ∷ []) ≡ some (as_bool v)
  run-result f ip rest (NativeVal.boolean b) s =
      run-suc ir caller record_value f ip Op.result rest (NativeVal.boolean b ∷ []) s
      ∙ unfold exec as_bool in refl
  run-result f ip rest v s =
      run-suc ir caller record_value f ip Op.result rest (v ∷ []) s ∙ unfold exec as_bool in refl

  finish :
      (value : IrResult NativeVal) (f ip : ℕ) (rest : Bytes)
      → Sees ir ip (tag Op.result ∷ rest)
      → and_then value (λ v. run ir caller record_value (suc f) ip (v ∷ []))
        ≡ some (value >>= as_bool)
  finish (ok v) f ip rest s = run-result f ip rest v s
  finish (err e) f ip rest s = refl

  run-verdict :
      (e : Expr) (code rest : Bytes) (ip : ℕ)
      → Fits caller record_value e
      → depth e ≤ max_stack
      → lower_expr e [] ≡ ok code
      → Sees ir ip (code ++ tag Op.result ∷ rest)
      → run ir caller record_value (length ir + 1) ip [] ≡ some (verdict caller record_value e)
  unfolding verdict RunsAs
  run-verdict e code rest ip fit small lowered s =
      let fuel = length ir + 1 in
      let (c, same, runs) = lower_expr-Emits ir caller record_value e [] fit lowered in
      let s' = subst (λ k. Sees ir ip (k ++ tag Op.result ∷ rest)) same s in
      let (r, returned) = run_total ir caller record_value fuel ip [] (omega arith) (omega arith) in
      returned
      ∙ sym (run_mono ir caller record_value fuel (rounds e + 1) ip [] r returned)
      ∙ ap (λ n. run ir caller record_value n ip []) (omega arith)
      ∙ runs ip (tag Op.result ∷ rest) [] (suc fuel) s' (omega arith)
      ∙ finish (eval caller record_value e) fuel (ip + length c) rest (Sees-append ir ip c _ s')

  pub Located-verdict :
      (action table_end : ℕ) (o : Option PolicyRule) (p : Option ℕ)
      → RuleFits caller record_value o
      → Located ir table_end action o p
      → (elim p [
        | none ↦ some (ok false)
        | some ip ↦ run ir caller record_value (length ir + 1) ip []
      ])
        ≡ some (policy_verdict caller record_value o)
  unfolding policy_verdict
  Located-verdict action table_end o p fit absent = refl
  Located-verdict action table_end o p fit (located rule stream rest ip lowered s) =
      run-verdict rule.predicate stream rest ip fit.0 fit.1 lowered s
