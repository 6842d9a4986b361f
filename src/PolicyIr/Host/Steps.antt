-- ===== src/PolicyIr/Host/Steps.antt =====
-- One round of the interpreter at a known operation, and runs of it that leave a value on the stack.
use sealstack.Prelude.{
  ℕ, suc, ◌+◌, ◌≤◌, ◌<◌, ◌≡◌, refl, ap, ◌∙◌, Bool, Option, some, [], ◌∷◌, ◌++◌, append_assoc, arith,
  max, length, length-append, lt→ltb, ok, err, ◌>>=◌, Sees, Sees-get_elem?, Sees-next, Sees-append,
}
use sealstack.Bytes.{Bytes}
use sealstack.Json.{Value}
use sealstack.PolicyIr.{Op, tag}
use sealstack.PolicyIr.Decode.{op_of-tag}
use sealstack.PolicyIr.Host.{
  NativeVal, IrResult, Stack, next, byte_at, push_next, exec, tick, continue, run, max_stack,
}

-- Go on with a value, or stop with its error.
abbrev pub and_then :
    {A : Type 0} → IrResult A → (A → Option (IrResult Bool)) → Option (IrResult Bool)
and_then (ok a) k = k a
and_then (err e) k = some (err e)

module _ (ir : Bytes) (caller record_value : Value) where
  abbrev run_at : ℕ → ℕ → Stack → Option (IrResult Bool)
  run_at = run ir caller record_value

  pub run-suc :
      (f ip : ℕ) (op : Op) (rest : Bytes) (s : Stack)
      → Sees ir ip (tag op ∷ rest)
      → run ir caller record_value (suc f) ip s
        ≡ continue ir caller record_value
            (run ir caller record_value f)
            (exec ir caller record_value op (ip + 1) s)
  unfolding run tick byte_at
  run-suc f ip op rest s sees = rw (Sees-get_elem? ir ip sees, op_of-tag op)

  push_next-fits :
      (v : NativeVal) (ip : ℕ) (s : Stack)
      → length s < max_stack
      → push_next v ip s ≡ ok (next ip (v ∷ s))
  unfolding push_next
  push_next-fits v ip s h = rw (lt→ltb (length s) max_stack h)

  -- The rest of a round that pushes the value of `r`.
  continue-push :
      (r : IrResult NativeVal) (f ip : ℕ) (s : Stack)
      → length s < max_stack
      → continue ir caller record_value (run_at f) (r >>= λ v. push_next v ip s)
        ≡ and_then r (λ v. run_at f ip (v ∷ s))
  continue-push (ok v) f ip s h = rw (push_next-fits v ip s h)
  continue-push (err e) f ip s h = refl

  -- A round whose operation pushes the value of `r`, ending at `ip''`.
  round :
      (r : IrResult NativeVal) (op : Op) (f ip ip' ip'' : ℕ) (rest : Bytes) (s s' : Stack)
      → Sees ir ip (tag op ∷ rest)
      → exec ir caller record_value op (ip + 1) s ≡ (r >>= λ v. push_next v ip' s')
      → length s' < max_stack
      → ip' ≡ ip''
      → run_at (suc f) ip s ≡ and_then r (λ v. run_at f ip'' (v ∷ s'))
  round r op f ip ip' ip'' rest s s' sees e room eq =
      run-suc f ip op rest s sees
      ∙ ap (continue ir caller record_value (run_at f)) e
      ∙ continue-push r f ip' s' room
      ∙ ap (λ k. and_then r (λ v. run_at f k (v ∷ s'))) eq

  run_fuel : (n m ip : ℕ) (s : Stack) → n ≡ m → run_at n ip s ≡ run_at m ip s
  run_fuel n m ip s e = ap (λ k. run_at k ip s) e

  -- `code` takes `rounds` rounds and leaves `value` on the stack, or stops with its error, on any
  -- stack with room for `depth` more, in front of any further code.
  unfoldable pub RunsAs : IrResult NativeVal → ℕ → ℕ → Bytes → Type 0
  RunsAs value depth rounds code =
      (ip : ℕ) (rest : Bytes) (s : Stack) (f : ℕ)
      → Sees ir ip (code ++ rest)
      → length s + depth ≤ max_stack
      → run ir caller record_value (rounds + f) ip s
        ≡ and_then value (λ v. run ir caller record_value f (ip + length code) (v ∷ s))

  -- An operation that pushes one value, whose operands are `operands`.
  pub leaf-RunsAs :
      (v : NativeVal) (op : Op) (operands : Bytes)
      → ((ip : ℕ) (rest : Bytes) (s : Stack)
          → Sees ir ip (operands ++ rest)
          → exec ir caller record_value op ip s ≡ push_next v (ip + length operands) s)
      → RunsAs (ok v) 1 1 (tag op ∷ operands)
  unfolding RunsAs
  leaf-RunsAs v op operands h ip rest s f sees room =
      run_fuel (1 + f) (suc f) ip s (omega arith)
      ∙ round (ok v) op f ip _ _ (operands ++ rest) s s sees
          (h (ip + 1) rest s (Sees-next ir ip _ _ sees)) (omega arith) (omega arith)

  -- An operation on the value on top.
  pub unary-RunsAs :
      (value : IrResult NativeVal) (d n : ℕ) (code : Bytes) (op : Op)
      (g : NativeVal → IrResult NativeVal)
      → RunsAs value d n code
      → 1 ≤ d
      → ((x : NativeVal) (ip : ℕ) (s : Stack)
          → exec ir caller record_value op ip (x ∷ s) ≡ (g x >>= λ v. push_next v ip s))
      → RunsAs (value >>= g) d (n + 1) (code ++ tag op ∷ [])
  unfolding RunsAs
  unary-RunsAs value d n code op g runs pos h ip rest s f sees room =
      run_fuel (n + 1 + f) (n + suc f) ip s (omega arith)
      ∙ runs ip (tag op ∷ rest) s (suc f) (rw append_assoc at sees) room
      ∙ go value
    where
      go :
          (r : IrResult NativeVal)
          → and_then r (λ v. run_at (suc f) (ip + length code) (v ∷ s))
            ≡ and_then (r >>= g) (λ v. run_at f (ip + length (code ++ tag op ∷ [])) (v ∷ s))
      go (err e) = refl
      go (ok x) =
          round (g x) op f (ip + length code) _ _ rest (x ∷ s) s
            (Sees-append ir ip code _ (rw append_assoc at sees)) (h x (ip + length code + 1) s)
            (omega arith) (omega (arith, length-append code (tag op ∷ [])))

  -- An operation on the two values on top, computed by `a` and then `b`.
  pub binary-RunsAs :
      (a b : IrResult NativeVal) (da db na nb : ℕ) (ca cb : Bytes) (op : Op)
      (g : NativeVal → NativeVal → IrResult NativeVal)
      → RunsAs a da na ca
      → RunsAs b db nb cb
      → ((x y : NativeVal) (ip : ℕ) (s : Stack)
          → exec ir caller record_value op ip (y ∷ x ∷ s) ≡ (g x y >>= λ v. push_next v ip s))
      → RunsAs
          (a >>= λ x. b >>= λ y. g x y)
          (max da (db + 1))
          (na + (nb + 1))
          (ca ++ (cb ++ tag op ∷ []))
  unfolding RunsAs
  binary-RunsAs a b da db na nb ca cb op g runs_a runs_b h ip rest s f sees room =
      run_fuel (na + (nb + 1) + f) (na + (nb + suc f)) ip s (omega arith)
      ∙ runs_a ip (cb ++ tag op ∷ rest) s (nb + suc f) at_a (omega arith)
      ∙ go_a a
    where
      at_a : Sees ir ip (ca ++ (cb ++ tag op ∷ rest))
      at_a = simp append_assoc at sees

      at_b : Sees ir (ip + length ca) (cb ++ tag op ∷ rest)
      at_b = Sees-append ir ip ca _ at_a

      go_b :
          (x : NativeVal) (r : IrResult NativeVal)
          → and_then r (λ y. run_at (suc f) (ip + length ca + length cb) (y ∷ x ∷ s))
            ≡ and_then (r >>= g x) (λ v. run_at f (ip + length (ca ++ (cb ++ tag op ∷ []))) (v ∷ s))
      go_b x (err e) = refl
      go_b x (ok y) =
          round (g x y) op f (ip + length ca + length cb) _ _ rest (y ∷ x ∷ s) s
            (Sees-append ir (ip + length ca) cb _ at_b) (h x y (ip + length ca + length cb + 1) s)
            (omega arith)
            (omega (arith, length-append ca (cb ++ tag op ∷ []), length-append cb (tag op ∷ [])))

      go_a :
          (r : IrResult NativeVal)
          → and_then r (λ x. run_at (nb + suc f) (ip + length ca) (x ∷ s))
            ≡ and_then
                (r >>= λ x. b >>= λ y. g x y)
                (λ v. run_at f (ip + length (ca ++ (cb ++ tag op ∷ []))) (v ∷ s))
      go_a (err e) = refl
      go_a (ok x) =
          runs_b (ip + length ca) (tag op ∷ rest) (x ∷ s) (suc f) at_b (omega arith) ∙ go_b x b
