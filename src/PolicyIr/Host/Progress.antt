-- ===== src/PolicyIr/Host/Progress.antt =====
-- How the position and the stack of `run` of crates/sealstack-policy-ir/src/host.rs move.
use Prim.Native.Nat.add
use sealstack.Prelude.{
  ap, ◌∙◌, if◌then◌else◌, ltb, none, ◌==◌, ◌||◌, take, drop, ◌*◌, true, false, ℕ, zero, suc, ◌+◌,
  ◌≤◌, ◌<◌, ◌≡◌, refl, Bool, Option, some, inl, inr, not, [], ◌∷◌, arith, length, ok, err, ◌>>=◌,
  ok_or, >>=-eq-ok, ok_or-eq-ok, lt_of_get_elem?, Option-cases,
}
use mathlib.Core.Path.{subst}
use sealstack.Bytes.Le.{from_le_bytes}
use sealstack.Bytes.{bytes_eq, Bytes}
use sealstack.Json.{Value, get}
use sealstack.PolicyIr.{magic, Op}
use sealstack.PolicyIr.Decode.{op_of}
use sealstack.PolicyIr.Host.{
  IrResult, bad_magic, bad_length, find_entry, index, checked_add, NativeVal, eq_native,
  tenant_match, Stack, Outcome, next, done, byte_at, read_u16, read_bytes, read_i64, read_f64,
  read_str, load_segments, load_path, push_next, binary_op, logic_op, exec, tick, continue, run,
  interpret, interpret_body, max_stack,
}

-- A reader that succeeds ends where it began or later.
abbrev Forward : {A : Type 0} → ℕ → IrResult (A × ℕ) → Type 0
Forward ip (ok (a, ip')) = ip ≤ ip'
Forward ip (err e) = Unit

Forward-le : {A : Type 0} (i j : ℕ) (r : IrResult (A × ℕ)) → i ≤ j → Forward j r → Forward i r
Forward-le i j (ok (a, k)) le h = omega arith
Forward-le i j (err e) le h = tt

Forward-bind :
    {A B : Type 0} (ip : ℕ) (r : IrResult (A × ℕ)) (k : A × ℕ → IrResult (B × ℕ))
    → Forward ip r
    → ((a : A) (ip' : ℕ) → ip ≤ ip' → Forward ip (k (a, ip')))
    → Forward ip (r >>= k)
Forward-bind ip (ok (a, ip')) k h f = f a ip' h
Forward-bind ip (err e) k h f = tt

module _ (ir : Bytes) where
  read_u16-Forward : (ip : ℕ) → Forward ip (read_u16 ir ip)
  unfolding read_u16
  read_u16-Forward ip = ground arith

  read_bytes-Forward : (n ip : ℕ) → Forward ip (read_bytes n ir ip)
  unfolding read_bytes
  read_bytes-Forward zero ip = omega arith
  read_bytes-Forward (suc n) ip = ground (arith, read_bytes-Forward n (ip + 1))

  read_i64-Forward : (ip : ℕ) → Forward ip (read_i64 ir ip)
  unfolding read_i64
  read_i64-Forward ip = ground (arith, read_bytes-Forward 8 ip)

  read_f64-Forward : (ip : ℕ) → Forward ip (read_f64 ir ip)
  unfolding read_f64
  read_f64-Forward ip = ground (arith, read_bytes-Forward 8 ip)

  read_str-Forward : (ip : ℕ) → Forward ip (read_str ir ip)
  unfolding read_str
  read_str-Forward ip = ground (arith, read_u16-Forward ip)

  load_segments-Forward : (n ip : ℕ) (cursor : Value) → Forward ip (load_segments n ir ip cursor)
  unfolding load_segments
  load_segments-Forward zero ip cursor = omega arith
  load_segments-Forward (suc n) ip cursor =
      Forward-bind ip (read_str ir ip) _ (read_str-Forward ip) λ seg ip' le.
        elim (Option-cases (get cursor seg)) [
          | inl missing ↦ rw missing le
          | inr (v, found) ↦ rw found (Forward-le ip ip' _ le (load_segments-Forward n ip' v))
        ]

  load_path-Forward : (ip : ℕ) (root : Value) → Forward ip (load_path ir ip root)
  unfolding load_path
  load_path-Forward ip root = go (byte_at ir ip)
    where
      go : (r : IrResult ℕ) → Forward ip (r >>= λ n. load_segments n ir (ip + 1) root)
      go (err e) = tt
      go (ok n) = Forward-le ip (ip + 1) _ (omega arith) (load_segments-Forward n (ip + 1) root)

-- A round that goes on does so at `ip` or later, with a stack that fits.
abbrev Advances : ℕ → IrResult Outcome → Type 0
Advances ip (ok (next ip' stack)) = (ip ≤ ip') × (length stack ≤ max_stack)
Advances ip (ok (done b)) = Unit
Advances ip (err e) = Unit

push_next-Advances :
    (v : NativeVal) (ip ip' : ℕ) (s : Stack) → ip ≤ ip' → Advances ip (push_next v ip' s)
unfolding push_next
push_next-Advances v ip ip' s h = ground arith

binary_op-Advances :
    (f : NativeVal → NativeVal → IrResult Bool) (ip : ℕ) (s : Stack)
    → Advances ip (binary_op f ip s)
unfolding binary_op
binary_op-Advances f ip [] = tt
binary_op-Advances f ip (b ∷ []) = tt
binary_op-Advances f ip (b ∷ a ∷ s) = go (f a b)
  where
    go : (r : IrResult Bool) → Advances ip (r >>= λ x. push_next (NativeVal.boolean x) ip s)
    go (err e) = tt
    go (ok x) = push_next-Advances (NativeVal.boolean x) ip ip s (omega arith)

logic_op-Advances : (f : Bool → Bool → Bool) (ip : ℕ) (s : Stack) → Advances ip (logic_op f ip s)
unfolding logic_op
logic_op-Advances f ip s = ground arith

-- A reader, then a push.
push_read-Advances :
    {A : Type 0} (f : A → NativeVal) (ip : ℕ) (r : IrResult (A × ℕ)) (s : Stack)
    → Forward ip r
    → Advances ip (r >>= λ x. push_next (f x.0) x.1 s)
push_read-Advances f ip (err e) s h = tt
push_read-Advances f ip (ok (a, ip')) s h = push_next-Advances (f a) ip ip' s h

exec-Advances :
    (ir : Bytes) (caller record_value : Value) (op : Op) (ip : ℕ) (s : Stack)
    → Advances ip (exec ir caller record_value op ip s)
unfolding exec
exec-Advances ir c v Op.lit_null ip s = push_next-Advances _ ip ip s (omega arith)
exec-Advances ir c v Op.lit_bool ip s = ground arith
exec-Advances ir c v Op.lit_i64 ip s =
    push_read-Advances NativeVal.i64 ip (read_i64 ir ip) s (read_i64-Forward ir ip)
exec-Advances ir c v Op.lit_duration_secs ip s =
    push_read-Advances NativeVal.i64 ip (read_i64 ir ip) s (read_i64-Forward ir ip)
exec-Advances ir c v Op.lit_f64 ip s =
    push_read-Advances NativeVal.f64 ip (read_f64 ir ip) s (read_f64-Forward ir ip)
exec-Advances ir c v Op.lit_str ip s =
    push_read-Advances NativeVal.str ip (read_str ir ip) s (read_str-Forward ir ip)
exec-Advances ir c v Op.load_caller ip s =
    push_read-Advances (λ x. x) ip (load_path ir ip c) s (load_path-Forward ir ip c)
exec-Advances ir c v Op.load_self ip s =
    push_read-Advances (λ x. x) ip (load_path ir ip v) s (load_path-Forward ir ip v)
exec-Advances ir c v Op.op_and ip s = logic_op-Advances _ ip s
exec-Advances ir c v Op.op_or ip s = logic_op-Advances _ ip s
exec-Advances ir c v Op.op_not ip s = ground arith
exec-Advances ir c v Op.result ip s = ground arith
exec-Advances ir c v Op.deny ip s = tt
exec-Advances ir c v Op.allow ip s = tt
exec-Advances ir c v Op.op_eq ip s = binary_op-Advances (λ a b. ok (eq_native a b)) ip s
exec-Advances ir c v Op.op_ne ip s = binary_op-Advances (λ a b. ok (not (eq_native a b))) ip s
exec-Advances ir c v Op.call_tenant_match ip s =
    binary_op-Advances (λ _ _. ok (tenant_match c v)) ip s
exec-Advances ir c v _ ip s = binary_op-Advances _ ip s

module _ (ir : Bytes) (caller record_value : Value) where
  -- A round that goes on fetched its tag inside the bytecode, moves forward, and leaves a stack of
  -- at most `MAX_STACK` values.
  pub tick-next :
      (ip : ℕ) (s : Stack) (ip' : ℕ) (s' : Stack)
      → tick ir caller record_value ip s ≡ ok (next ip' s')
      → (ip < ip') × (ip < length ir) × (length s' ≤ max_stack)
  unfolding tick
  tick-next ip s ip' s' h =
      let (b, fetched, h₁) = >>=-eq-ok (byte_at ir ip) _ h in
      let (op, known, h₂) = >>=-eq-ok (ok_or (op_of b) _) _ h₁ in
      let adv = subst (Advances (ip + 1)) h₂ (exec-Advances ir caller record_value op (ip + 1) s) in
      (omega (arith, adv.0), lt_of_get_elem? ir ip (ok_or-eq-ok _ _ fetched), adv.1)

  -- With fuel for every byte left, and for one round at least, the loop returns.
  pub run_total :
      (fuel ip : ℕ) (s : Stack)
      → 0 < fuel
      → length ir < ip + fuel
      → (r : IrResult Bool) × (run ir caller record_value fuel ip s ≡ some r)
  unfolding run
  run_total zero ip s p h = elim p [ ]
  run_total (suc fuel) ip s p h =
      go (tick ir caller record_value ip s) refl (λ ip' s'. run_total fuel ip' s')
    where
      go :
          (t : IrResult Outcome)
          → tick ir caller record_value ip s ≡ t
          → ((ip' : ℕ) (s' : Stack)
              → 0 < fuel
              → length ir < ip' + fuel
              → (r : IrResult Bool) × (run ir caller record_value fuel ip' s' ≡ some r))
          → (r : IrResult Bool) × (continue ir caller record_value
                (run ir caller record_value fuel)
                t
              ≡ some r)
      go (err e) q rest = (err e, refl)
      go (ok (done b)) q rest = (ok b, refl)
      go (ok (next ip' s')) q rest =
          let (forward, inside, fits) = tick-next ip s ip' s' q in
          rest ip' s' (omega arith) (omega arith)

-- More fuel does not change what the loop returned.
pub run_mono :
    (ir : Bytes) (caller record_value : Value) (fuel more ip : ℕ) (s : Stack) (r : IrResult Bool)
    → run ir caller record_value fuel ip s ≡ some r
    → run ir caller record_value (fuel + more) ip s ≡ some r
unfolding run
run_mono ir caller record_value zero more ip s r h = cc
run_mono ir caller record_value (suc fuel) more ip s r h =
    ap (λ n. run ir caller record_value n ip s) (add.suc fuel more)
    ∙ go (tick ir caller record_value ip s) h
        (λ ip' s'. run_mono ir caller record_value fuel more ip' s' r)
  where
    go :
        (t : IrResult Outcome)
        → continue ir caller record_value (run ir caller record_value fuel) t ≡ some r
        → ((ip' : ℕ) (s' : Stack)
            → run ir caller record_value fuel ip' s' ≡ some r
            → run ir caller record_value (fuel + more) ip' s' ≡ some r)
        → continue ir caller record_value (run ir caller record_value (fuel + more)) t ≡ some r
    go (err e) h ih = h
    go (ok (done b)) h ih = h
    go (ok (next ip' s')) h ih = ih ip' s' h

record Returns (o : Option (IrResult Bool)) : Type 0 where
  value : IrResult Bool
  equation : o ≡ some value

returns : (r : IrResult Bool) → Returns (some r)
returns r = record { value = r; equation = refl }

Returns-if :
    (b : Bool) (x y : Option (IrResult Bool)) → Returns x → Returns y → Returns (if b then x else y)
Returns-if true x y p q = p
Returns-if false x y p q = q

Returns-elim :
    (o : Option ℕ) (x : Option (IrResult Bool)) (f : ℕ → Option (IrResult Bool))
    → Returns x
    → ((n : ℕ) → Returns (f n))
    → Returns (elim o [ none ↦ x | some n ↦ f n ])
Returns-elim none x f p q = p
Returns-elim (some n) x f p q = q n

run-Returns :
    (ir : Bytes) (caller record_value : Value) (ip : ℕ)
    → Returns (run ir caller record_value (length ir + 1) ip [])
run-Returns ir caller record_value ip =
    let (r, e) =
      run_total ir caller record_value (length ir + 1) ip [] (omega arith) (omega arith) in
    record { value = r; equation = e }

interpret_body-Returns :
    (ir : Bytes) (caller record_value : Value) (action : ℕ)
    → Returns (interpret_body ir caller record_value action)
unfolding interpret_body
interpret_body-Returns ir caller record_value action =
    Returns-if (length ir == 0 || index ir 0 == 0) _ _ (returns (ok false)) (
      Returns-if (ltb (length ir) (1 + index ir 0 * 3)) _ _ (returns (err bad_length)) (
        Returns-elim (find_entry ir (1 + index ir 0 * 3) action (index ir 0) 0) _ _
          (returns (ok false)) (run-Returns ir caller record_value)))

interpret-Returns :
    (ir_full : Bytes) (caller record_value : Value) (action : ℕ)
    → Returns (interpret ir_full caller record_value action)
unfolding interpret
interpret-Returns ir_full caller record_value action =
    let declared_len = from_le_bytes (take 4 (drop 4 ir_full)) in
    Returns-if (ltb (length ir_full) 8 || not (bytes_eq (take 4 ir_full) magic)) _ _
      (returns (err bad_magic))
      (Returns-elim (checked_add declared_len 8) _ _ (returns (err bad_length)) λ total.
        Returns-if (ltb (length ir_full) total) _ _ (returns (err bad_length))
          (interpret_body-Returns (take declared_len (drop 8 ir_full)) caller record_value action))

-- The interpreter returns a verdict or an error on every byte string, caller, record and action:
-- it never runs out of the fuel that it gives itself.
pub interpret_total :
    (ir_full : Bytes) (caller record_value : Value) (action : ℕ)
    → (r : IrResult Bool) × (interpret ir_full caller record_value action ≡ some r)
interpret_total ir_full caller record_value action =
    let t = interpret-Returns ir_full caller record_value action in (t.value, t.equation)
