-- ===== src/PolicyRuntime/Interp/Progress.antt =====
-- How the position of `run` of crates/sealstack-policy-runtime/src/interp.rs moves.
use sealstack.Prelude.{
  ◌≢◌, ◌>>=◌, ℕ, zero, suc, ◌+◌, ◌≤◌, ◌<◌, ◌≡◌, refl, Bool, true, false, Option, none, some, List,
  [], ◌∷◌, arith, length, get_elem?, lt_of_get_elem?, ok, err, ok_or,
}
use sealstack.PolicyRuntime.Interp.Ends.{
  cmp_ord-Ended, in_array-Ended, has_role-Ended, load_value-Ended,
}
use sealstack.Ieee.{f64_lt, f64_le}
use sealstack.PolicyRuntime.Json.{invalid, out_of_fuel, JsonResult, loop, settle}
use sealstack.PolicyRuntime.Json.Loops.{
  Returning, Ended, Ended-ne, Ended-ok_or, loop-Ended, Returning-le, Returning->>=, Forward,
  Forward-settle,
}
use sealstack.Bytes.{Bytes}
use sealstack.PolicyRuntime.Interp.{
  byte_at, read_u16, read_bytes, read_word, read_slice, push_seg, read_segs, Stack, push, pop,
  as_boolean, pop_bool, Next, push_next, binary_op, logic_op, xor, load_path, exec, run_round, run,
  in_array, Val, load_value, boolean, i64, f64, raw, eq_val, tenant_match,
}
use sealstack.PolicyIr.{Op}
use sealstack.PolicyIr.Decode.{op_of}

-- A reader that succeeds ends where it began or later.
abbrev Onward : {A : Type 0} → ℕ → A × ℕ → Type 0
Onward ip x = ip ≤ x.1

Onward-le :
    {A : Type 0} (i j : ℕ) (r : JsonResult (A × ℕ))
    → i ≤ j
    → Returning (Onward j) r
    → Returning (Onward i) r
Onward-le i j r le h = Returning-le (Onward i) (Onward j) r h (λ x k. omega arith)

push_seg-Ended : (segs : List Bytes) (s : Bytes) → Ended (push_seg segs s)
unfolding push_seg
push_seg-Ended segs s = ground arith

pop_bool-Ended : (s : Stack) → Ended (pop_bool s)
unfolding pop_bool pop as_boolean
pop_bool-Ended s = ground arith

module _ (ir : Bytes) where
  read_u16-Onward : (ip : ℕ) → Returning (Onward ip) (read_u16 ir ip)
  unfolding read_u16
  read_u16-Onward ip = ground arith

  read_bytes-Onward : (n ip : ℕ) → Returning (Onward ip) (read_bytes n ir ip)
  unfolding read_bytes
  read_bytes-Onward zero ip = omega arith
  read_bytes-Onward (suc n) ip = ground (arith, read_bytes-Onward n (ip + 1))

  read_word-Onward : (ip : ℕ) → Returning (Onward ip) (read_word ir ip)
  unfolding read_word
  read_word-Onward ip = ground (arith, read_bytes-Onward 8 ip)

  read_slice-Onward : (ip : ℕ) → Returning (Onward ip) (read_slice ir ip)
  unfolding read_slice
  read_slice-Onward ip = ground (arith, read_u16-Onward ip)

  read_segs-Onward : (n ip : ℕ) (segs : List Bytes) → Returning (Onward ip) (read_segs n ir ip segs)
  unfolding read_segs
  read_segs-Onward zero ip segs = omega arith
  read_segs-Onward (suc n) ip segs =
      Returning->>= (Onward ip) (Onward ip) (read_slice ir ip) _ (read_slice-Onward ip) λ x le.
        Returning->>= (Onward ip) (λ _. Unit) (push_seg segs x.0) _ (push_seg-Ended segs x.0)
          λ segs' _. Onward-le ip x.1 _ le (read_segs-Onward n x.1 segs')

  abbrev Moves : ℕ → Stack → Next → Type 0
  Moves ip stack r = Forward (λ s. s.0) (length ir) (ip, stack) r

  push_next-Moves :
      (ip : ℕ) (stack : Stack) (v : Val) (ip' : ℕ) (s : Stack)
      → ip < length ir
      → ip < ip'
      → Moves ip stack (push_next v ip' s)
  unfolding push_next push
  push_next-Moves ip stack v ip' s h k = ground arith

  binary_op-Moves :
      (ip : ℕ) (stack : Stack) (f : Val → Val → JsonResult Bool) (s : Stack)
      → ((a b : Val) → Ended (f a b))
      → ip < length ir
      → Moves ip stack (binary_op f (ip + 1) s)
  unfolding binary_op pop
  binary_op-Moves ip stack f [] e h = tt
  binary_op-Moves ip stack f (b ∷ []) e h = tt
  binary_op-Moves ip stack f (b ∷ a ∷ s) e h =
      Forward-settle (λ p. p.0) (length ir) (ip, stack) (λ _. Unit) (f a b) _ (e a b)
        λ x _. push_next-Moves ip stack (boolean x) (ip + 1) s h (omega arith)

  logic_op-Moves :
      (ip : ℕ) (stack : Stack) (f : Bool → Bool → Bool) (s : Stack)
      → ip < length ir
      → Moves ip stack (logic_op f (ip + 1) s)
  unfolding logic_op pop_bool pop as_boolean push_next push
  logic_op-Moves ip stack f s h = ground arith

  push_read-Moves :
      {A : Type 0} (ip : ℕ) (stack : Stack) (f : A → Val) (r : JsonResult (A × ℕ)) (s : Stack)
      → ip < length ir
      → Returning (Onward (ip + 1)) r
      → Moves ip stack (settle r λ (a, ip'). push_next (f a) ip' s)
  push_read-Moves ip stack f r s h k =
      Forward-settle (λ p. p.0) (length ir) (ip, stack) (Onward (ip + 1)) r _ k
        λ x le. push_next-Moves ip stack (f x.0) x.1 s h (omega arith)

module _ (parse_f64 : Bytes → Option ℕ) (ir input : Bytes) (caller_at self_at : ℕ) where
  load_path-Onward :
      (root_at ip : ℕ)
      → Returning (Onward ip) (load_path parse_f64 ir input caller_at self_at root_at ip)
  unfolding load_path
  load_path-Onward root_at ip =
      Returning->>= (Onward ip) (λ _. Unit) (byte_at ir ip) _ (Ended-ok_or (get_elem? ir ip))
        λ nseg _.
          Returning->>= (Onward ip) (Onward (ip + 1)) (read_segs nseg ir (ip + 1) []) _
            (read_segs-Onward ir nseg (ip + 1) [])
            λ x le.
              Returning->>= (Onward ip) (λ _. Unit) (load_value parse_f64 input root_at x.0) _
                (load_value-Ended parse_f64 input root_at x.0) (λ v _. omega arith)

  in_op-Ended :
      (invert : Bool) (a b : Val)
      → Ended (in_array parse_f64 input a b >>= λ found. ok (xor invert found))
  in_op-Ended invert a b =
      Returning->>= (λ _. Unit) (λ _. Unit) (in_array parse_f64 input a b) _
        (in_array-Ended parse_f64 input a b) (λ _ _. tt)

  exec-Moves :
      (op : Op) (ip : ℕ) (s : Stack)
      → ip < length ir
      → Moves ir ip s (exec parse_f64 ir input caller_at self_at op (ip + 1) s)
  unfolding exec
  exec-Moves Op.lit_null ip s h = push_next-Moves ir ip s _ (ip + 1) s h (omega arith)
  exec-Moves Op.lit_bool ip s h =
      Forward-settle (λ p. p.0) (length ir) (ip, s) (λ _. Unit) (byte_at ir (ip + 1)) _
        (Ended-ok_or (get_elem? ir (ip + 1)))
        λ b _. push_next-Moves ir ip s _ (ip + 1 + 1) s h (omega arith)
  exec-Moves Op.lit_i64 ip s h =
      push_read-Moves ir ip s i64 (read_word ir (ip + 1)) s h (read_word-Onward ir (ip + 1))
  exec-Moves Op.lit_duration_secs ip s h =
      push_read-Moves ir ip s i64 (read_word ir (ip + 1)) s h (read_word-Onward ir (ip + 1))
  exec-Moves Op.lit_f64 ip s h =
      push_read-Moves ir ip s f64 (read_word ir (ip + 1)) s h (read_word-Onward ir (ip + 1))
  exec-Moves Op.lit_str ip s h =
      push_read-Moves ir ip s raw (read_slice ir (ip + 1)) s h (read_slice-Onward ir (ip + 1))
  exec-Moves Op.load_caller ip s h =
      push_read-Moves ir ip s (λ v. v) _ s h (load_path-Onward caller_at (ip + 1))
  exec-Moves Op.load_self ip s h =
      push_read-Moves ir ip s (λ v. v) _ s h (load_path-Onward self_at (ip + 1))
  exec-Moves Op.op_and ip s h = logic_op-Moves ir ip s _ s h
  exec-Moves Op.op_or ip s h = logic_op-Moves ir ip s _ s h
  exec-Moves Op.op_not ip s h =
      Forward-settle (λ p. p.0) (length ir) (ip, s) (λ _. Unit) (pop_bool s) _ (pop_bool-Ended s)
        λ x _. push_next-Moves ir ip s _ (ip + 1) x.1 h (omega arith)
  exec-Moves Op.result ip s h =
      Forward-settle (λ p. p.0) (length ir) (ip, s) (λ _. Unit) (pop_bool s) _ (pop_bool-Ended s)
        λ x _. tt
  exec-Moves Op.deny ip s h = tt
  exec-Moves Op.allow ip s h = tt
  exec-Moves Op.op_eq ip s h =
      binary_op-Moves ir ip s (λ a b. ok (xor false (eq_val a b))) s (λ a b. tt) h
  exec-Moves Op.op_ne ip s h =
      binary_op-Moves ir ip s (λ a b. ok (xor true (eq_val a b))) s (λ a b. tt) h
  exec-Moves Op.op_lt ip s h = binary_op-Moves ir ip s _ s (cmp_ord-Ended f64_lt) h
  exec-Moves Op.op_le ip s h = binary_op-Moves ir ip s _ s (cmp_ord-Ended f64_le) h
  exec-Moves Op.op_gt ip s h = binary_op-Moves ir ip s _ s (cmp_ord-Ended (λ x y. f64_lt y x)) h
  exec-Moves Op.op_ge ip s h = binary_op-Moves ir ip s _ s (cmp_ord-Ended (λ x y. f64_le y x)) h
  exec-Moves Op.op_in ip s h = binary_op-Moves ir ip s _ s (in_op-Ended false) h
  exec-Moves Op.op_not_in ip s h = binary_op-Moves ir ip s _ s (in_op-Ended true) h
  exec-Moves Op.call_has_role ip s h =
      binary_op-Moves ir ip s _ s (has_role-Ended input caller_at) h
  exec-Moves Op.call_tenant_match ip s h =
      binary_op-Moves ir ip s (λ _ _. ok (tenant_match input caller_at self_at)) s (λ a b. tt) h

  run_round-Moves :
      (x : ℕ × Stack)
      → Forward (λ s. s.0) (length ir) x (run_round parse_f64 ir input caller_at self_at x)
  unfolding run_round
  run_round-Moves (ip, s) =
      Forward-settle (λ p. p.0) (length ir) (ip, s) (λ b. ip < length ir) (byte_at ir ip) _
        (fetched (get_elem? ir ip) refl)
        λ b h.
          Forward-settle (λ p. p.0) (length ir) (ip, s) (λ _. Unit) (ok_or (op_of b) invalid) _
            (Ended-ok_or (op_of b)) λ op _. exec-Moves op ip s h
    where
      fetched :
          (o : Option ℕ) → get_elem? ir ip ≡ o → Returning (λ b. ip < length ir) (ok_or o invalid)
      fetched none e = tt
      fetched (some b) e = lt_of_get_elem? ir ip e

  -- The run never ends for want of fuel, whatever the bytecode and the input hold: it returns a decision
  -- or the code's error within one round more than the bytecode has bytes.
  pub run_ends : (ip : ℕ) → run parse_f64 ir input caller_at self_at ip ≢ err out_of_fuel
  unfolding run
  run_ends ip =
      Ended-ne (loop (run_round parse_f64 ir input caller_at self_at) (length ir + 1) (ip, [])) (
        loop-Ended (run_round parse_f64 ir input caller_at self_at) (λ s. s.0) (length ir)
          run_round-Moves (ip, []))
