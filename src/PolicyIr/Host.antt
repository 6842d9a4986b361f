-- ===== src/PolicyIr/Host.antt =====
-- crates/sealstack-policy-ir/src/host.rs: the native interpreter of the policy bytecode. The loop of
-- `run` takes fuel; `interpret` gives it one round more than the bytecode has bytes, since each
-- round moves the position forward.
mod Values
pub mod Reads
pub mod Progress
pub mod Steps
unfoldable pub use Values.*
use sealstack.Prelude.{
  ℕ, zero, suc, ◌+◌, ◌*◌, ◌^◌, Bool, true, false, not, ◌||◌, Option, none, some, List, [], ◌∷◌,
  bit_and, ltb, ◌==◌, if◌then◌else◌, length, get_elem?, take, drop, ok, err, ◌>>=◌, ok_or,
}
use sealstack.Bytes.{Bytes, codes, bytes_eq, slice, is_utf8}
use sealstack.Bytes.Le.{from_le_bytes}
use sealstack.Ieee.{f64_lt, f64_le}
use sealstack.Json.{Value, Items, get, as_str, as_array, any_item}
use sealstack.PolicyIr.{
  Op, lit_null, lit_bool, lit_i64, lit_f64, lit_str, lit_duration_secs, load_caller, load_self,
  op_eq, op_ne, op_lt, op_le, op_gt, op_ge, op_and, op_or, op_not, op_in, op_not_in, call_has_role,
  call_tenant_match, result, deny, allow, magic, action_bit_for,
}
use sealstack.PolicyIr.Decode.{op_of}

unfoldable pub byte_at : Bytes → ℕ → IrResult ℕ
byte_at ir ip = ok_or (get_elem? ir ip) unexpected_eof

-- The readers return what they read and the position after it (`ip: &mut usize`).
pub read_u16 : Bytes → ℕ → IrResult (ℕ × ℕ)
unfolding byte_at
read_u16 ir ip = do
  b0 ← byte_at ir ip
  b1 ← byte_at ir (ip + 1)
  ok (from_le_bytes (b0 ∷ b1 ∷ []), ip + 2)

pub read_bytes : ℕ → Bytes → ℕ → IrResult (Bytes × ℕ)
read_bytes zero ir ip = ok ([], ip)
read_bytes (suc n) ir ip = do
  b ← byte_at ir ip
  (bs, ip') ← read_bytes n ir (ip + 1)
  ok (b ∷ bs, ip')

unfoldable pub read_i64 : Bytes → ℕ → IrResult (ℕ × ℕ)
unfolding read_bytes byte_at
read_i64 ir ip = do (buf, ip') ← read_bytes 8 ir ip; ok (from_le_bytes buf, ip')

unfoldable pub read_f64 : Bytes → ℕ → IrResult (ℕ × ℕ)
unfolding read_bytes byte_at
read_f64 ir ip = do (buf, ip') ← read_bytes 8 ir ip; ok (from_le_bytes buf, ip')

-- A length, that many bytes, and the UTF-8 check: of `LIT_STR` and of each path segment.
pub read_str : Bytes → ℕ → IrResult (Bytes × ℕ)
unfolding read_u16
read_str ir ip = do
  (len, start) ← read_u16 ir ip
  bytes ← ok_or (slice ir start len) unexpected_eof
  if is_utf8 bytes then ok (bytes, start + len) else err type_mismatch

-- The loop of `load_path`: a segment that is not there ends it at once.
unfoldable pub load_segments : ℕ → Bytes → ℕ → Value → IrResult (NativeVal × ℕ)
load_segments zero ir ip cursor = ok (native_of cursor, ip)
load_segments (suc n) ir ip cursor = do
  (seg, ip') ← read_str ir ip
  elim (get cursor seg) [ none ↦ ok (NativeVal.null, ip') | some v ↦ load_segments n ir ip' v ]

unfoldable pub load_path : Bytes → ℕ → Value → IrResult (NativeVal × ℕ)
unfolding load_segments read_str byte_at
load_path ir ip root = do n ← byte_at ir ip; load_segments n ir (ip + 1) root

abbrev pub Stack : Type 0
Stack = List NativeVal

abbrev pub max_stack : ℕ
max_stack = 32

-- The stack is a list, last pushed first.
unfoldable pub push : NativeVal → Stack → IrResult Stack
push v stack = if ltb (length stack) max_stack then ok (v ∷ stack) else err stack_overflow

unfoldable pub pop : Stack → IrResult (NativeVal × Stack)
pop [] = err stack_underflow
pop (v ∷ stack) = ok (v, stack)

unfoldable pub as_bool : NativeVal → IrResult Bool
as_bool (boolean b) = ok b
as_bool _ = err type_mismatch

unfoldable pub pop_bool : Stack → IrResult (Bool × Stack)
unfolding pop as_bool
pop_bool stack = do (v, rest) ← pop stack; b ← as_bool v; ok (b, rest)

-- What one round of the loop does: go on, or return the verdict.
pub data Outcome : Type 0 where
  next : ℕ → Stack → Outcome
  done : Bool → Outcome

unfoldable pub push_next : NativeVal → ℕ → Stack → IrResult Outcome
unfolding push
push_next v ip stack = do s ← push v stack; ok (next ip s)

-- An operation that pops `b`, then `a`, and pushes the value of `f a b`.
unfoldable pub binary_op : (NativeVal → NativeVal → IrResult Bool) → ℕ → Stack → IrResult Outcome
unfolding pop push_next
binary_op f ip stack = do
  (b, s₁) ← pop stack
  (a, s₂) ← pop s₁
  r ← f a b
  push_next (boolean r) ip s₂

unfoldable pub logic_op : (Bool → Bool → Bool) → ℕ → Stack → IrResult Outcome
unfolding pop_bool push_next
logic_op f ip stack = do
  (b, s₁) ← pop_bool stack
  (a, s₂) ← pop_bool s₁
  push_next (boolean (f a b)) ip s₂

module _ (ir : Bytes) (caller record_value : Value) where
  -- The arms of `match tag`, with `ip` past the tag.
  unfoldable pub exec : Op → ℕ → Stack → IrResult Outcome
  unfolding push_next binary_op logic_op byte_at read_i64 read_f64 read_str load_path
  exec lit_null ip stack = push_next NativeVal.null ip stack
  exec lit_bool ip stack = do b ← byte_at ir ip; push_next (boolean (not (b == 0))) (ip + 1) stack
  exec lit_i64 ip stack = do (v, ip') ← read_i64 ir ip; push_next (i64 v) ip' stack
  exec lit_duration_secs ip stack = do (v, ip') ← read_i64 ir ip; push_next (i64 v) ip' stack
  exec lit_f64 ip stack = do (v, ip') ← read_f64 ir ip; push_next (f64 v) ip' stack
  exec lit_str ip stack = do (s, ip') ← read_str ir ip; push_next (str s) ip' stack
  exec load_caller ip stack = do (v, ip') ← load_path ir ip caller; push_next v ip' stack
  exec load_self ip stack = do (v, ip') ← load_path ir ip record_value; push_next v ip' stack
  exec op_eq ip stack = binary_op (λ a b. ok (eq_native a b)) ip stack
  exec op_ne ip stack = binary_op (λ a b. ok (not (eq_native a b))) ip stack
  exec op_lt ip stack = binary_op (order_native f64_lt) ip stack
  exec op_le ip stack = binary_op (order_native f64_le) ip stack
  exec op_gt ip stack = binary_op (order_native (λ x y. f64_lt y x)) ip stack
  exec op_ge ip stack = binary_op (order_native (λ x y. f64_le y x)) ip stack
  exec op_and ip stack = logic_op (λ a b. if a then b else false) ip stack
  exec op_or ip stack = logic_op (λ a b. if a then true else b) ip stack
  exec op_not ip stack = do (a, s) ← pop_bool stack; push_next (boolean (not a)) ip s
  exec op_in ip stack = binary_op member ip stack
  exec op_not_in ip stack = binary_op (λ a b. do r ← member a b; ok (not r)) ip stack
  exec call_has_role ip stack = binary_op (λ _ role. has_role caller role) ip stack
  exec call_tenant_match ip stack =
      binary_op (λ _ _. ok (tenant_match caller record_value)) ip stack
  exec result ip stack = do (b, s) ← pop_bool stack; ok (done b)
  exec deny ip stack = ok (done false)
  exec allow ip stack = ok (done true)

  -- One round: fetch the tag, step over it, dispatch.
  unfoldable pub tick : ℕ → Stack → IrResult Outcome
  unfolding exec
  tick ip stack = do
    b ← byte_at ir ip
    op ← ok_or (op_of b) (unknown_opcode b)
    exec op (ip + 1) stack

  abbrev pub continue :
      (ℕ → Stack → Option (IrResult Bool)) → IrResult Outcome → Option (IrResult Bool)
  continue go (err e) = some (err e)
  continue go (ok (done b)) = some (ok b)
  continue go (ok (next ip stack)) = go ip stack

  unfoldable pub run : ℕ → ℕ → Stack → Option (IrResult Bool)
  unfolding tick
  run zero ip stack = none
  run (suc fuel) ip stack = continue (run fuel) (tick ip stack)

-- `ir[i]` where the bound on `i` has been checked.
unfoldable pub index : Bytes → ℕ → ℕ
index ir i = elim (get_elem? ir i) [ none ↦ 0 | some b ↦ b ]

-- The first of the `rounds` table entries from `i` whose mask meets the action.
unfoldable pub find_entry : Bytes → ℕ → ℕ → ℕ → ℕ → Option ℕ
unfolding index
find_entry ir table_end action zero i = none
find_entry ir table_end action (suc rounds) i =
    let rest = find_entry ir table_end action rounds (i + 1) in
    if bit_and (index ir (1 + i * 3)) action == 0
    then rest
    else some (table_end + from_le_bytes (index ir (1 + i * 3 + 1) ∷ index ir (1 + i * 3 + 2) ∷ []))

-- `a.checked_add(b)` on a 64-bit `usize`.
unfoldable pub checked_add : ℕ → ℕ → Option ℕ
checked_add a b = if ltb (a + b) (2 ^ 64) then some (a + b) else none

-- The table and the rules, behind the header.
unfoldable pub interpret_body : Bytes → Value → Value → ℕ → Option (IrResult Bool)
unfolding find_entry run
interpret_body ir caller record_value action =
    let count = index ir 0 in
    let table_end = 1 + count * 3 in
    if length ir == 0 || count == 0
    then some (ok false)
    else if ltb (length ir) table_end
    then some (err bad_length)
    else elim (find_entry ir table_end action count 0) [
      | none ↦ some (ok false)
      | some ip ↦ run ir caller record_value (length ir + 1) ip []
    ]

unfoldable pub interpret : Bytes → Value → Value → ℕ → Option (IrResult Bool)
unfolding interpret_body checked_add
interpret ir_full caller record_value action =
    if ltb (length ir_full) 8 || not (bytes_eq (take 4 ir_full) magic)
    then some (err bad_magic)
    else let declared_len = from_le_bytes (take 4 (drop 4 ir_full)) in
      elim (checked_add declared_len 8) [
        | none ↦ some (err bad_length)
        | some total ↦
            if ltb (length ir_full) total
            then some (err bad_length)
            else interpret_body (take declared_len (drop 8 ir_full)) caller record_value action
      ]

unfoldable pub action_from_wire : Bytes → IrResult ℕ
action_from_wire name = ok_or (action_bit_for name) unknown_action
