-- ===== src/PolicyRuntime/Interp.antt =====
-- crates/sealstack-policy-runtime/src/interp.rs: the WebAssembly interpreter of the policy bytecode.
-- Its stack is a list, last pushed first. The `loop` of `run` has one round more than the bytecode has
-- bytes.
use sealstack.Prelude.{
  ◌>>=◌, ℕ, zero, suc, ◌+◌, ◌-◌, ◌*◌, ◌/◌, ◌^◌, max, Bool, true, false, ◌||◌, not, Option, none,
  some, List, [], ◌∷◌, ◌++◌, ltb, leb, ◌==◌, if◌then◌else◌, length, get_elem?, take, drop, Result,
  ok, err, ok_or, bit_and,
}
use sealstack.PolicyRuntime.Json.{
  invalid, JsonResult, Round, loop, as_bool, as_str, settle, find_path, again, stop,
}
use sealstack.Bytes.{Bytes, codes, bytes_eq, slice}
use sealstack.Bytes.Le.{from_le_bytes}
use sealstack.Ieee.{f64_lt, f64_le}
use sealstack.PolicyIr.{
  Op, lit_null, lit_bool, lit_i64, lit_f64, lit_str, lit_duration_secs, load_caller, load_self,
  op_eq, op_ne, op_lt, op_le, op_gt, op_ge, op_and, op_or, op_not, op_in, op_not_in, call_has_role,
  call_tenant_match, result, magic, action_bit_for,
}
use sealstack.PolicyIr.Decode.{op_of}
unfoldable pub use Values.*
mod Values
mod Ends
pub mod Progress
pub mod Paths

-- `self.ir.get(ip).ok_or(())?`
abbrev pub byte_at : Bytes → ℕ → JsonResult ℕ
byte_at ir ip = ok_or (get_elem? ir ip) invalid

-- The readers return what they read and the position after it.
unfoldable pub read_u16 : Bytes → ℕ → JsonResult (ℕ × ℕ)
read_u16 ir ip = do
  b0 ← byte_at ir ip
  b1 ← byte_at ir (ip + 1)
  ok (from_le_bytes (b0 ∷ b1 ∷ []), ip + 2)

pub read_bytes : ℕ → Bytes → ℕ → JsonResult (Bytes × ℕ)
read_bytes zero ir ip = ok ([], ip)
read_bytes (suc n) ir ip = do
  b ← byte_at ir ip
  (bs, ip') ← read_bytes n ir (ip + 1)
  ok (b ∷ bs, ip')

-- `read_i64` and `read_f64`, on bit patterns.
unfoldable pub read_word : Bytes → ℕ → JsonResult (ℕ × ℕ)
unfolding read_bytes
read_word ir ip = do (buf, ip') ← read_bytes 8 ir ip; ok (from_le_bytes buf, ip')

-- A length and that many bytes: of `LIT_STR` and of each path segment.
unfoldable pub read_slice : Bytes → ℕ → JsonResult (Bytes × ℕ)
unfolding read_u16
read_slice ir ip = do
  (len, start) ← read_u16 ir ip
  text ← ok_or (slice ir start len) invalid
  ok (text, start + len)

abbrev pub max_segs : ℕ
max_segs = 8

-- `PathBuf::push`
unfoldable pub push_seg : List Bytes → Bytes → JsonResult (List Bytes)
push_seg segs s = if ltb (length segs) max_segs then ok (segs ++ s ∷ []) else err invalid

unfoldable pub read_segs : ℕ → Bytes → ℕ → List Bytes → JsonResult (List Bytes × ℕ)
unfolding read_slice push_seg
read_segs zero ir ip segs = ok (segs, ip)
read_segs (suc n) ir ip segs = do
  (s, ip') ← read_slice ir ip
  segs' ← push_seg segs s
  read_segs n ir ip' segs'

abbrev pub Stack : Type 0
Stack = List Val

abbrev pub max_stack : ℕ
max_stack = 32

unfoldable pub push : Val → Stack → JsonResult Stack
push v stack = if ltb (length stack) max_stack then ok (v ∷ stack) else err invalid

unfoldable pub pop : Stack → JsonResult (Val × Stack)
pop [] = err invalid
pop (v ∷ stack) = ok (v, stack)

unfoldable pub as_boolean : Val → JsonResult Bool
as_boolean (boolean b) = ok b
as_boolean _ = err invalid

unfoldable pub pop_bool : Stack → JsonResult (Bool × Stack)
unfolding pop as_boolean
pop_bool stack = do (v, rest) ← pop stack; b ← as_boolean v; ok (b, rest)

abbrev pub Next : Type 0
Next = Round (ℕ × Stack) Bool

unfoldable pub push_next : Val → ℕ → Stack → Next
unfolding push
push_next v ip stack = settle (push v stack) λ s. again (ip, s)

-- An operation that pops `b`, then `a`, and pushes the value of `f a b`.
unfoldable pub binary_op : (Val → Val → JsonResult Bool) → ℕ → Stack → Next
unfolding pop push_next
binary_op f ip stack =
    settle (pop stack)
      λ (b, s₁). settle (pop s₁) λ (a, s₂). settle (f a b) λ r. push_next (boolean r) ip s₂

unfoldable pub logic_op : (Bool → Bool → Bool) → ℕ → Stack → Next
unfolding pop_bool push_next
logic_op f ip stack =
    settle (pop_bool stack)
      λ (b, s₁). settle (pop_bool s₁) λ (a, s₂). push_next (boolean (f a b)) ip s₂

abbrev pub xor : Bool → Bool → Bool
xor invert r = if invert then not r else r

module _ (parse_f64 : Bytes → Option ℕ) (ir input : Bytes) (caller_at self_at : ℕ) where
  -- A read at `ip`, then a push.
  abbrev push_read : {A : Type 0} → (A → Val) → JsonResult (A × ℕ) → Stack → Next
  push_read f r stack = settle r λ (a, ip). push_next (f a) ip stack

  unfoldable pub load_path : ℕ → ℕ → JsonResult (Val × ℕ)
  unfolding read_segs load_value
  load_path root_at ip = do
    nseg ← byte_at ir ip
    (segs, ip') ← read_segs nseg ir (ip + 1) []
    v ← load_value parse_f64 input root_at segs
    ok (v, ip')

  abbrev cmp_eq : Bool → Val → Val → JsonResult Bool
  cmp_eq invert a b = ok (xor invert (eq_val a b))

  abbrev in_op : Bool → Val → Val → JsonResult Bool
  in_op invert needle haystack = do
    found ← in_array parse_f64 input needle haystack
    ok (xor invert found)

  -- The arms of the match, with `ip` past the opcode.
  unfoldable pub exec : Op → ℕ → Stack → Next
  unfolding push_next binary_op logic_op pop_bool read_word read_slice load_path
  exec lit_null ip stack = push_next Val.null ip stack
  exec lit_bool ip stack =
      settle (byte_at ir ip) λ b. push_next (boolean (not (b == 0))) (ip + 1) stack
  exec lit_i64 ip stack = push_read i64 (read_word ir ip) stack
  exec lit_f64 ip stack = push_read f64 (read_word ir ip) stack
  exec lit_str ip stack = push_read raw (read_slice ir ip) stack
  exec lit_duration_secs ip stack = push_read i64 (read_word ir ip) stack
  exec load_caller ip stack = push_read (λ v. v) (load_path caller_at ip) stack
  exec load_self ip stack = push_read (λ v. v) (load_path self_at ip) stack
  exec op_eq ip stack = binary_op (cmp_eq false) ip stack
  exec op_ne ip stack = binary_op (cmp_eq true) ip stack
  exec op_lt ip stack = binary_op (cmp_ord f64_lt) ip stack
  exec op_le ip stack = binary_op (cmp_ord f64_le) ip stack
  exec op_gt ip stack = binary_op (cmp_ord (λ x y. f64_lt y x)) ip stack
  exec op_ge ip stack = binary_op (cmp_ord (λ x y. f64_le y x)) ip stack
  exec op_and ip stack = logic_op (λ a b. if a then b else false) ip stack
  exec op_or ip stack = logic_op (λ a b. if a then true else b) ip stack
  exec op_not ip stack = settle (pop_bool stack) λ (a, s). push_next (boolean (not a)) ip s
  exec op_in ip stack = binary_op (in_op false) ip stack
  exec op_not_in ip stack = binary_op (in_op true) ip stack
  exec call_has_role ip stack = binary_op (has_role input caller_at) ip stack
  exec call_tenant_match ip stack =
      binary_op (λ _ _. ok (tenant_match input caller_at self_at)) ip stack
  exec result ip stack = settle (pop_bool stack) λ (b, s). stop (ok b)
  exec Op.deny ip stack = stop (ok false)
  exec Op.allow ip stack = stop (ok true)

  unfoldable pub run_round : ℕ × Stack → Next
  unfolding exec
  run_round (ip, stack) =
      settle (byte_at ir ip) λ b. settle (ok_or (op_of b) invalid) λ op. exec op (ip + 1) stack

  unfoldable pub run : ℕ → JsonResult Bool
  unfolding loop run_round
  run ip = loop run_round (length ir + 1) (ip, [])

pub data Verdict : Type 0 where
  allow deny error : Verdict

-- `ir[i]` where the bound on `i` has been checked.
abbrev pub index : Bytes → ℕ → ℕ
index ir i = elim (get_elem? ir i) [ none ↦ 0 | some b ↦ b ]

-- The first of the `rounds` table entries from `i` whose mask meets the action.
unfoldable pub find_rule : Bytes → ℕ → ℕ → ℕ → ℕ → Option ℕ
find_rule ir table_end action_bit zero i = none
find_rule ir table_end action_bit (suc rounds) i =
    let rest = find_rule ir table_end action_bit rounds (i + 1) in
    let off = 1 + i * 3 in
    if not (bit_and (index ir off) action_bit == 0)
    then some (table_end + from_le_bytes (index ir (off + 1) ∷ index ir (off + 2) ∷ []))
    else rest

-- `find_path` for a key of the input, or `usize::MAX`.
unfoldable pub root_position : Bytes → Bytes → ℕ
unfolding find_path
root_position input key = elim (find_path input (key ∷ [])) [
  | ok found ↦ elim found [ none ↦ no_position | some (start, end) ↦ start ]
  | err e ↦ no_position
]

unfoldable pub read_action : Bytes → JsonResult Bytes
unfolding find_path as_str
read_action input = do
  found ← find_path input (codes "action" ∷ [])
  elim found [ none ↦ err invalid | some (start, end) ↦ as_str input start ]

abbrev verdict : JsonResult Bool → Verdict
verdict (ok true) = Verdict.allow
verdict (ok false) = Verdict.deny
verdict (err e) = Verdict.error

module _ (parse_f64 : Bytes → Option ℕ) where
  -- From `rule_entry` on.
  unfoldable pub evaluate_rule : Bytes → Bytes → ℕ → Option ℕ → Verdict
  unfolding run root_position
  evaluate_rule ir input rounds none = Verdict.deny
  evaluate_rule ir input rounds (some entry) =
      if leb (length ir) entry
      then Verdict.error
      else verdict (
          run parse_f64 ir input (root_position input (codes "caller"))
            (root_position input (codes "record")) entry)

  -- Behind the header, for the action that was read.
  unfoldable pub evaluate_body : Bytes → Bytes → Bytes → Verdict
  unfolding evaluate_rule find_rule
  evaluate_body ir input action =
      let count = index ir 0 in
      let table_end = 1 + count * 3 in
      if length ir == 0 || count == 0
      then Verdict.deny
      else if ltb (length ir) table_end
      then Verdict.error
      else elim (action_bit_for action) [
        | none ↦ Verdict.error
        | some action_bit ↦ evaluate_rule ir input count (find_rule ir table_end action_bit count 0)
      ]

  -- `checked_add` is on the 32-bit `usize` of wasm32.
  unfoldable pub evaluate : Bytes → Bytes → Verdict
  unfolding evaluate_body read_action
  evaluate input ir_full =
      let declared_len = from_le_bytes (take 4 (drop 4 ir_full)) in
      let ir = take declared_len (drop 8 ir_full) in
      if ltb (length ir_full) 8 || not (bytes_eq (take 4 ir_full) magic)
      then Verdict.error
      else if leb (2 ^ 32) (declared_len + 8) || ltb (length ir_full) (declared_len + 8)
      then Verdict.error
      else elim (read_action input) [
        | err e ↦ Verdict.error
        | ok action ↦ evaluate_body ir input action
      ]
