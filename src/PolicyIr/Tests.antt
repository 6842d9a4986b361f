-- ===== src/PolicyIr/Tests.antt =====
-- Runs of the interpreter on small bytecode.
use sealstack.Bytes.Le.{from_le_bytes}
use sealstack.Bytes.{bytes_eq, Bytes, codes}
use sealstack.Prelude.{◌≡◌, ◌<◌, ◌≤◌, refl, Bool, some, [], ◌∷◌, err, ◌++◌}
use sealstack.Json.{Value}
use sealstack.PolicyIr.{Op, tag, read_bit}
use sealstack.PolicyIr.Decode.{op_of, op_of-tag, tag_of_op_of}
use sealstack.PolicyIr.Host.{NativeVal, IrResult, IrError, tick, interpret, max_stack}
use sealstack.PolicyIr.Host.Progress.{interpret_total, tick-next}

op_of-tag_example : op_of (tag Op.result) ≡ some Op.result
op_of-tag_example = op_of-tag Op.result

tag_of_op_of_example : tag Op.op_in ≡ 0x40
unfolding op_of
tag_of_op_of_example = tag_of_op_of 0x40 Op.op_in refl

-- A rule for every action that pops an empty stack.
abbrev underflow : Bytes
underflow = codes "SLIR" ++ (5 ∷ 0 ∷ 0 ∷ 0 ∷ 1 ∷ 15 ∷ 0 ∷ 0 ∷ 0xfd ∷ [])

interpret_total_example :
    (r : IrResult Bool) × (interpret underflow Value.null Value.null read_bit ≡ some r)
interpret_total_example = interpret_total underflow Value.null Value.null read_bit

underflow_fails :
    interpret underflow Value.null Value.null read_bit ≡ some (err IrError.stack_underflow)
unfolding interpret bytes_eq from_le_bytes op_of
underflow_fails = refl

tick-next_example : (0 < 1) × (0 < 2) × (1 ≤ max_stack)
unfolding tick op_of
tick-next_example =
    tick-next (0x01 ∷ 0xfd ∷ []) Value.null Value.null 0 [] 1 (NativeVal.null ∷ []) refl
