-- ===== src/PolicyIr.antt =====
-- crates/sealstack-policy-ir/src/lib.rs: the data section's layout, the action bits and the opcodes
-- of the policy bytecode.
pub mod Decode
pub mod Host
mod Tests
use sealstack.Prelude.{ℕ, ◌+◌, Bool, Option, none, some, List, [], ◌∷◌, ◌==◌, if◌then◌else◌}
use sealstack.Bytes.{Bytes, codes, bytes_eq}

abbrev pub ir_max_bytes : ℕ
ir_max_bytes = 4096

abbrev pub ir_section_bytes : ℕ
ir_section_bytes = 8 + ir_max_bytes

abbrev pub magic : Bytes
magic = codes "SLIR"

abbrev pub read_bit : ℕ
read_bit = 1

abbrev pub list_bit : ℕ
list_bit = 2

abbrev pub write_bit : ℕ
write_bit = 4

abbrev pub delete_bit : ℕ
delete_bit = 8

unfoldable pub action_bit_for : Bytes → Option ℕ
action_bit_for name =
    if bytes_eq name (codes "read")
    then some read_bit
    else if bytes_eq name (codes "list")
    then some list_bit
    else if bytes_eq name (codes "write")
    then some write_bit
    else if bytes_eq name (codes "delete")
    then some delete_bit
    else none

-- The operations of the machine, and the byte of each (`pub mod op`).
pub data Op : Type 0 where
  lit_null lit_bool lit_i64 lit_f64 lit_str lit_duration_secs : Op
  load_caller load_self : Op
  op_eq op_ne op_lt op_le op_gt op_ge : Op
  op_and op_or op_not : Op
  op_in op_not_in : Op
  call_has_role call_tenant_match : Op
  result deny allow : Op

unfoldable pub tag : Op → ℕ
tag lit_null = 0x01
tag lit_bool = 0x02
tag lit_i64 = 0x03
tag lit_f64 = 0x04
tag lit_str = 0x05
tag lit_duration_secs = 0x06
tag load_caller = 0x10
tag load_self = 0x11
tag op_eq = 0x20
tag op_ne = 0x21
tag op_lt = 0x22
tag op_le = 0x23
tag op_gt = 0x24
tag op_ge = 0x25
tag op_and = 0x30
tag op_or = 0x31
tag op_not = 0x32
tag op_in = 0x40
tag op_not_in = 0x41
tag call_has_role = 0x50
tag call_tenant_match = 0x51
tag result = 0xfd
tag deny = 0xfe
tag allow = 0xff
