-- ===== src/PolicyRuntime/Tests.antt =====
-- An input and bytecode, read and run.
use sealstack.PolicyIr.Decode.{op_of}
use sealstack.PolicyIr.{action_bit_for, Op, tag, magic}
use sealstack.Bytes.Le.{from_le_bytes, to_le_bytes}
use sealstack.Numbers.{parse_i64, f64_to_i64}
use sealstack.Bytes.{is_utf8, bytes_eq, Bytes, codes}
use sealstack.PolicyRuntime.Abi.{sealstack_alloc, initial_bump, regions, Apart, regions-Apart}
use sealstack.Prelude.{
  if◌then◌else◌, ℕ, ◌≤◌, ◌<◌, ◌≡◌, refl, false, Option, none, some, [], ◌∷◌, ◌++◌, arith, length,
  ok, err, ◌≢◌,
}
use sealstack.PolicyRuntime.Json.{out_of_fuel, as_str, skip_value, each_element, find_path}
use sealstack.PolicyRuntime.Json.Bounds.{reads_end, find_path_within}
use sealstack.PolicyRuntime.Text.{quoted, print, IsWritten}
use sealstack.PolicyRuntime.Text.Find.{FindsValue, find_path-print}
use sealstack.PolicyRuntime.Agree.{follow_value, tenant_match-tenant_match}
use sealstack.PolicyRuntime.Loads.{Loads, load_value-print}
use sealstack.PolicyRuntime.Interp.{
  Val, read_segs, run, Verdict, evaluate, load_value, search_role, tenant_match,
}
use sealstack.PolicyRuntime.Interp.Paths.{read_segs-lower_segments}
use sealstack.PolicyRuntime.Interp.Progress.{run_ends}
use sealstack.Json.{Value, Items, Fields, Number}
use sealstack.Csl.Policy.{lower_segments}
use sealstack.Json
use sealstack.PolicyIr.Host

abbrev one : Number → Bytes
one n = codes "1"

abbrev no_floats : Bytes → Option ℕ
no_floats text = none

abbrev member_of : Bytes → Value
member_of tenant = Value.object (
    Fields.field (codes "id") (Value.number (record { as_i64 = some 1; as_f64 = none }))
      (Fields.field (codes "tenant") (Value.string tenant) Fields.end))

abbrev caller : Value
caller = member_of (codes "t1")

abbrev caller_text : Bytes
caller_text = codes "{\"id\":1,\"tenant\":\"t1\"}"

abbrev input : Bytes
input =
    codes
      "{\"caller\":{\"id\":1,\"tenant\":\"t1\"},\"record\":{\"id\":1,\"tenant\":\"t1\"},\"action\":\"read\"}"

caller-IsWritten : IsWritten one caller
unfolding IsWritten
caller-IsWritten = ground arith

find_path-print_example :
    FindsValue one caller_text
      (codes "tenant")
      (Json.get caller (codes "tenant"))
      (find_path caller_text (codes "tenant" ∷ []))
unfolding print quoted
find_path-print_example =
    find_path-print one caller_text (codes "tenant") caller [] caller-IsWritten
      (record { rest_eq = refl; within = omega arith })

tenant_match-tenant_match_example : tenant_match input 10 42 ≡ Host.tenant_match caller caller
unfolding print quoted
tenant_match-tenant_match_example =
    tenant_match-tenant_match one input caller caller 10 42 _ _ caller-IsWritten caller-IsWritten
      (omega arith) (omega arith) (record { rest_eq = refl; within = omega arith })
      (record { rest_eq = refl; within = omega arith })

load_value-print_example :
    Loads one no_floats input
      (follow_value caller (codes "tenant" ∷ []))
      (load_value no_floats input 10 (codes "tenant" ∷ []))
unfolding print quoted
load_value-print_example =
    load_value-print one no_floats input caller (codes "tenant") [] 10 _ caller-IsWritten
      (omega arith) (record { rest_eq = refl; within = omega arith })

-- The double nearest to a half more than one, and no other.
abbrev one_and_a_half : Bytes → Option ℕ
one_and_a_half text = if bytes_eq text (codes "1.5") then some 0x3ff8_0000_0000_0000 else none

-- A number with a fraction is loaded as an integer.
load_value_runs :
    load_value one_and_a_half (codes "{\"n\":1.5}") 0 (codes "n" ∷ []) ≡ ok (Val.i64 1)
unfolding load_value find_path bytes_eq is_utf8 parse_i64 f64_to_i64
load_value_runs = refl

read_segs-lower_segments_example :
    read_segs 1 (to_le_bytes 2 2 ++ codes "id") 0 [] ≡ ok (codes "id" ∷ [], 4)
unfolding to_le_bytes lower_segments
read_segs-lower_segments_example =
    read_segs-lower_segments (to_le_bytes 2 2 ++ codes "id") (codes "id" ∷ [])
      (to_le_bytes 2 2 ++ codes "id") [] 0 refl (record { rest_eq = refl; within = omega arith })

-- `tenant_match(caller, self)` for every action.
abbrev rule : Bytes
rule = tag Op.load_caller ∷ 0 ∷ tag Op.load_self ∷ 0 ∷ tag Op.call_tenant_match ∷ tag Op.result ∷ []

abbrev section : Bytes
section = magic ++ (10 ∷ 0 ∷ 0 ∷ 0 ∷ 1 ∷ 15 ∷ 0 ∷ 0 ∷ rule)

run_ends_example : run no_floats rule input 10 42 0 ≢ err out_of_fuel
run_ends_example = run_ends no_floats rule input 10 42 0

find_path_within_example : (10 < 32) × (32 ≤ length input)
unfolding find_path bytes_eq
find_path_within_example = find_path_within input (codes "caller" ∷ []) 10 32 refl

reads_end_example :
    (as_str input 1 ≢ err out_of_fuel)
    × (skip_value input 1 ≢ err out_of_fuel)
    × (find_path input (codes "record" ∷ []) ≢ err out_of_fuel)
    × (each_element input (search_role input (codes "a")) 1 false ≢ err out_of_fuel)
reads_end_example = reads_end input (search_role input (codes "a")) false (codes "record" ∷ []) 1

regions-Apart_example : Apart initial_bump (regions initial_bump (16 ∷ 0xffff_ffff ∷ 8 ∷ []))
regions-Apart_example = regions-Apart (16 ∷ 0xffff_ffff ∷ 8 ∷ []) initial_bump (omega arith)

regions_runs : regions initial_bump (16 ∷ 0xffff_ffff ∷ 8 ∷ []) ≡ (1024, 16) ∷ (1040, 8) ∷ []
unfolding regions sealstack_alloc
regions_runs = refl

evaluate_runs : evaluate no_floats input section ≡ Verdict.allow
unfolding evaluate bytes_eq from_le_bytes action_bit_for op_of tag tenant_match
evaluate_runs = refl
