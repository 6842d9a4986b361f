-- ===== src/Csl/Policy/Bundle.antt =====
-- crates/sealstack-csl/src/codegen/policy.rs: `emit_policy_bundles`, which checks each schema's
-- bytecode by running it, and `patch_runtime`, which writes it into the runtime's binary. The binary is
-- a parameter, as are its data segments in order, as wasmparser gives them: none is a parse error.
use mathlib.Core.Path.{subst}
use mathlib.Core.List.{Memᴰ}
use sealstack.Prelude.{
  none_ne_some, sym, err_ne_ok, >>=-eq-ok, ℕ, zero, suc, ◌+◌, ◌-◌, ◌≡◌, refl, Bool, true, ◌&&◌,
  Option, none, some, List, [], ◌∷◌, ◌++◌, if◌then◌else◌, ltb, leb, ◌==◌, length, take, drop, ok,
  err, ◌>>=◌,
}
use sealstack.Bytes.{Bytes, bytes_eq, codes}
use sealstack.Json.{Value, Items, Fields}
use sealstack.PolicyIr.{magic, ir_section_bytes, read_bit, list_bit, write_bit, delete_bit}
use sealstack.PolicyIr.Host.{IrResult, interpret}
use sealstack.Csl.Ast.{SchemaDecl}
use sealstack.Csl.Policy.{
  CslResult, find_schema, lower_schema_to_ir, section_too_long, bad_runtime, section_not_found,
  self_pass_failed,
}
use Prim.Native.String.{String}
use mathlib.Core.List.Memᴰ

-- The parts of `TypedFile` that the generator reads.
pub record TypedFile : Type 0 where
  pub namespace : Bytes
  pub decl_order : List Bytes
  pub schemas : List (Bytes × SchemaDecl)

pub record PolicyBundle : Type 0 where
  pub namespace : Bytes
  pub schema : Bytes
  pub wasm : Bytes

abbrev text : String → Value
text s = Value.string (codes s)

abbrev pub empty_caller : Value
empty_caller = Value.object (
    Fields.field (codes "id") (text "") (
      Fields.field (codes "email") (text "") (
        Fields.field (codes "groups") (Value.array Items.nil) (
          Fields.field (codes "team") (text "") (
            Fields.field (codes "tenant") (text "") (
              Fields.field (codes "roles") (Value.array Items.nil)
                (Fields.field (codes "attrs") (Value.object Fields.end) Fields.end)))))))

abbrev pub empty_record : Value
empty_record = Value.object (Fields.field (codes "tenant") (text "") Fields.end)

abbrev pub every_bit : List ℕ
every_bit = read_bit ∷ list_bit ∷ write_bit ∷ delete_bit ∷ []

-- A run with no caller and no record must return a verdict, whichever it is.
abbrev checked : Bytes → ℕ → Option (IrResult Bool) → CslResult Unit
checked name bit (some (ok verdict)) = ok tt
checked name bit _ = err (self_pass_failed name bit)

unfoldable pub self_pass : Bytes → Bytes → List ℕ → CslResult Unit
self_pass name ir [] = ok tt
self_pass name ir (bit ∷ bits) = do
  done ← checked name bit (interpret ir empty_caller empty_record bit)
  self_pass name ir bits

unfoldable all_zero : Bytes → Bool
all_zero [] = true
all_zero (b ∷ bs) = b == 0 && all_zero bs

unfoldable slot_at : Bytes → ℕ → Bool
unfolding all_zero
slot_at hay i =
    bytes_eq (take 4 (drop i hay)) magic
    && all_zero (take (ir_section_bytes - 4) (drop (i + 4) hay))

-- The first multiple of four from `i` at which the reserved slot starts; as many rounds as bytes do.
unfoldable scan_segment : ℕ → Bytes → ℕ → Option ℕ
unfolding slot_at
scan_segment zero hay i = none
scan_segment (suc rounds) hay i =
    let later = scan_segment rounds hay (i + 4) in
    if leb (i + ir_section_bytes) (length hay)
    then (if slot_at hay i then some i else later)
    else none

unfoldable pub locate_predicate_section : List (Option (ℕ × Bytes)) → CslResult ℕ
unfolding scan_segment
locate_predicate_section [] = err section_not_found
locate_predicate_section (none ∷ rest) = err bad_runtime
locate_predicate_section (some (start, hay) ∷ rest) =
    let later = locate_predicate_section rest in
    if ltb (length hay) ir_section_bytes
    then later
    else elim (scan_segment (length hay) hay 0) [ none ↦ later | some i ↦ ok (start + i) ]

unfoldable pub zeros : ℕ → Bytes
zeros zero = []
zeros (suc n) = 0 ∷ zeros n

-- The bundle of a name that has a schema, in front of the bundles after it; another name is skipped.
abbrev pub with_bundle :
    Option SchemaDecl
    → CslResult PolicyBundle
    → CslResult (List PolicyBundle)
    → CslResult (List PolicyBundle)
with_bundle none this rest = rest
with_bundle (some decl) this rest = do bundle ← this; bundles ← rest; ok (bundle ∷ bundles)

module _ (runtime_wasm : Bytes) (segments : List (Option (ℕ × Bytes))) where
  unfoldable pub patch_runtime : Bytes → CslResult Bytes
  unfolding locate_predicate_section zeros
  patch_runtime ir = if ltb ir_section_bytes (length ir) then err section_too_long else do
    start ← locate_predicate_section segments
    ok (
        take start runtime_wasm
        ++ (ir ++ zeros (ir_section_bytes - length ir))
        ++ drop (start + ir_section_bytes) runtime_wasm)

  unfoldable pub bundle_of : TypedFile → Bytes → CslResult PolicyBundle
  unfolding self_pass patch_runtime
  bundle_of file name = do
    ir ← lower_schema_to_ir file.schemas name
    done ← self_pass name ir every_bit
    wasm ← patch_runtime ir
    ok (record {
      namespace = if length file.namespace == 0 then codes "default" else file.namespace;
      schema = name;
      wasm = wasm;
    })

  unfoldable pub bundles_of : TypedFile → List Bytes → CslResult (List PolicyBundle)
  unfolding bundle_of
  bundles_of file [] = ok []
  bundles_of file (name ∷ rest) =
      with_bundle (find_schema file.schemas name) (bundle_of file name) (bundles_of file rest)

  unfoldable pub emit_policy_bundles : TypedFile → CslResult (List PolicyBundle)
  unfolding bundles_of
  emit_policy_bundles file = bundles_of file file.decl_order

checked-ok :
    (name : Bytes) (bit : ℕ) (o : Option (IrResult Bool))
    → checked name bit o ≡ ok tt
    → (v : Bool) × (o ≡ some (ok v))
checked-ok name bit none h = absurd (err_ne_ok h)
checked-ok name bit (some (err e)) h = absurd (err_ne_ok h)
checked-ok name bit (some (ok v)) h = (v, refl)

self_pass-ok :
    (name ir : Bytes) (bits : List ℕ) (bit : ℕ)
    → self_pass name ir bits ≡ ok tt
    → Memᴰ bit bits
    → (v : Bool) × (interpret ir empty_caller empty_record bit ≡ some (ok v))
unfolding self_pass
self_pass-ok name ir [] bit h m = absurd (Memᴰ.not-nil m)
self_pass-ok name ir (b ∷ bits) bit h (Memᴰ.head e) =
    let (done, first, later) =
      >>=-eq-ok (checked name b (interpret ir empty_caller empty_record b)) _ h in
    subst (λ k. (v : Bool) × (interpret ir empty_caller empty_record k ≡ some (ok v))) (sym e)
      (checked-ok name b (interpret ir empty_caller empty_record b) first)
self_pass-ok name ir (b ∷ bits) bit h (Memᴰ.tail m) =
    let (done, first, later) =
      >>=-eq-ok (checked name b (interpret ir empty_caller empty_record b)) _ h in
    self_pass-ok name ir bits bit later m

with_bundle-this :
    (o : Option SchemaDecl) (this : CslResult PolicyBundle) (rest : CslResult (List PolicyBundle))
    {decl : SchemaDecl} {bundles : List PolicyBundle}
    → o ≡ some decl
    → with_bundle o this rest ≡ ok bundles
    → (bundle : PolicyBundle) × (this ≡ ok bundle)
with_bundle-this none this rest known h = absurd (none_ne_some known)
with_bundle-this (some d) this rest known h =
    let (bundle, made, h₁) = >>=-eq-ok this _ h in (bundle, made)

with_bundle-rest :
    (o : Option SchemaDecl) (this : CslResult PolicyBundle) (rest : CslResult (List PolicyBundle))
    {bundles : List PolicyBundle}
    → with_bundle o this rest ≡ ok bundles
    → (others : List PolicyBundle) × (rest ≡ ok others)
with_bundle-rest none this rest {bundles} h = (bundles, h)
with_bundle-rest (some d) this rest h =
    let (bundle, made, h₁) = >>=-eq-ok this _ h in
    let (others, same, h₂) = >>=-eq-ok rest _ h₁ in (others, same)

-- A schema's bytecode runs to a verdict for an action, with no caller and no record.
abbrev pub Runs : TypedFile → Bytes → ℕ → Type 0
Runs file name bit =
    (ir : Bytes) × (lower_schema_to_ir file.schemas name ≡ ok ir)
    × ((v : Bool) × (interpret ir empty_caller empty_record bit ≡ some (ok v)))

module _ (runtime_wasm : Bytes) (segments : List (Option (ℕ × Bytes))) (file : TypedFile) where
  bundle_of-Runs :
      (name : Bytes) (bit : ℕ) {bundle : PolicyBundle}
      → bundle_of runtime_wasm segments file name ≡ ok bundle
      → Memᴰ bit every_bit
      → Runs file name bit
  unfolding bundle_of
  bundle_of-Runs name bit h m =
      let (ir, lowered, h₁) = >>=-eq-ok (lower_schema_to_ir file.schemas name) _ h in
      let (done, passed, h₂) = >>=-eq-ok (self_pass name ir every_bit) _ h₁ in
      (ir, lowered, self_pass-ok name ir every_bit bit passed m)

  bundles_of-Runs :
      (names : List Bytes) (name : Bytes) (decl : SchemaDecl) (bit : ℕ)
      {bundles : List PolicyBundle}
      → bundles_of runtime_wasm segments file names ≡ ok bundles
      → Memᴰ name names
      → find_schema file.schemas name ≡ some decl
      → Memᴰ bit every_bit
      → Runs file name bit
  unfolding bundles_of
  bundles_of-Runs [] name decl bit h m found b = absurd (Memᴰ.not-nil m)
  bundles_of-Runs (n ∷ ns) name decl bit h (Memᴰ.head e) found b =
      let known = subst (λ k. find_schema file.schemas k ≡ some decl) e found in
      let (bundle, made) =
        with_bundle-this (find_schema file.schemas n) (bundle_of runtime_wasm segments file n) _
          known h in
      subst (λ k. Runs file k bit) (sym e) (bundle_of-Runs n bit made b)
  bundles_of-Runs (n ∷ ns) name decl bit h (Memᴰ.tail m) found b =
      let (rest, others) =
        with_bundle-rest (find_schema file.schemas n) (bundle_of runtime_wasm segments file n) _
          h in
      bundles_of-Runs ns name decl bit others m found b

  -- Where bundles are emitted, the bytecode of each schema that was declared has been run for each
  -- of the four actions with no caller and no record, and returned a verdict.
  pub emit_policy_bundles-Runs :
      (name : Bytes) (decl : SchemaDecl) (bit : ℕ) {bundles : List PolicyBundle}
      → emit_policy_bundles runtime_wasm segments file ≡ ok bundles
      → Memᴰ name file.decl_order
      → find_schema file.schemas name ≡ some decl
      → Memᴰ bit every_bit
      → Runs file name bit
  unfolding emit_policy_bundles
  emit_policy_bundles-Runs name decl bit h m found b =
      bundles_of-Runs file.decl_order name decl bit h m found b
