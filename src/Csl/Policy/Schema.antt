-- ===== src/Csl/Policy/Schema.antt =====
-- `lower_schema_to_ir` of crates/sealstack-csl/src/codegen/policy.rs against `interpret` of
-- crates/sealstack-policy-ir/src/host.rs: header, table and rules.
use mathlib.Core.Path.{subst, subst₂}
use sealstack.Prelude.{
  ℕ, zero, suc, ◌+◌, ◌*◌, ◌^◌, ◌<◌, ◌≡◌, refl, ap, sym, ◌∙◌, Bool, false, Option, none, some, ok,
  >>=-eq-ok, ok_inj, List, [], ◌∷◌, ◌++◌, append-nil, arith, ◌==◌, length, length-append, Sees,
  Sees-zero, Sees-next, Sees-append, le→ltb_false, lt→ltb, take-length, take,
}
use sealstack.Bytes.{Bytes, bytes_eq}
use sealstack.Bytes.Le.{from_le_bytes-to_le_bytes, to_le_bytes, length-to_le_bytes}
use sealstack.Json.{Value}
use sealstack.PolicyIr.{magic}
use sealstack.PolicyIr.Host.{IrResult, find_entry, index, checked_add, interpret, interpret_body}
use sealstack.Csl.Ast.{PolicyRule, PolicyBlock, SchemaDecl}
use sealstack.Csl.Policy.{
  lower_rules, table_offsets, table_entries, concat_streams, build_action_table_and_rules,
  with_header, lower_policy_block_body, try_from, too_many_rules, ir_too_long,
}
use sealstack.Csl.Policy.Meaning.{applicable, policy_verdict}
use sealstack.Csl.Policy.Paths.{lt_of_try_from}
use sealstack.Csl.Policy.Verdict.{RuleFits, Located-verdict}
use sealstack.Csl.Policy.Layout.{Located, find_entry-Located, table_offsets-cons}

suc_ne_zero : (n : ℕ) → (suc n == 0) ≡ false
suc_ne_zero n = ground arith

length-table_entries :
    (running : ℕ) (streams : List (ℕ × Bytes)) {offsets : List ℕ}
    → table_offsets running streams ≡ ok offsets
    → length (table_entries streams offsets) ≡ length streams * 3
unfolding table_entries
length-table_entries running [] h = omega arith
length-table_entries running ((mask, stream) ∷ streams) h =
    let (offs, small, laid, e) = table_offsets-cons running mask stream streams h in
    rw e (
      omega (
        arith,
        length-append (to_le_bytes 2 running) (table_entries streams offs),
        length-to_le_bytes 2 running,
        length-table_entries (running + length stream) streams laid,
      ))

module _ (caller record_value : Value) (action : ℕ) where
  -- The search through a table that is there in full.
  searched-verdict :
      (count : ℕ) (entries code : Bytes) (o : Option PolicyRule)
      → length entries ≡ count * 3
      → RuleFits caller record_value o
      → (let ir = count ∷ (entries ++ code) in
          Located ir (1 + count * 3) action o (find_entry ir (1 + count * 3) action count 0))
      → interpret_body (count ∷ (entries ++ code)) caller record_value action
        ≡ some (policy_verdict caller record_value o)
  unfolding interpret_body index find_entry
  searched-verdict zero entries code o size fit there =
      rw (suc_ne_zero (length (entries ++ code)))
        (Located-verdict (0 ∷ (entries ++ code)) caller record_value action 1 o none fit there)
  searched-verdict (suc n) entries code o size fit there =
      let ir = suc n ∷ (entries ++ code) in
      rw
        (
          suc_ne_zero (length (entries ++ code)),
          suc_ne_zero n,
          le→ltb_false (length ir) (1 + suc n * 3)
              (omega (arith, size, length-append entries code)),
        )
        (Located-verdict ir caller record_value action (1 + suc n * 3) o
          (find_entry ir (1 + suc n * 3) action (suc n) 0) fit there)

  table-Located :
      (rules : List PolicyRule) (streams : List (ℕ × Bytes)) (offsets : List ℕ)
      → lower_rules rules ≡ ok streams
      → table_offsets 0 streams ≡ ok offsets
      → (let n = length streams in
          let ir = n ∷ (table_entries streams offsets ++ concat_streams streams) in
          Located ir
            (1 + n * 3)
            action
            (applicable rules action)
            (find_entry ir (1 + n * 3) action n 0))
  table-Located rules streams offsets lowered laid =
      let n = length streams in
      let entries = table_entries streams offsets in
      let code = concat_streams streams in
      let ir = n ∷ (entries ++ code) in
      let table = Sees-next ir 0 n _ (Sees-zero ir) in
      let behind = Sees-append ir (0 + 1) entries code table in
      find_entry-Located ir (1 + n * 3) action rules streams offsets 0 0 code [] lowered laid
        (omega arith) (subst (λ k. Sees ir k (entries ++ code)) (omega arith) table)
        (subst₂ (λ k l. Sees ir k l) (omega (arith, length-table_entries 0 streams laid))
          (sym (append-nil code)) behind)

  body_verdict :
      (block : PolicyBlock) {body : Bytes}
      → build_action_table_and_rules block ≡ ok body
      → RuleFits caller record_value (applicable block.rules action)
      → interpret_body body caller record_value action
        ≡ some (policy_verdict caller record_value (applicable block.rules action))
  unfolding build_action_table_and_rules
  body_verdict block h fit =
      let (streams, lowered, h₁) = >>=-eq-ok (lower_rules block.rules) _ h in
      let (count, few, h₂) = >>=-eq-ok (try_from 8 (length streams) too_many_rules) _ h₁ in
      let (offsets, laid, h₃) = >>=-eq-ok (table_offsets 0 streams) _ h₂ in
      let (small, same) = lt_of_try_from 8 (length streams) too_many_rules few in
      let same' : count ≡ length streams = same in
      let body_eq =
        ap (λ k. k ∷ (table_entries streams offsets ++ concat_streams streams)) (sym same')
        ∙ ok_inj h₃ in
      subst
        (λ b.
          interpret_body b caller record_value action
          ≡ some (policy_verdict caller record_value (applicable block.rules action)))
        body_eq
        (searched-verdict (length streams) (table_entries streams offsets) (concat_streams streams)
          (applicable block.rules action) (length-table_entries 0 streams laid) fit
          (table-Located block.rules streams offsets lowered laid))

  -- The verdict of a schema: deny where it has no policy block.
  abbrev pub schema_verdict : Option PolicyBlock → IrResult Bool
  schema_verdict none = ok false
  schema_verdict (some block) = policy_verdict caller record_value (applicable block.rules action)

  abbrev pub SchemaFits : Option PolicyBlock → Type 0
  SchemaFits none = Unit
  SchemaFits (some block) = RuleFits caller record_value (applicable block.rules action)

  header_verdict :
      (body : Bytes)
      → length body < 2 ^ 32
      → interpret (magic ++ (to_le_bytes 4 (length body) ++ body)) caller record_value action
        ≡ interpret_body body caller record_value action
  unfolding interpret checked_add to_le_bytes bytes_eq
  header_verdict body small =
      let full = magic ++ (to_le_bytes 4 (length body) ++ body) in
      rw
        (
          le→ltb_false (length full) 8 (omega arith),
          from_le_bytes-to_le_bytes 4 (length body) small,
          lt→ltb (length body + 8) (2 ^ 64) (omega arith),
          le→ltb_false (length full) (length body + 8) (omega arith),
        )
        (ap (λ b. interpret_body b caller record_value action)
          (ap (λ n. take n body) (from_le_bytes-to_le_bytes 4 (length body) small)
            ∙ take-length body))

  schema_body-verdict :
      (p : Option PolicyBlock) {body : Bytes}
      → (elim p [ none ↦ ok (0 ∷ []) | some block ↦ build_action_table_and_rules block ]) ≡ ok body
      → SchemaFits p
      → interpret_body body caller record_value action ≡ some (schema_verdict p)
  unfolding interpret_body
  schema_body-verdict none h fit = rw (sym (ok_inj h)) refl
  schema_body-verdict (some block) h fit = body_verdict block h fit

  -- Bytecode compiled from a schema, run on the host, gives the verdict of the first rule for the
  -- action, errors included, and denies where there is none: for a schema whose deciding predicate
  -- keeps Rust's ranges, needs at most `MAX_STACK` slots, and has in each path at most the last key
  -- missing.
  pub with_header-interpret :
      (decl : SchemaDecl) {ir : Bytes}
      → with_header decl ≡ ok ir
      → SchemaFits decl.policy
      → interpret ir caller record_value action ≡ some (schema_verdict decl.policy)
  unfolding with_header lower_policy_block_body
  with_header-interpret decl h fit =
      let (body, lowered, h₁) = >>=-eq-ok (lower_policy_block_body decl) _ h in
      let (len, short, h₂) = >>=-eq-ok (try_from 32 (length body) ir_too_long) _ h₁ in
      let (small, same) = lt_of_try_from 32 (length body) ir_too_long short in
      subst (λ b. interpret b caller record_value action ≡ some (schema_verdict decl.policy))
        (ap (λ n. magic ++ (to_le_bytes 4 n ++ body)) (sym same) ∙ ok_inj h₂)
        (header_verdict body small ∙ schema_body-verdict decl.policy lowered fit)
