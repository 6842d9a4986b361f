-- ===== src/Csl/Policy/Leaves.antt =====
-- `lower_literal` and `lower_path` of crates/sealstack-csl/src/codegen/policy.rs, run.
use mathlib.Core.Path.{subst}
use sealstack.Prelude.{
  ℕ, ◌≡◌, refl, ap, sym, ◌∙◌, ok, err, ◌>>=◌, >>=-eq-ok, ok_inj, [], ◌∷◌, ◌++◌, List, append_assoc,
  if◌then◌else◌, true, false, Bool, arith, length,
}
use sealstack.Bytes.{Bytes, bytes_eq, codes}
use sealstack.Bytes.Le.{to_le_bytes, length-to_le_bytes}
use sealstack.Json.{Value}
use sealstack.PolicyIr.{Op, tag}
use sealstack.PolicyIr.Host.{load_path, NativeVal, IrResult, Stack, push_next, exec}
use sealstack.PolicyIr.Host.Reads.{byte_at-Sees, read_word-Sees}
use sealstack.PolicyIr.Host.Steps.{RunsAs, leaf-RunsAs}
use sealstack.Csl.Ast.{Literal}
use sealstack.Csl.Policy.{
  CslError, lower_literal, lower_path, root_op, try_from, path_too_deep, string_too_long,
}
use sealstack.Csl.Policy.Meaning.{
  literal_value, path_value, path_reaches, LiteralFits, TextsFit, root_value,
}
use sealstack.Csl.Policy.Paths.{
  text_code, segments_code, lower_text-eq-ok, lower_segments-eq-ok, read_str-text_code,
  load_path-Sees, lt_of_try_from,
}

module _ (ir : Bytes) (caller record_value : Value) where
  push_at : (v : NativeVal) (s : Stack) {i j : ℕ} → i ≡ j → push_next v i s ≡ push_next v j s
  push_at v s e = ap (λ k. push_next v k s) e

  -- Bytecode appended to `out`, which computes `value` in one round.
  abbrev pub Leaf : IrResult NativeVal → Bytes → Bytes → Type 0
  Leaf value out out' =
      (code : Bytes) × (out' ≡ out ++ code) × RunsAs ir caller record_value value 1 1 code

  pub literal-Leaf :
      (lit : Literal) (out : Bytes) {out' : Bytes}
      → LiteralFits lit
      → lower_literal lit out ≡ ok out'
      → Leaf (literal_value lit) out out'
  unfolding lower_literal literal_value exec
  literal-Leaf Literal.null out fit h = (
    _,
    sym (ok_inj h),
    leaf-RunsAs ir caller record_value _ Op.lit_null [] λ ip rest s sees. push_at _ s (omega arith),
  )
  literal-Leaf (Literal.boolean true) out fit h = (
    _,
    sym (ok_inj h),
    leaf-RunsAs ir caller record_value _ Op.lit_bool (1 ∷ [])
        λ ip rest s sees. rw (byte_at-Sees ir ip 1 rest sees),
  )
  literal-Leaf (Literal.boolean false) out fit h = (
    _,
    sym (ok_inj h),
    leaf-RunsAs ir caller record_value _ Op.lit_bool (0 ∷ [])
        λ ip rest s sees. rw (byte_at-Sees ir ip 0 rest sees),
  )
  literal-Leaf (Literal.integer i) out fit h = (
    _,
    sym (ok_inj h),
    leaf-RunsAs ir caller record_value _ Op.lit_i64 (to_le_bytes 8 i)
        λ ip rest s sees. rw ((read_word-Sees ir ip i rest fit sees).0, length-to_le_bytes),
  )
  literal-Leaf (Literal.float f) out fit h = (
    _,
    sym (ok_inj h),
    leaf-RunsAs ir caller record_value _ Op.lit_f64 (to_le_bytes 8 f)
        λ ip rest s sees. rw ((read_word-Sees ir ip f rest fit sees).1, length-to_le_bytes),
  )
  literal-Leaf (Literal.string t) out fit h =
      let (short, e) = lower_text-eq-ok t string_too_long (out ++ tag Op.lit_str ∷ []) h in
      (
        _,
        e ∙ append_assoc out (tag Op.lit_str ∷ []) (text_code t),
        leaf-RunsAs ir caller record_value _ Op.lit_str (text_code t)
            λ ip rest s sees. rw (read_str-text_code ir ip t rest short fit sees),
      )
  literal-Leaf (Literal.duration n u) out fit h = cc

  -- The load operation of a root reads a path from that root.
  abbrev LoadsFrom : Value → Op → Type 0
  LoadsFrom root op =
      (ip : ℕ) (s : Stack)
      → exec ir caller record_value op ip s ≡ (load_path ir ip root >>= λ x. push_next x.0 x.1 s)

  root-cases :
      (b c : Bool) (e : CslError) {op : Op}
      → (if b then ok Op.load_caller else if c then ok Op.load_self else err e) ≡ ok op
      → LoadsFrom (if b then caller else record_value) op
  unfolding exec
  root-cases true c e h = subst (LoadsFrom caller) (ok_inj h) (λ ip s. refl)
  root-cases false true e h = subst (LoadsFrom record_value) (ok_inj h) (λ ip s. refl)
  root-cases false false e h = cc

  exec-root_op :
      (root : Bytes) {op : Op}
      → root_op root ≡ ok op
      → LoadsFrom (root_value caller record_value root) op
  unfolding root_op root_value
  exec-root_op root h =
      root-cases (bytes_eq root (codes "caller")) (bytes_eq root (codes "self")) _ h

  pub path-Leaf :
      (segs : List Bytes) (out : Bytes) {out' : Bytes}
      → TextsFit segs
      → path_reaches caller record_value segs ≡ true
      → lower_path segs out ≡ ok out'
      → Leaf (ok (path_value caller record_value segs)) out out'
  unfolding lower_path path_value path_reaches
  path-Leaf [] out fit reach h = cc
  path-Leaf (root ∷ segs) out fit reach h =
      let (op, known, h₁) = >>=-eq-ok (root_op root) _ h in
      let (n, few, h₂) = >>=-eq-ok (try_from 8 (length segs) path_too_deep) _ h₁ in
      let (small, count) = lt_of_try_from 8 (length segs) path_too_deep few in
      let (short, e) = lower_segments-eq-ok segs (out ++ tag op ∷ n ∷ []) h₂ in
      (
        tag op ∷ length segs ∷ segments_code segs,
        e
            ∙ (append_assoc out (tag op ∷ n ∷ []) (segments_code segs)
                ∙ ap (λ k. out ++ tag op ∷ k ∷ segments_code segs) count),
        leaf-RunsAs ir caller record_value _ op (length segs ∷ segments_code segs) λ ip rest s sees.
            exec-root_op root known ip s
            ∙ rw (
                load_path-Sees ir segs ip rest (root_value caller record_value root) short fit.1
                  reach sees),
      )
