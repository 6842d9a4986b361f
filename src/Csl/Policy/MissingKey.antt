-- ===== src/Csl/Policy/MissingKey.antt =====
-- A path through a missing key: `load_path` of crates/sealstack-policy-ir/src/host.rs on what
-- `lower_path` of crates/sealstack-csl/src/codegen/policy.rs emits.
use mathlib.Core.Path.{subst}
use sealstack.Prelude.{
  ◌/◌, ℕ, suc, ◌+◌, ◌<◌, ◌%◌, ◌≡◌, ap, ◌∙◌, true, none, some, List, [], ◌∷◌, ◌++◌, append_assoc,
  arith, length, length-append, get_elem?, ok, Sees, Sees-next, Sees-append, Sees-get_elem?,
}
use sealstack.Bytes.{Bytes, is_utf8}
use sealstack.Bytes.Le.{to_le_bytes}
use sealstack.Json.{Value, get}
use sealstack.PolicyIr.Host.{NativeVal, load_path}
use sealstack.PolicyIr.Host.Reads.{byte_at-Sees}
use sealstack.Csl.Policy.{lower_segments}
use sealstack.Csl.Policy.Paths.{
  text_code, segments_code, lower_segments-eq-ok, load_segments-step, length-text_code,
}

text_code-Sees :
    (ir : Bytes) (ip : ℕ) (text rest : Bytes)
    → Sees ir ip (text_code text ++ rest)
    → Sees ir ip (length text % 256 ∷ (length text / 256 % 256 ∷ (text ++ rest)))
unfolding text_code to_le_bytes
text_code-Sees ir ip text rest s = s

-- Where the first of several keys is missing, the load yields null but stops inside its own operand,
-- at the length of the next key, whose low byte is the opcode that the loop of `run` fetches next.
pub load_path-missing :
    (ir : Bytes) (ip : ℕ) (root : Value) (seg seg' : Bytes) (segs : List Bytes) (code rest : Bytes)
    → lower_segments (seg ∷ seg' ∷ segs) [] ≡ ok code
    → is_utf8 seg ≡ true
    → get root seg ≡ none
    → Sees ir ip (suc (suc (length segs)) ∷ (code ++ rest))
    → (ip' : ℕ) × (load_path ir ip root ≡ ok (NativeVal.null, ip'))
      × (get_elem? ir ip' ≡ some (length seg' % 256))
      × (ip' < ip + length (suc (suc (length segs)) ∷ code))
unfolding load_path segments_code
load_path-missing ir ip root seg seg' segs code rest lowered fit missing s =
    let (shorts, same) = lower_segments-eq-ok (seg ∷ seg' ∷ segs) [] lowered in
    let later = segments_code (seg' ∷ segs) in
    let s₁ : Sees ir (ip + 1) (text_code seg ++ (later ++ rest)) =
      subst (Sees ir (ip + 1)) (append_assoc (text_code seg) later rest)
        (subst (λ k. Sees ir (ip + 1) (k ++ rest)) same (Sees-next ir ip _ _ s)) in
    let s₂ = Sees-append ir (ip + 1) (text_code seg) _ s₁ in
    (
      ip + 1 + length (text_code seg),
      rw (byte_at-Sees ir ip _ _ s) (
          load_segments-step ir (suc (length segs)) (ip + 1) root seg _ shorts.0 fit s₁
          ∙ rw missing),
      Sees-get_elem? ir (ip + 1 + length (text_code seg)) (
          text_code-Sees ir _ seg' (segments_code segs ++ rest)
            (subst (Sees ir _) (append_assoc (text_code seg') (segments_code segs) rest) s₂)),
      omega (
        arith,
        ap length same,
        length-append (text_code seg) later,
        length-append (text_code seg') (segments_code segs),
        length-text_code seg',
      ),
    )
