-- ===== src/Csl/Policy/Paths.antt =====
-- The bytecode of literals and paths, and what the interpreter's readers make of it.
use sealstack.Prelude.{
  suc, inl, inr, ◌∙◌, ℕ, ◌+◌, ◌^◌, ◌<◌, ◌≡◌, refl, ap, true, none, some, List, [], ◌∷◌, ◌++◌,
  append_assoc, append-nil, arith, length, length-append, ok, >>=-eq-ok, Option-cases, Sees,
  Sees-next, Sees-append,
}
use sealstack.Bytes.{Bytes, is_utf8}
use sealstack.Bytes.Le.{length-to_le_bytes, to_le_bytes}
use sealstack.Json.{Value, get}
use sealstack.PolicyIr.Host.{read_str, NativeVal, native_of, load_segments, load_path}
use sealstack.PolicyIr.Host.Reads.{read_str-Sees, byte_at-Sees}
use sealstack.Csl.Policy.{CslError, try_from, lower_text, lower_segments, segment_too_long}
use sealstack.Csl.Policy.Meaning.{follow, reaches, TextsFit}

-- What `lower_text` and `lower_segments` append.
unfoldable pub text_code : Bytes → Bytes
text_code text = to_le_bytes 2 (length text) ++ text

unfoldable pub segments_code : List Bytes → Bytes
unfolding text_code
segments_code [] = []
segments_code (seg ∷ rest) = text_code seg ++ segments_code rest

pub lt_of_try_from :
    (w n : ℕ) (e : CslError) {m : ℕ} → try_from w n e ≡ ok m → (n < 2 ^ w) × (m ≡ n)
unfolding try_from
lt_of_try_from w n e h = ground arith

pub lower_text-eq-ok :
    (text : Bytes) (e : CslError) (out : Bytes) {out' : Bytes}
    → lower_text text e out ≡ ok out'
    → (length text < 256 ^ 2) × (out' ≡ out ++ text_code text)
unfolding lower_text text_code
lower_text-eq-ok text e out h =
    let (m, fits, e₁) = >>=-eq-ok (try_from 16 (length text) e) _ h in
    let (short, same) = lt_of_try_from 16 (length text) e fits in (omega arith, cc)

-- The lengths of lowered segments fit their two bytes.
abbrev pub Short : List Bytes → Type 0
Short [] = Unit
Short (seg ∷ rest) = (length seg < 256 ^ 2) × Short rest

pub lower_segments-eq-ok :
    (segs : List Bytes) (out : Bytes) {out' : Bytes}
    → lower_segments segs out ≡ ok out'
    → Short segs × (out' ≡ out ++ segments_code segs)
unfolding lower_segments segments_code
lower_segments-eq-ok [] out h = (tt, rw append-nil (cc))
lower_segments-eq-ok (seg ∷ rest) out h =
    let (out₁, e₁, e₂) = >>=-eq-ok (lower_text seg segment_too_long out) _ h in
    let (short, a₁) = lower_text-eq-ok seg segment_too_long out e₁ in
    let (shorts, a₂) = lower_segments-eq-ok rest out₁ e₂ in
    ((short, shorts), a₂ ∙ rw a₁ (append_assoc out (text_code seg) (segments_code rest)))

pub length-text_code : (text : Bytes) → length (text_code text) ≡ 2 + length text
unfolding text_code
length-text_code text =
    omega
      (arith, length-append (to_le_bytes 2 (length text)) text, length-to_le_bytes 2 (length text))

module _ (v : Value) (seg seg' : Bytes) (segs : List Bytes)
    (reach : reaches v (seg ∷ seg' ∷ segs) ≡ true) where
  reaches-some : (w : Value) → get v seg ≡ some w → reaches w (seg' ∷ segs) ≡ true
  unfolding reaches
  reaches-some w found = ground arith

  not-reaches-none : get v seg ≡ none → ⊥
  unfolding reaches
  not-reaches-none missing = ground arith

module _ (ir : Bytes) where
  pub read_str-text_code :
      (ip : ℕ) (text rest : Bytes)
      → length text < 256 ^ 2
      → is_utf8 text ≡ true
      → Sees ir ip (text_code text ++ rest)
      → read_str ir ip ≡ ok (text, ip + length (text_code text))
  unfolding text_code
  read_str-text_code ip text rest short fit s =
      read_str-Sees ir ip text rest short fit (rw append_assoc at s)
      ∙ ap (λ k. ok (text, k)) (omega (arith, length-text_code text))

  pub load_segments-step :
      (n ip : ℕ) (v : Value) (seg rest : Bytes)
      → length seg < 256 ^ 2
      → is_utf8 seg ≡ true
      → Sees ir ip (text_code seg ++ rest)
      → load_segments (suc n) ir ip v ≡ elim (get v seg) [
        | none ↦ ok (NativeVal.null, ip + length (text_code seg))
        | some w ↦ load_segments n ir (ip + length (text_code seg)) w
      ]
  unfolding load_segments
  load_segments-step n ip v seg rest short fit s = rw (read_str-text_code ip seg rest short fit s)

  -- Where every key but the last is there, the loop of `load_path` reads all segments and ends at the
  -- value that they lead to.
  pub load_segments-Sees :
      (segs : List Bytes) (ip : ℕ) (rest : Bytes) (v : Value)
      → Short segs
      → TextsFit segs
      → reaches v segs ≡ true
      → Sees ir ip (segments_code segs ++ rest)
      → load_segments (length segs) ir ip v ≡ ok (follow v segs, ip + length (segments_code segs))
  unfolding follow segments_code reaches
  load_segments-Sees [] ip rest v short fit reach s =
      unfold load_segments in ap (λ k. ok (native_of v, k)) (omega arith)
  load_segments-Sees (seg ∷ []) ip rest v short fit reach s =
      load_segments-step 0 ip v seg rest short.0 fit.0 (rw append-nil at s)
      ∙ rw append-nil (elim (Option-cases (get v seg)) [
        | inl missing ↦ rw (missing, follow)
        | inr (w, found) ↦ rw (found, follow) (unfold load_segments in refl)
      ])
  load_segments-Sees (seg ∷ seg' ∷ segs) ip rest v short fit reach s =
      load_segments-step (suc (length segs)) ip v seg (segments_code (seg' ∷ segs) ++ rest) short.0
        fit.0 (rw append_assoc at s)
      ∙ elim (Option-cases (get v seg)) [
        | inl missing ↦ absurd (not-reaches-none v seg seg' segs reach missing)
        | inr (w, found) ↦
            rw (found, follow)
              (load_segments-Sees (seg' ∷ segs) (ip + length (text_code seg)) rest w short.1 fit.1
                  (reaches-some v seg seg' segs reach w found)
                  (Sees-append ir ip (text_code seg) _ (rw append_assoc at s))
                ∙ ap (λ k. ok (follow w (seg' ∷ segs), k))
                    (omega (arith, length-append (text_code seg) (segments_code (seg' ∷ segs)))))
      ]

  -- `load_path`, past its opcode.
  pub load_path-Sees :
      (segs : List Bytes) (ip : ℕ) (rest : Bytes) (root : Value)
      → Short segs
      → TextsFit segs
      → reaches root segs ≡ true
      → Sees ir ip (length segs ∷ (segments_code segs ++ rest))
      → load_path ir ip root ≡ ok (follow root segs, ip + length (length segs ∷ segments_code segs))
  unfolding load_path
  load_path-Sees segs ip rest root short fit reach s = rw (byte_at-Sees ir ip (length segs) _ s) (
      load_segments-Sees segs (ip + 1) rest root short fit reach (Sees-next ir ip _ _ s)
      ∙ ap (λ k. ok (follow root segs, k)) (omega arith))
