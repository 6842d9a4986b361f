-- ===== src/PolicyRuntime/Interp/Paths.antt =====
-- Paths that `lower_path` of crates/sealstack-csl/src/codegen/policy.rs emits, as `load_path` of
-- crates/sealstack-policy-runtime/src/interp.rs reads them.
use sealstack.Prelude.{
  ℕ, suc, ◌+◌, ◌^◌, ◌≤◌, ◌<◌, ◌≡◌, refl, sym, ap, ◌∙◌, inl, inr, true, false, List, [], ◌∷◌, ◌++◌,
  append_assoc, append-nil, arith, ltb, leb, if◌then◌else◌, le→leb, lt→leb_false, Bool-cases,
  length, length-append, Sees, Sees-get_elem?, Sees-append, Sees-next, ok, err, ◌>>=◌,
}
use sealstack.PolicyRuntime.Json.{invalid, JsonResult}
use sealstack.Bytes.{Bytes, slice-Sees}
use sealstack.Bytes.Le.{to_le_bytes, length-to_le_bytes, from_le_bytes-to_le_bytes}
use sealstack.PolicyRuntime.Interp.{read_u16, read_slice, max_segs, push_seg, read_segs}
use mathlib.Core.Path.{subst}
use sealstack.Csl.Policy.{lower_segments}
use sealstack.Csl.Policy.Paths.{
  text_code, segments_code, Short, lower_segments-eq-ok, length-text_code,
}

module _ (acc : List Bytes) (seg : Bytes) where
  push_seg-fits : ltb (length acc) max_segs ≡ true → push_seg acc seg ≡ ok (acc ++ seg ∷ [])
  unfolding push_seg
  push_seg-fits h = rw h refl

  push_seg-full : ltb (length acc) max_segs ≡ false → push_seg acc seg ≡ err invalid
  unfolding push_seg
  push_seg-full h = rw h refl

module _ (ir : Bytes) where
  read_u16-Sees :
      (ip n : ℕ) (rest : Bytes)
      → n < 256 ^ 2
      → Sees ir ip (to_le_bytes 2 n ++ rest)
      → read_u16 ir ip ≡ ok (n, ip + 2)
  unfolding read_u16 to_le_bytes
  read_u16-Sees ip n rest h s =
      rw (Sees-get_elem? ir ip s, Sees-get_elem? ir (ip + 1) (Sees-next ir ip _ _ s))
        (ap (λ v. ok (v, ip + 2)) (from_le_bytes-to_le_bytes 2 n h))

  read_slice-Sees :
      (ip : ℕ) (text rest : Bytes)
      → length text < 256 ^ 2
      → Sees ir ip (text_code text ++ rest)
      → read_slice ir ip ≡ ok (text, ip + length (text_code text))
  unfolding read_slice text_code
  read_slice-Sees ip text rest h s =
      rw
        (
          read_u16-Sees ip (length text) (text ++ rest) h seen,
          slice-Sees ir (ip + 2) text rest after,
        )
        (ap (λ v. ok (text, v)) (omega (arith, length-text_code text)))
    where
      seen : Sees ir ip (to_le_bytes 2 (length text) ++ (text ++ rest))
      seen = rw append_assoc at s

      after : Sees ir (ip + 2) (text ++ rest)
      after =
          rw length-to_le_bytes at
            (Sees-append ir ip (to_le_bytes 2 (length text)) _ (rw append_assoc at s))

  abbrev Keeps : ℕ → ℕ → List Bytes → List Bytes → JsonResult (List Bytes × ℕ)
  Keeps ip len acc segs =
      if leb (length acc + length segs) max_segs then ok (acc ++ segs, ip + len) else err invalid

  read_segs-step :
      (n : ℕ) (seg : Bytes) (acc : List Bytes) (ip : ℕ) (rest : Bytes)
      → length seg < 256 ^ 2
      → Sees ir ip (text_code seg ++ rest)
      → read_segs (suc n) ir ip acc
        ≡ (push_seg acc seg >>= read_segs n ir (ip + length (text_code seg)))
  unfolding read_segs
  read_segs-step n seg acc ip rest short s = rw (read_slice-Sees ip seg rest short s) refl

  Keeps-cons :
      (ip n m : ℕ) (seg : Bytes) (segs acc : List Bytes)
      → Keeps (ip + n) m (acc ++ seg ∷ []) segs ≡ Keeps ip (n + m) acc (seg ∷ segs)
  Keeps-cons ip n m seg segs acc = rw (append_assoc acc (seg ∷ []) segs, count, place) refl
    where
      count : length (acc ++ seg ∷ []) + length segs ≡ length acc + length (seg ∷ segs)
      count = omega (arith, length-append acc (seg ∷ []))

      place : ip + n + m ≡ ip + (n + m)
      place = omega arith

  read_segs-code :
      (segs acc : List Bytes) (ip : ℕ) (rest : Bytes)
      → Short segs
      → length acc ≤ max_segs
      → Sees ir ip (segments_code segs ++ rest)
      → read_segs (length segs) ir ip acc ≡ Keeps ip (length (segments_code segs)) acc segs
  unfolding read_segs segments_code
  read_segs-code [] acc ip rest short room s =
      rw (le→leb (length acc + 0) max_segs (omega arith), append-nil)
        (ap (λ v. ok (acc, v)) (omega arith))
  read_segs-code (seg ∷ segs) acc ip rest short room s =
      read_segs-step (length segs) seg acc ip (segments_code segs ++ rest) short.0 seen
      ∙ elim (Bool-cases (ltb (length acc) max_segs)) [
        | inl fits ↦ rw (push_seg-fits acc seg fits) (
            read_segs-code segs (acc ++ seg ∷ []) (ip + length (text_code seg)) rest short.1
              (ground (arith, length-append acc (seg ∷ [])))
              (Sees-append ir ip (text_code seg) _ seen)
            ∙ Keeps-cons ip _ _ seg segs acc
            ∙ ap (λ n. Keeps ip n acc (seg ∷ segs))
                (sym (length-append (text_code seg) (segments_code segs))))
        | inr full ↦
            rw
              (
                push_seg-full acc seg full,
                lt→leb_false (length acc + length (seg ∷ segs)) max_segs (ground arith),
              )
              refl
      ]
    where
      seen : Sees ir ip (text_code seg ++ (segments_code segs ++ rest))
      seen = rw append_assoc at s

  -- The segments that the compiler writes, read by `load_path`: at most `MAX_SEGS` of them are read
  -- back, up to the end of the operand, whatever keys the input has; more are an error.
  pub read_segs-lower_segments :
      (segs : List Bytes) (code rest : Bytes) (ip : ℕ)
      → lower_segments segs [] ≡ ok code
      → Sees ir ip (code ++ rest)
      → read_segs (length segs) ir ip []
        ≡ (if leb (length segs) max_segs then ok (segs, ip + length code) else err invalid)
  read_segs-lower_segments segs code rest ip lowered s =
      let (shorts, same) = lower_segments-eq-ok segs [] lowered in
      rw same (
        read_segs-code segs [] ip rest shorts (omega arith)
          (subst (λ k. Sees ir ip (k ++ rest)) same s)
        ∙ ap
            (λ n.
              if leb n max_segs then ok (segs, ip + length (segments_code segs)) else err invalid)
            (omega arith))
