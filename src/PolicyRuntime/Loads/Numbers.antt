-- ===== src/PolicyRuntime/Loads/Numbers.antt =====
-- What `load_path` of crates/sealstack-policy-runtime/src/interp.rs loads from the text of a number.
use sealstack.Prelude.{
  ℕ, ◌+◌, ◌≡◌, refl, ◌∙◌, true, false, Option, none, some, [], ◌∷◌, ◌++◌, ◌-◌, ◌⊎◌,
  take-append_self, ok_or, arith, length, Sees, ok, err,
}
use sealstack.PolicyRuntime.Json.{
  between, as_i64, as_f64, utf8_number, i64_of_text, invalid, JsonResult, is_ws,
}
use sealstack.Bytes.{Bytes, IsAscii, is_utf8, is_utf8-IsAscii}
use sealstack.Numbers.{is_digit, parse_i64, f64_to_i64}
use sealstack.PolicyRuntime.Text.{AreNumberBytes, IsNumberText}
use sealstack.PolicyRuntime.Text.Scan.{Delimits, skip_number-text, at_byte-Sees}
use sealstack.PolicyRuntime.Text.Members.{skip_ws-Solid}
use sealstack.PolicyRuntime.Interp.{Val, prefer_i64, number_at, value_of_byte, value_at}

AreNumberBytes-IsAscii : (text : Bytes) → AreNumberBytes text → IsAscii text
AreNumberBytes-IsAscii [] h = tt
AreNumberBytes-IsAscii (b ∷ bs) (h, hs) = (ground arith, AreNumberBytes-IsAscii bs hs)

number-is_utf8 : (text : Bytes) → IsNumberText text → is_utf8 text ≡ true
number-is_utf8 [] h = absurd h
number-is_utf8 (b ∷ bs) (first, h) =
    is_utf8-IsAscii (b ∷ bs) (ground arith, AreNumberBytes-IsAscii bs h)

module _ (parse_f64 : Bytes → Option ℕ) where
  -- What the text of a number is loaded as: an integer, cut off where the text is that of no `i64`.
  abbrev pub loaded_number : Bytes → JsonResult Val
  loaded_number text = elim (parse_i64 text) [
    | some i ↦ ok (Val.i64 i)
    | none ↦ elim (parse_f64 text) [ some f ↦ ok (Val.i64 (f64_to_i64 f)) | none ↦ err invalid ]
  ]

module _ (parse_f64 : Bytes → Option ℕ) (input : Bytes) where
  pub value_at-Sees :
      (at b : ℕ) (rest : Bytes)
      → is_ws b ≡ false
      → Sees input at (b ∷ rest)
      → value_at parse_f64 input at ≡ value_of_byte parse_f64 input at b
  unfolding value_at
  value_at-Sees at b rest solid s =
      rw (skip_ws-Solid input at (b ∷ rest) s solid)
        (at_byte-Sees input at b rest (err invalid) _ s)

  text_between :
      (text : Bytes) (at : ℕ) (rest : Bytes)
      → Sees input at (text ++ rest)
      → between input at (at + length text) ≡ text
  text_between text at rest s =
      let size : at + length text - at ≡ length text = omega arith in
      rw (s.rest_eq, size) (take-append_self text rest)

  as_i64-text :
      (text : Bytes) (at : ℕ) (rest : Bytes)
      → IsNumberText text
      → Delimits rest
      → Sees input at (text ++ rest)
      → as_i64 parse_f64 input at ≡ ok_or (i64_of_text parse_f64 text) invalid
  unfolding as_i64 utf8_number
  as_i64-text text at rest h d s =
      rw
        (
          skip_number-text input text at rest h d s,
          text_between text at rest s,
          number-is_utf8 text h,
        )
        refl

  as_f64-text :
      (text : Bytes) (at : ℕ) (rest : Bytes)
      → IsNumberText text
      → Delimits rest
      → Sees input at (text ++ rest)
      → as_f64 parse_f64 input at ≡ ok_or (parse_f64 text) invalid
  unfolding as_f64 utf8_number
  as_f64-text text at rest h d s =
      rw
        (
          skip_number-text input text at rest h d s,
          text_between text at rest s,
          number-is_utf8 text h,
        )
        refl

  number_at-text :
      (text : Bytes) (at : ℕ) (rest : Bytes)
      → IsNumberText text
      → Delimits rest
      → Sees input at (text ++ rest)
      → number_at parse_f64 input at ≡ loaded_number parse_f64 text
  unfolding number_at i64_of_text
  number_at-text text at rest h d s =
      rw (as_i64-text text at rest h d s, as_f64-text text at rest h d s)
        (go (parse_i64 text) (parse_f64 text))
    where
      go :
          (i f : Option ℕ)
          → prefer_i64
              (ok_or
                (elim i [
                  | some v ↦ some v
                  | none ↦ elim f [ none ↦ none | some x ↦ some (f64_to_i64 x) ]
                ])
                invalid)
              (ok_or f invalid)
            ≡ elim i [
              | some v ↦ ok (Val.i64 v)
              | none ↦ elim f [ some x ↦ ok (Val.i64 (f64_to_i64 x)) | none ↦ err invalid ]
            ]
      go (some i) f = refl
      go none none = refl
      go none (some f) = refl

  value_of_byte-number :
      (b at : ℕ)
      → (is_digit b ≡ true) ⊎ (b ≡ 45)
      → value_of_byte parse_f64 input at b ≡ number_at parse_f64 input at
  unfolding value_of_byte
  value_of_byte-number b at h = ground arith

  pub value_at-number :
      (text : Bytes) (at : ℕ) (rest : Bytes)
      → IsNumberText text
      → Delimits rest
      → Sees input at (text ++ rest)
      → value_at parse_f64 input at ≡ loaded_number parse_f64 text
  value_at-number [] at rest h d s = absurd h
  value_at-number (b ∷ bs) at rest (first, more) d s =
      value_at-Sees at b (bs ++ rest) (ground arith) s
      ∙ value_of_byte-number b at (ground arith)
      ∙ number_at-text (b ∷ bs) at rest (first, more) d s
