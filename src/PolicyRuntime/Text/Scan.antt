-- ===== src/PolicyRuntime/Text/Scan.antt =====
-- `skip_value` and `as_str` of crates/sealstack-policy-runtime/src/json.rs on the text of a value.
use sealstack.Prelude.{
  ℕ, suc, ◌+◌, ◌-◌, ◌<◌, ◌≡◌, refl, ap, ◌∙◌, ◌⊎◌, inl, inr, true, false, ◌||◌, [], ◌∷◌, ◌++◌,
  append_assoc, arith, ◌==◌, if◌then◌else◌, ==_refl, length, drop, length-append, take-append_self,
  Sees, Sees-get_elem?, Sees-length, Sees-next, ok, err,
}
use sealstack.PolicyRuntime.Json.{
  invalid, JsonResult, resume, loop, at_byte, byte_is, prefix_length, starts_with, between,
  str_round, as_str, number_byte, skip_number, skip_keyword, skip_string, skip_from, skip_value,
  again, stop,
}
use sealstack.Bytes.{Bytes, codes}
use sealstack.PolicyRuntime.Text.{
  quoted, print, print_items, print_fields, IsPlain, AreNumberBytes, IsNumberText, IsWritten,
}
use sealstack.PolicyRuntime.Text.Containers.{skip_container-body}
use sealstack.PolicyRuntime.Text.Nested.{Passes-print_items, Passes-print_fields}
use sealstack.Numbers.{is_digit}
use sealstack.Json.{Value, Number}
use mathlib.Core.Path.{subst}

pub at_byte-Sees :
    {R : Type 0} (bytes : Bytes) (i b : ℕ) (rest : Bytes) (missing : R) (found : ℕ → R)
    → Sees bytes i (b ∷ rest)
    → at_byte bytes i missing found ≡ found b
at_byte-Sees bytes i b rest missing found s = rw (Sees-get_elem? bytes i s, at_byte) refl

-- What follows a number.
abbrev pub Delimits : Bytes → Type 0
Delimits [] = Unit
Delimits (b ∷ bs) = number_byte b ≡ false

module _ (bytes : Bytes) where
  pub byte_is-Sees : (i b : ℕ) (rest : Bytes) → Sees bytes i (b ∷ rest) → byte_is bytes i b ≡ true
  byte_is-Sees i b rest s = at_byte-Sees bytes i b rest false _ s ∙ ==_refl b

  pub byte_is_other :
      (i b c : ℕ) (rest : Bytes)
      → Sees bytes i (b ∷ rest)
      → (b == c) ≡ false
      → byte_is bytes i c ≡ false
  byte_is_other i b c rest s h = at_byte-Sees bytes i b rest false _ s ∙ h

  str_round-plain :
      (start i b : ℕ) (rest : Bytes)
      → (b == 34) ≡ false
      → (b == 92) ≡ false
      → Sees bytes i (b ∷ rest)
      → str_round bytes start i ≡ again (i + 1)
  unfolding str_round
  str_round-plain start i b rest quote backslash s =
      at_byte-Sees bytes i b rest _ _ s ∙ rw (backslash, quote) refl

  str_round-quote :
      (start i : ℕ) (rest : Bytes)
      → Sees bytes i (34 ∷ rest)
      → str_round bytes start i ≡ stop (ok (between bytes start i))
  unfolding str_round
  str_round-quote start i rest s = at_byte-Sees bytes i 34 rest _ _ s

  str_loop :
      (text : Bytes) (start i fuel : ℕ) (rest : Bytes)
      → IsPlain text
      → Sees bytes i (text ++ 34 ∷ rest)
      → loop (str_round bytes start) (length text + suc fuel) i
        ≡ ok (between bytes start (i + length text))
  unfolding loop
  str_loop [] start i fuel rest plain s =
      ap (λ n. loop (str_round bytes start) n i) (zero_add)
      ∙ ap (resume (loop (str_round bytes start) fuel)) (str_round-quote start i rest s)
      ∙ ap (λ n. ok (between bytes start n)) (omega arith)
    where
      zero_add : 0 + suc fuel ≡ suc fuel
      zero_add = omega arith
  str_loop (b ∷ bs) start i fuel rest (visible, quote, backslash, plain) s =
      ap (λ n. loop (str_round bytes start) n i) suc_add
      ∙ ap (resume (loop (str_round bytes start) (length bs + suc fuel)))
          (str_round-plain start i b _ quote backslash s)
      ∙ str_loop bs start (i + 1) fuel rest plain (Sees-next bytes i b _ s)
      ∙ ap (λ n. ok (between bytes start n)) (omega arith)
    where
      suc_add : suc (length bs) + suc fuel ≡ suc (length bs + suc fuel)
      suc_add = omega arith

  -- A string without escapes is read whole.
  pub as_str-quoted :
      (text : Bytes) (at : ℕ) (rest : Bytes)
      → IsPlain text
      → Sees bytes at (quoted text ++ rest)
      → as_str bytes at ≡ ok text
  unfolding as_str quoted
  as_str-quoted text at rest plain s = rw (byte_is-Sees at 34 _ s) (
      ap (λ n. loop (str_round bytes (at + 1)) n (at + 1)) fuel_eq
      ∙ str_loop text (at + 1) (at + 1) (at + 2 + length rest) rest plain inner
      ∙ ap ok contents)
    where
      inner : Sees bytes (at + 1) (text ++ 34 ∷ rest)
      inner = rw append_assoc at (Sees-next bytes at 34 _ s)

      fuel_eq : length bytes + 1 ≡ length text + suc (at + 2 + length rest)
      fuel_eq = omega (arith, Sees-length bytes (at + 1) _ inner, length-append text (34 ∷ rest))

      size : at + 1 + length text - (at + 1) ≡ length text
      size = omega arith

      contents : between bytes (at + 1) (at + 1 + length text) ≡ text
      contents = rw (inner.rest_eq, size) (take-append_self text (34 ∷ rest))

  prefix-number :
      (xs rest : Bytes)
      → AreNumberBytes xs
      → Delimits rest
      → prefix_length number_byte (xs ++ rest) ≡ length xs
  prefix-number [] [] h d = refl
  prefix-number [] (b ∷ bs) h d = rw d refl
  prefix-number (x ∷ xs) rest (h, hs) d = rw (h, prefix-number xs rest hs d) refl

  number_from : ℕ → ℕ → JsonResult ℕ
  number_from at digits_start =
      let i = digits_start + prefix_length number_byte (drop digits_start bytes) in
      if i == digits_start then err invalid else ok i

  number_from-Sees :
      (at ds : ℕ) (xs rest : Bytes)
      → AreNumberBytes xs
      → 0 < length xs
      → Delimits rest
      → Sees bytes ds (xs ++ rest)
      → number_from at ds ≡ ok (ds + length xs)
  unfolding number_from
  number_from-Sees at ds xs rest h pos d s = rw (s.rest_eq, prefix-number xs rest h d, moved) refl
    where
      moved : (ds + length xs == ds) ≡ false
      moved = ground arith

  pub skip_number-text :
      (text : Bytes) (at : ℕ) (rest : Bytes)
      → IsNumberText text
      → Delimits rest
      → Sees bytes at (text ++ rest)
      → skip_number bytes at ≡ ok (at + length text)
  unfolding skip_number number_from
  skip_number-text [] at rest h d s = absurd h
  skip_number-text (b ∷ bs) at rest (inl digit, h) d s =
      rw (byte_is_other at b 45 _ s (ground arith))
        (number_from-Sees at at (b ∷ bs) rest (ground arith, h) (omega arith) d s)
  skip_number-text (b ∷ bs) at rest (inr (minus, more), h) d s =
      rw (byte_is-Sees at 45 _ (subst (λ c. Sees bytes at (c ∷ (bs ++ rest))) minus s)) (
        number_from-Sees at (at + 1) bs rest h more d (Sees-next bytes at b _ s)
        ∙ ap ok (omega arith))

  -- The first byte of a value's text decides how it is skipped.
  skip_value-Sees :
      (at b : ℕ) (rest : Bytes)
      → Sees bytes at (b ∷ rest)
      → skip_value bytes at ≡ skip_from bytes at b
  unfolding skip_value
  skip_value-Sees at b rest s = at_byte-Sees bytes at b rest _ _ s

  skip_keyword-Sees :
      (at : ℕ) (rest : Bytes)
      → (Sees bytes at (codes "null" ++ rest) → skip_keyword bytes at ≡ ok (at + 4))
        × (Sees bytes at (codes "true" ++ rest) → skip_keyword bytes at ≡ ok (at + 4))
        × (Sees bytes at (codes "false" ++ rest) → skip_keyword bytes at ≡ ok (at + 5))
  unfolding skip_keyword starts_with
  skip_keyword-Sees at rest =
      (λ s. rw s.rest_eq refl, λ s. rw s.rest_eq refl, λ s. rw s.rest_eq refl)

  skip_number-first :
      (b at : ℕ) → (is_digit b ≡ true) ⊎ (b ≡ 45) → skip_from bytes at b ≡ skip_number bytes at
  unfolding skip_from
  skip_number-first b at h = rw (quote, brace, bracket, letter, number) refl
    where
      quote : (b == 34) ≡ false
      quote = ground arith

      brace : (b == 123) ≡ false
      brace = ground arith

      bracket : (b == 91) ≡ false
      bracket = ground arith

      letter : (b == 116 || b == 102 || b == 110) ≡ false
      letter = ground arith

      number : (b == 45 || is_digit b) ≡ true
      number = ground arith

  skip_value-number :
      (text : Bytes) (at : ℕ) (rest : Bytes)
      → IsNumberText text
      → Delimits rest
      → Sees bytes at (text ++ rest)
      → skip_value bytes at ≡ ok (at + length text)
  skip_value-number [] at rest h d s = absurd h
  skip_value-number (b ∷ bs) at rest h d s =
      skip_value-Sees at b _ s
      ∙ skip_number-first b at (first b h.0)
      ∙ skip_number-text (b ∷ bs) at rest h d s
    where
      first :
          (c : ℕ)
          → (is_digit c ≡ true) ⊎ ((c ≡ 45) × (0 < length bs))
          → (is_digit c ≡ true) ⊎ (c ≡ 45)
      first c (inl digit) = inl digit
      first c (inr (minus, more)) = inr minus

  skip_value-quoted :
      (text : Bytes) (at : ℕ) (rest : Bytes)
      → IsPlain text
      → Sees bytes at (quoted text ++ rest)
      → skip_value bytes at ≡ ok (at + length (quoted text))
  unfolding skip_from skip_string quoted
  skip_value-quoted text at rest plain s =
      skip_value-Sees at 34 _ s
      ∙ rw (as_str-quoted text at rest plain s)
          (ap ok (omega (arith, length-append text (34 ∷ []))))

module _ (number_text : Number → Bytes) (bytes : Bytes) where
  -- The end of a value is found behind its text.
  pub skip_value-print :
      (v : Value) (at : ℕ) (rest : Bytes)
      → IsWritten number_text v
      → Delimits rest
      → Sees bytes at (print number_text v ++ rest)
      → skip_value bytes at ≡ ok (at + length (print number_text v))
  unfolding print IsWritten skip_from
  skip_value-print Value.null at rest h d s =
      skip_value-Sees bytes at 110 _ s ∙ (skip_keyword-Sees bytes at rest).0 s
  skip_value-print (Value.boolean true) at rest h d s =
      skip_value-Sees bytes at 116 _ s ∙ (skip_keyword-Sees bytes at rest).1 s
  skip_value-print (Value.boolean false) at rest h d s =
      skip_value-Sees bytes at 102 _ s ∙ (skip_keyword-Sees bytes at rest).2 s
  skip_value-print (Value.number n) at rest h d s =
      skip_value-number bytes (number_text n) at rest h d s
  skip_value-print (Value.string text) at rest h d s = skip_value-quoted bytes text at rest h s
  skip_value-print (Value.array vs) at rest h d s =
      skip_value-Sees bytes at 91 _ s
      ∙ skip_container-body bytes 91 93 (print_items number_text vs) at rest refl refl refl
          (Passes-print_items number_text bytes 91 93 (inr (refl, refl)) vs h)
          (rw append_assoc at s)
      ∙ ap ok (omega (arith, length-append (print_items number_text vs) (93 ∷ [])))
  skip_value-print (Value.object fs) at rest h d s =
      skip_value-Sees bytes at 123 _ s
      ∙ skip_container-body bytes 123 125 (print_fields number_text fs) at rest refl refl refl
          (Passes-print_fields number_text bytes 123 125 (inl (refl, refl)) fs h)
          (rw append_assoc at s)
      ∙ ap ok (omega (arith, length-append (print_fields number_text fs) (125 ∷ [])))
