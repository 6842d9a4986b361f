-- ===== src/PolicyRuntime/Json/Positions.antt =====
-- How the positions of the readers of crates/sealstack-policy-runtime/src/json.rs move.
use sealstack.Prelude.{
  ℕ, ◌+◌, ◌-◌, ◌≤◌, ◌<◌, ◌≡◌, refl, Bool, true, false, ◌||◌, not, Option, none, some, [], ◌∷◌,
  arith, ◌==◌, if◌then◌else◌, length, get_elem?, drop, length-drop, length-take_le, lt_of_get_elem?,
  ok, err,
}
use sealstack.Numbers.{is_digit}
use sealstack.PolicyRuntime.Json.{
  invalid, JsonResult, loop, at_byte, byte_is, prefix_length, skip_ws, starts_with, between,
  str_byte, str_round, as_str, skip_number, Container, container_byte, container_round,
  skip_container, skip_keyword, skip_string, skip_from, skip_value, read_key, key_round,
  element_round, Bool, true, number_byte,
}
use sealstack.PolicyRuntime.Json.Loops.{
  Returning, Keeping, Returning-le, Returning->>=, Returning-guard, Returning-if, Forward,
  loop-Returning, Forward-settle, Forward-if, Forward-after_item,
}
use sealstack.Bytes.{Bytes, codes, bytes_eq}

prefix_length-le : (p : ℕ → Bool) (bs : Bytes) → prefix_length p bs ≤ length bs
prefix_length-le p [] = omega arith
prefix_length-le p (b ∷ bs) = ground (arith, prefix_length-le p bs)

length-between :
    (bytes : Bytes) (start i : ℕ) → i ≤ length bytes → length (between bytes start i) ≤ i - start
length-between bytes start i h =
    omega (arith, length-take_le (i - start) (drop start bytes), length-drop start bytes)

module _ (bytes : Bytes) where
  pub at_byte-cases :
      {R : Type 0} (P : R → Type 0) (i : ℕ) (missing : R) (found : ℕ → R)
      → P missing
      → ((b : ℕ) → i < length bytes → P (found b))
      → P (at_byte bytes i missing found)
  at_byte-cases P i missing found m f = go (get_elem? bytes i) refl
    where
      go : (o : Option ℕ) → get_elem? bytes i ≡ o → P (elim o [ none ↦ missing | some b ↦ found b ])
      go none e = m
      go (some b) e = f b (lt_of_get_elem? bytes i e)

  str_round-Forward : (start i : ℕ) → Forward (λ n. n) (length bytes) i (str_round bytes start i)
  unfolding str_round
  str_round-Forward start i =
      at_byte-cases (Forward (λ n. n) (length bytes) i) i _ _ tt λ b lt. ground arith

  container_round-Forward :
      (opening closing : ℕ) (s : Container)
      → Forward (λ c. c.i) (length bytes) s (container_round bytes opening closing s)
  unfolding container_round container_byte
  container_round-Forward opening closing s =
      at_byte-cases (Forward (λ c. c.i) (length bytes) s) s.i _ _ tt λ b lt. ground arith

  str_byte-Keeping :
      (start i b : ℕ)
      → start ≤ i
      → i < length bytes
      → Keeping
          (λ j. start ≤ j)
          (λ s. start + length s + 1 ≤ length bytes)
          (str_byte bytes start i b)
  str_byte-Keeping start i b le lt = ground (arith, length-between bytes start i)

  pub as_str-Returning :
      (at : ℕ) → Returning (λ s. at + 2 + length s ≤ length bytes) (as_str bytes at)
  unfolding as_str str_round
  as_str-Returning at =
      Returning-guard (λ s. at + 2 + length s ≤ length bytes) (byte_is bytes at 34) _
        (Returning-le (λ s. at + 2 + length s ≤ length bytes)
          (λ s. at + 1 + length s + 1 ≤ length bytes)
          (loop (str_round bytes (at + 1)) (length bytes + 1) (at + 1)) scanned
          (λ s h. omega arith))
    where
      scanned :
          Returning
            (λ s. (at + 1) + length s + 1 ≤ length bytes)
            (loop (str_round bytes (at + 1)) (length bytes + 1) (at + 1))
      scanned =
          loop-Returning (str_round bytes (at + 1)) (λ j. at + 1 ≤ j)
            (λ s. (at + 1) + length s + 1 ≤ length bytes) (λ n. n) (length bytes)
            (str_round-Forward (at + 1))
            (λ i le.
              at_byte-cases (Keeping (λ j. at + 1 ≤ j) (λ s. at + 1 + length s + 1 ≤ length bytes))
                i _ _ tt (λ b lt. str_byte-Keeping (at + 1) i b le lt))
            (length bytes + 1) (at + 1) (omega arith) (omega arith) (omega arith)

  -- A position behind `at`, in the input or at its end.
  abbrev pub Behind : ℕ → ℕ → Type 0
  Behind at e = (at < e) × (e ≤ length bytes)

  container_byte-Keeping :
      (opening closing b at : ℕ) (s : Container)
      → at ≤ s.i
      → s.i < length bytes
      → Keeping (λ s'. at ≤ s'.i) (Behind at) (container_byte opening closing s b)
  unfolding container_byte
  container_byte-Keeping opening closing b at s le lt = ground arith

  skip_container-Returning :
      (at opening closing : ℕ) → Returning (Behind at) (skip_container bytes at opening closing)
  unfolding skip_container container_round
  skip_container-Returning at opening closing =
      loop-Returning (container_round bytes opening closing) (λ s. at ≤ s.i) (Behind at) (λ c. c.i)
        (length bytes) (container_round-Forward opening closing)
        (λ s le.
          at_byte-cases (Keeping (λ s'. at ≤ s'.i) (Behind at)) s.i _ _ tt
            (λ b lt. container_byte-Keeping opening closing b at s le lt))
        (length bytes + 1) _ (omega arith) (omega arith) (omega arith)

  starts_with-length : (bs ks : Bytes) → starts_with bs ks ≡ true → length ks ≤ length bs
  unfolding starts_with
  starts_with-length bs [] h = omega arith
  starts_with-length [] (k ∷ ks) h = cc
  starts_with-length (b ∷ bs) (k ∷ ks) h = ground (arith, starts_with-length bs ks)

  starts_with-Behind :
      (at : ℕ) (text : Bytes) (other : JsonResult ℕ)
      → 0 < length text
      → Returning (Behind at) other
      → Returning
          (Behind at)
          (if starts_with (drop at bytes) text then ok (at + length text) else other)
  starts_with-Behind at text other pos h = go (starts_with (drop at bytes) text) refl
    where
      go :
          (b : Bool)
          → starts_with (drop at bytes) text ≡ b
          → Returning (Behind at) (if b then ok (at + length text) else other)
      go true e = omega (arith, starts_with-length (drop at bytes) text e, length-drop at bytes)
      go false e = h

  skip_keyword-Returning : (at : ℕ) → Returning (Behind at) (skip_keyword bytes at)
  unfolding skip_keyword
  skip_keyword-Returning at = starts_with-Behind at (codes "true") _ (omega arith) (
      starts_with-Behind at (codes "false") _ (omega arith)
        (starts_with-Behind at (codes "null") _ (omega arith) tt))

  pub skip_number-Returning : (at : ℕ) → Returning (Behind at) (skip_number bytes at)
  unfolding skip_number
  skip_number-Returning at = go (byte_is bytes at 45)
    where
      go :
          (b : Bool)
          → Returning (Behind at) (
              let ds = (if b then at + 1 else at) in
              let i = ds + prefix_length number_byte (drop ds bytes) in
              if i == ds then err invalid else ok i)
      go b = ground (
        arith,
        prefix_length-le number_byte (drop (if b then at + 1 else at) bytes),
        length-drop (if b then at + 1 else at) bytes,
      )

  skip_string-Returning : (at : ℕ) → Returning (Behind at) (skip_string bytes at)
  unfolding skip_string
  skip_string-Returning at =
      Returning->>= (Behind at) (λ s. at + 2 + length s ≤ length bytes) (as_str bytes at)
        (λ s. ok (at + 2 + length s)) (as_str-Returning at) (λ s h. (omega arith, h))

  skip_from-Returning : (at b : ℕ) → Returning (Behind at) (skip_from bytes at b)
  unfolding skip_from
  skip_from-Returning at b = Returning-if (Behind at) (b == 34) _ _ (skip_string-Returning at) (
      Returning-if (Behind at) (b == 123) _ _ (skip_container-Returning at 123 125) (
        Returning-if (Behind at) (b == 91) _ _ (skip_container-Returning at 91 93) (
          Returning-if (Behind at) (b == 116 || b == 102 || b == 110) _ _
            (skip_keyword-Returning at)
            (Returning-if (Behind at) (b == 45 || is_digit b) _ _ (skip_number-Returning at) tt))))

  -- A value ends behind its first byte, in the input or at its end.
  pub skip_value-Returning : (at : ℕ) → Returning (Behind at) (skip_value bytes at)
  unfolding skip_value
  skip_value-Returning at =
      at_byte-cases (Returning (Behind at)) at _ _ tt λ b lt. skip_from-Returning at b

  -- A key that is read begins in the input, and its value behind it.
  read_key-Returning : (i : ℕ) → Returning (λ x. (i < x.1) × (i < length bytes)) (read_key bytes i)
  unfolding read_key skip_ws
  read_key-Returning i =
      Returning-guard (λ x. (i < x.1) × (i < length bytes)) (byte_is bytes i 34) _
        (Returning->>= (λ x. (i < x.1) × (i < length bytes)) (λ s. i + 2 + length s ≤ length bytes)
          (as_str bytes i) _ (as_str-Returning i)
          λ k h.
            Returning-guard (λ x. (i < x.1) × (i < length bytes))
              (byte_is bytes (skip_ws bytes (i + (2 + length k))) 58) _ (omega arith, omega arith))

  pub key_round-Forward :
      (key : Bytes) (i : ℕ) → Forward (λ n. n) (length bytes) i (key_round bytes key i)
  unfolding key_round
  key_round-Forward key i =
      Forward-settle (λ n. n) (length bytes) i (λ x. (i < x.1) × (i < length bytes))
        (read_key bytes i) _ (read_key-Returning i)
        λ x h.
          Forward-if (λ n. n) (length bytes) i (bytes_eq x.0 key) _ _ tt
            (Forward-settle (λ n. n) (length bytes) i (Behind x.1) (skip_value bytes x.1) _
              (skip_value-Returning x.1)
              λ end b.
                Forward-after_item (λ n. n) (length bytes) i bytes 125 end (λ n. n) none h.1
                  (λ n le. omega (arith, h, b)))

  pub element_round-Forward :
      {A : Type 0} (f : ℕ → ℕ → A → Bool × A) (s : ℕ × A)
      → Forward (λ p. p.0) (length bytes) s (element_round bytes f s)
  unfolding element_round
  element_round-Forward f s =
      Forward-settle (λ p. p.0) (length bytes) s (Behind s.0) (skip_value bytes s.0) _
        (skip_value-Returning s.0)
        λ end b.
          Forward-if (λ p. p.0) (length bytes) s (not (f s.0 end s.1).0) _ _ tt
            (Forward-after_item (λ p. p.0) (length bytes) s bytes 93 end
              (λ n. (n, (f s.0 end s.1).1)) (f s.0 end s.1).1 (omega (arith, b))
              (λ n le. omega (arith, b)))
