-- ===== src/PolicyRuntime/Text/Members.antt =====
-- One member of an object: `read_key` and `after_item` of crates/sealstack-policy-runtime/src/json.rs on the text of a value.
use sealstack.Prelude.{
  ℕ, ◌+◌, ◌≡◌, refl, ap, inl, inr, true, false, some, [], ◌∷◌, ◌++◌, arith, ◌==◌, length,
  length-append, Sees, Sees-append, Sees-next, ok,
}
use sealstack.PolicyRuntime.Json.{
  prefix_length, is_ws, skip_ws, after_item, read_key, key_round, stop, again,
}
use sealstack.Bytes.{Bytes, bytes_eq}
use sealstack.PolicyRuntime.Text.{
  quoted, print, print_more_fields, IsPlain, IsNumberText, IsWritten,
}
use sealstack.PolicyRuntime.Text.Scan.{Delimits, byte_is-Sees, byte_is_other, as_str-quoted}
use mathlib.Core.Path.{subst}
use sealstack.Json.{Value, Fields, Number}

-- A text that does not begin with white space.
abbrev pub Solid : Bytes → Type 0
Solid [] = Unit
Solid (b ∷ bs) = is_ws b ≡ false

module _ (number_text : Number → Bytes) where
  abbrev pub field_text : Bytes → Value → Fields → Bytes
  field_text k v fs = quoted k ++ 58 ∷ (print number_text v ++ print_more_fields number_text fs)

  number-Solid : (text rest : Bytes) → IsNumberText text → Solid (text ++ rest)
  number-Solid [] rest h = absurd h
  number-Solid (b ∷ bs) rest (inl digit, h) = ground arith
  number-Solid (b ∷ bs) rest (inr (minus, more), h) = ground arith

  pub print-Solid :
      (v : Value) (rest : Bytes) → IsWritten number_text v → Solid (print number_text v ++ rest)
  unfolding print IsWritten quoted
  print-Solid Value.null rest h = refl
  print-Solid (Value.boolean true) rest h = refl
  print-Solid (Value.boolean false) rest h = refl
  print-Solid (Value.number n) rest h = number-Solid (number_text n) rest h
  print-Solid (Value.string s) rest h = refl
  print-Solid (Value.array vs) rest h = refl
  print-Solid (Value.object fs) rest h = refl

  pub quoted-Solid : (k a b : Bytes) → Solid ((quoted k ++ a) ++ b)
  unfolding quoted
  quoted-Solid k a b = refl

  pub more_fields-Delimits :
      (fs : Fields) (rest : Bytes) → Delimits (print_more_fields number_text fs ++ 125 ∷ rest)
  unfolding print_more_fields
  more_fields-Delimits Fields.end rest = refl
  more_fields-Delimits (Fields.field k v fs) rest = refl

module _ (bytes : Bytes) where
  pub skip_ws-Solid : (i : ℕ) (text : Bytes) → Sees bytes i text → Solid text → skip_ws bytes i ≡ i
  unfolding skip_ws
  skip_ws-Solid i text s h = rw s.rest_eq (go text h)
    where
      go : (t : Bytes) → Solid t → i + prefix_length is_ws t ≡ i
      go [] h = omega arith
      go (b ∷ bs) h = rw h (omega arith)

  -- A key, its colon, and a value behind it.
  pub read_key-quoted :
      (k : Bytes) (i : ℕ) (rest : Bytes)
      → IsPlain k
      → Solid rest
      → Sees bytes i (quoted k ++ 58 ∷ rest)
      → read_key bytes i ≡ ok (k, i + (length (quoted k) + 1))
  unfolding read_key quoted
  read_key-quoted k i rest plain solid s =
      rw
        (
          byte_is-Sees bytes i 34 _ s,
          as_str-quoted bytes k i (58 ∷ rest) plain s,
          skip_ws-Solid (i + (2 + length k)) (58 ∷ rest) colon refl,
          byte_is-Sees bytes (i + (2 + length k)) 58 rest colon,
          skip_ws-Solid (i + (2 + length k) + 1) rest (Sees-next bytes _ 58 rest colon) solid,
        )
        (ap (λ n. ok (k, n)) (omega (arith, length-append k (34 ∷ []))))
    where
      colon : Sees bytes (i + (2 + length k)) (58 ∷ rest)
      colon =
          subst (λ n. Sees bytes n (58 ∷ rest)) (omega (arith, length-append k (34 ∷ [])))
            (Sees-append bytes i (quoted k) (58 ∷ rest) s)

  pub key_round-found :
      (key k : Bytes) (i : ℕ) (rest : Bytes)
      → IsPlain k
      → Solid rest
      → bytes_eq k key ≡ true
      → Sees bytes i (quoted k ++ 58 ∷ rest)
      → key_round bytes key i ≡ stop (ok (some (i + (length (quoted k) + 1))))
  unfolding key_round
  key_round-found key k i rest plain solid same s =
      rw (read_key-quoted k i rest plain solid s, same) refl

  pub after_item-comma :
      {S A : Type 0} (closing i : ℕ) (next : ℕ → S) (last : A) (rest : Bytes)
      → Solid rest
      → Sees bytes i (44 ∷ rest)
      → after_item bytes closing i next last ≡ again (next (i + 1))
  unfolding after_item
  after_item-comma closing i next last rest solid s =
      rw
        (
          skip_ws-Solid i (44 ∷ rest) s refl,
          byte_is-Sees bytes i 44 rest s,
          skip_ws-Solid (i + 1) rest (Sees-next bytes i 44 rest s) solid,
        )
        refl

  pub after_item-closing :
      {S A : Type 0} (closing i : ℕ) (next : ℕ → S) (last : A) (rest : Bytes)
      → is_ws closing ≡ false
      → (closing == 44) ≡ false
      → Sees bytes i (closing ∷ rest)
      → after_item bytes closing i next last ≡ stop (ok last)
  unfolding after_item
  after_item-closing closing i next last rest solid other s =
      rw
        (
          skip_ws-Solid i (closing ∷ rest) s solid,
          byte_is_other bytes i closing 44 rest s other,
          byte_is-Sees bytes i closing rest s,
        )
        refl
