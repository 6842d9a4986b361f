-- ===== src/PolicyRuntime/Text/Find.antt =====
-- `find_path` of crates/sealstack-policy-runtime/src/json.rs on the text of a value.
use sealstack.Prelude.{
  ℕ, ◌+◌, ◌≡◌, refl, inl, inr, Bool, true, false, Option, none, some, [], ◌∷◌, ◌++◌, arith, ◌==◌,
  if◌then◌else◌, length, Sees, ok, err, ◌>>=◌,
}
use sealstack.PolicyRuntime.Json.{
  JsonResult, byte_is, is_ws, find_key_in_object, descend, value_span, find_path,
}
use sealstack.Bytes.{Bytes, bytes_eq}
use sealstack.PolicyRuntime.Text.{quoted, print, IsNumberText, IsWritten, FieldsWritten}
use sealstack.PolicyRuntime.Text.Scan.{Delimits, byte_is-Sees, byte_is_other, skip_value-print}
use sealstack.PolicyRuntime.Text.Members.{skip_ws-Solid}
use sealstack.PolicyRuntime.Text.Keys.{FindsKey, find_key-print}
use sealstack.Json.{Value, Fields, Number, get, get_field}

module _ (number_text : Number → Bytes) (bytes : Bytes) (key : Bytes) where
  -- What `find_path` returns for a value that is there, or is not.
  abbrev pub FindsValue : Option Value → JsonResult (Option (ℕ × ℕ)) → Type 0
  FindsValue none r = r ≡ ok none
  FindsValue (some v) r =
      (at : ℕ) × (rest : Bytes) × (r ≡ ok (some (at, at + length (print number_text v))))
      × Delimits rest
      × Sees bytes at (print number_text v ++ rest)

  abbrev pub OptionWritten : Option Value → Type 0
  OptionWritten none = Unit
  OptionWritten (some v) = IsWritten number_text v

  OptionWritten-if :
      (b : Bool) (o o' : Option Value)
      → OptionWritten o
      → OptionWritten o'
      → OptionWritten (if b then o else o')
  OptionWritten-if true o o' h h' = h
  OptionWritten-if false o o' h h' = h'

  pub get_field-OptionWritten :
      (fs : Fields) → FieldsWritten number_text fs → OptionWritten (get_field fs key)
  unfolding get_field FieldsWritten
  get_field-OptionWritten Fields.end h = tt
  get_field-OptionWritten (Fields.field k v fs) (plain, h, hs) =
      OptionWritten-if (bytes_eq k key) (some v) (get_field fs key) h
        (get_field-OptionWritten fs hs)

  FindsValue-value_span :
      (o : Option Value) (r : JsonResult (Option ℕ))
      → OptionWritten o
      → FindsKey number_text bytes key o r
      → FindsValue o (r >>= value_span bytes)
  unfolding FindsKey value_span
  FindsValue-value_span none r h e = rw e refl
  FindsValue-value_span (some v) r h (at, rest, e, d, s) =
      (at, rest, rw (e, skip_value-print number_text bytes v at rest h d s) refl, d, s)

  descend_one :
      (at : ℕ)
      → byte_is bytes at 123 ≡ true
      → descend bytes at (key ∷ []) ≡ find_key_in_object bytes at key
  unfolding descend
  descend_one at h = rw h (go (find_key_in_object bytes at key))
    where
      go :
          (r : JsonResult (Option ℕ))
          → (r >>= λ found. elim found [ none ↦ ok none | some v ↦ ok (some v) ]) ≡ r
      go (ok none) = refl
      go (ok (some v)) = refl
      go (err e) = refl

  descend-none : (at : ℕ) → byte_is bytes at 123 ≡ false → descend bytes at (key ∷ []) ≡ ok none
  unfolding descend
  descend-none at h = rw h refl

  find_path-object :
      (fs : Fields) (rest : Bytes)
      → FieldsWritten number_text fs
      → Sees bytes 0 (print number_text (Value.object fs) ++ rest)
      → FindsValue (get_field fs key) (find_path bytes (key ∷ []))
  unfolding find_path print
  find_path-object fs rest h s =
      rw
        (
          skip_ws-Solid bytes 0 (print number_text (Value.object fs) ++ rest) s refl,
          descend_one 0 (byte_is-Sees bytes 0 123 _ s),
        )
        (FindsValue-value_span (get_field fs key) (find_key_in_object bytes 0 key)
          (get_field-OptionWritten fs h) (find_key-print number_text bytes key fs 0 rest h s))

  find_path-none :
      (b : ℕ) (rest : Bytes)
      → is_ws b ≡ false
      → (b == 123) ≡ false
      → Sees bytes 0 (b ∷ rest)
      → find_path bytes (key ∷ []) ≡ ok none
  unfolding find_path value_span
  find_path-none b rest solid other s =
      rw
        (
          skip_ws-Solid bytes 0 (b ∷ rest) s solid,
          descend-none 0 (byte_is_other bytes 0 b 123 rest s other),
        )
        refl

  find_path-number :
      (text rest : Bytes)
      → IsNumberText text
      → Sees bytes 0 (text ++ rest)
      → find_path bytes (key ∷ []) ≡ ok none
  find_path-number [] rest h s = absurd h
  find_path-number (b ∷ bs) rest (inl digit, h) s =
      find_path-none b _ (ground arith) (ground arith) s
  find_path-number (b ∷ bs) rest (inr (minus, more), h) s =
      find_path-none b _ (ground arith) (ground arith) s

  -- In the text of a value, whatever follows it, `find_path` with one key finds the text of the value
  -- that the key has, and nothing where the value is no object or has no such key: for values whose
  -- strings need no escapes.
  pub find_path-print :
      (v : Value) (rest : Bytes)
      → IsWritten number_text v
      → Sees bytes 0 (print number_text v ++ rest)
      → FindsValue (get v key) (find_path bytes (key ∷ []))
  unfolding print IsWritten quoted get
  find_path-print Value.null rest h s = find_path-none 110 _ refl refl s
  find_path-print (Value.boolean true) rest h s = find_path-none 116 _ refl refl s
  find_path-print (Value.boolean false) rest h s = find_path-none 102 _ refl refl s
  find_path-print (Value.number n) rest h s = find_path-number (number_text n) rest h s
  find_path-print (Value.string text) rest h s = find_path-none 34 _ refl refl s
  find_path-print (Value.array vs) rest h s = find_path-none 91 _ refl refl s
  find_path-print (Value.object fs) rest h s = find_path-object fs rest h s
