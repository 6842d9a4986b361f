-- ===== src/PolicyRuntime/Text/Nested.antt =====
-- A container passes over the values it holds, whichever its kind.
use sealstack.Prelude.{
  ℕ, ◌<◌, ◌≡◌, refl, sym, ◌∙◌, ◌⊎◌, inl, inr, true, false, [], ◌∷◌, ◌++◌, arith,
}
use sealstack.PolicyRuntime.Json.{number_byte}
use sealstack.Bytes.{Bytes, codes}
use sealstack.PolicyRuntime.Text.{
  quoted, print, print_items, print_more_items, print_fields, print_more_fields, IsPlain,
  AreNumberBytes, IsNumberText, IsWritten, AreWritten, FieldsWritten,
}
use sealstack.PolicyRuntime.Text.Containers.{
  Passes, Passes-append, Passes-nil, Neutral, Passes-Neutral, Passes-cons, Passes-quoted,
  Passes-nested,
}
use sealstack.Json.{Value, Items, Fields, Number}

-- The two kinds of container.
abbrev pub Brackets : ℕ → ℕ → Type 0
Brackets opening closing = ((opening ≡ 123) × (closing ≡ 125)) ⊎ ((opening ≡ 91) × (closing ≡ 93))

abbrev AreLetters : Bytes → Type 0
AreLetters [] = Unit
AreLetters (b ∷ bs) = (93 < b) × (b < 123) × AreLetters bs

module _ (number_text : Number → Bytes) (bytes : Bytes) (opening closing : ℕ)
    (brackets : Brackets opening closing) where
  Neutral-letter : (b : ℕ) → 93 < b → b < 123 → Neutral bytes opening closing b
  Neutral-letter b lo hi = ground arith

  Neutral-separator : (b : ℕ) → (b ≡ 44) ⊎ (b ≡ 58) → Neutral bytes opening closing b
  Neutral-separator b h = ground arith

  Neutral-number : (b : ℕ) → number_byte b ≡ true → Neutral bytes opening closing b
  Neutral-number b h = ground arith

  Passes-number : (text : Bytes) → AreNumberBytes text → Passes bytes opening closing text
  Passes-number [] h = Passes-nil bytes opening closing
  Passes-number (b ∷ bs) (h, hs) =
      Passes-cons bytes opening closing b bs (Neutral-number b h) (Passes-number bs hs)

  Passes-IsNumberText : (text : Bytes) → IsNumberText text → Passes bytes opening closing text
  Passes-IsNumberText [] h = absurd h
  Passes-IsNumberText (b ∷ bs) (first, h) =
      Passes-cons bytes opening closing b bs (ground (arith, first)) (Passes-number bs h)

  Passes-field :
      (k : Bytes) (v : Value) (fs : Fields)
      → IsPlain k
      → Passes bytes opening closing (print number_text v)
      → Passes bytes opening closing (print_more_fields number_text fs)
      → Passes bytes opening closing
          (quoted k ++ 58 ∷ (print number_text v ++ print_more_fields number_text fs))
  Passes-field k v fs plain pv ps =
      Passes-append bytes opening closing (quoted k) _ (Passes-quoted bytes opening closing k plain)
        (Passes-cons bytes opening closing 58 _ (Neutral-separator 58 (inr refl))
          (Passes-append bytes opening closing (print number_text v) _ pv ps))

  Passes-apart :
      (a b : ℕ) (body : Bytes)
      → Neutral bytes opening closing a
      → Neutral bytes opening closing b
      → Passes bytes opening closing body
      → Passes bytes opening closing (a ∷ (body ++ b ∷ []))
  Passes-apart a b body n m p = Passes-cons bytes opening closing a _ n (
      Passes-append bytes opening closing body (b ∷ []) p
        (Passes-Neutral bytes opening closing b m))

  Passes-alike :
      (a b : ℕ) (body : Bytes)
      → a ≡ opening
      → b ≡ closing
      → Passes bytes opening closing body
      → Passes bytes opening closing (a ∷ (body ++ b ∷ []))
  Passes-alike a b body e f p =
      rw (e, f)
        (Passes-nested bytes opening closing body (ground arith) (ground arith) (ground arith) p)

  -- A container of either kind.
  Passes-container :
      (a b : ℕ) (body : Bytes)
      → Brackets a b
      → Passes bytes opening closing body
      → Passes bytes opening closing (a ∷ (body ++ b ∷ []))
  Passes-container a b body k p = go k brackets
    where
      go :
          Brackets a b
          → Brackets opening closing
          → Passes bytes opening closing (a ∷ (body ++ b ∷ []))
      go (inl (e, f)) (inl (g, h)) = Passes-alike a b body (e ∙ sym g) (f ∙ sym h) p
      go (inr (e, f)) (inr (g, h)) = Passes-alike a b body (e ∙ sym g) (f ∙ sym h) p
      go (inl (e, f)) (inr (g, h)) = Passes-apart a b body (ground arith) (ground arith) p
      go (inr (e, f)) (inl (g, h)) = Passes-apart a b body (ground arith) (ground arith) p

  Passes-letters : (text : Bytes) → AreLetters text → Passes bytes opening closing text
  Passes-letters [] h = Passes-nil bytes opening closing
  Passes-letters (b ∷ bs) (lo, hi, h) =
      Passes-cons bytes opening closing b bs (Neutral-letter b lo hi) (Passes-letters bs h)

  mutual
    unfolding print IsWritten

    pub Passes-print :
        (v : Value) → IsWritten number_text v → Passes bytes opening closing (print number_text v)
    Passes-print Value.null h = Passes-letters (codes "null") (ground arith)
    Passes-print (Value.boolean true) h = Passes-letters (codes "true") (ground arith)
    Passes-print (Value.boolean false) h = Passes-letters (codes "false") (ground arith)
    Passes-print (Value.number n) h = Passes-IsNumberText (number_text n) h
    Passes-print (Value.string s) h = Passes-quoted bytes opening closing s h
    Passes-print (Value.array vs) h =
        Passes-container 91 93 (print_items number_text vs) (inr (refl, refl))
          (Passes-print_items vs h)
    Passes-print (Value.object fs) h =
        Passes-container 123 125 (print_fields number_text fs) (inl (refl, refl))
          (Passes-print_fields fs h)

    pub Passes-print_items :
        (vs : Items)
        → AreWritten number_text vs
        → Passes bytes opening closing (print_items number_text vs)
    Passes-print_items Items.nil h = Passes-nil bytes opening closing
    Passes-print_items (Items.cons v vs) (h, hs) =
        Passes-append bytes opening closing (print number_text v) _ (Passes-print v h)
          (Passes-print_more_items vs hs)

    Passes-print_more_items :
        (vs : Items)
        → AreWritten number_text vs
        → Passes bytes opening closing (print_more_items number_text vs)
    Passes-print_more_items Items.nil h = Passes-nil bytes opening closing
    Passes-print_more_items (Items.cons v vs) (h, hs) =
        Passes-cons bytes opening closing 44 _ (Neutral-separator 44 (inl refl)) (
          Passes-append bytes opening closing (print number_text v) _ (Passes-print v h)
            (Passes-print_more_items vs hs))

    pub Passes-print_fields :
        (fs : Fields)
        → FieldsWritten number_text fs
        → Passes bytes opening closing (print_fields number_text fs)
    Passes-print_fields Fields.end h = Passes-nil bytes opening closing
    Passes-print_fields (Fields.field k v fs) (plain, h, hs) =
        Passes-field k v fs plain (Passes-print v h) (Passes-print_more_fields fs hs)

    Passes-print_more_fields :
        (fs : Fields)
        → FieldsWritten number_text fs
        → Passes bytes opening closing (print_more_fields number_text fs)
    Passes-print_more_fields Fields.end h = Passes-nil bytes opening closing
    Passes-print_more_fields (Fields.field k v fs) (plain, h, hs) =
        Passes-cons bytes opening closing 44 _ (Neutral-separator 44 (inl refl))
          (Passes-field k v fs plain (Passes-print v h) (Passes-print_more_fields fs hs))
