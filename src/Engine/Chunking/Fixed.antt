-- ===== src/Engine/Chunking/Fixed.antt =====
-- `fixed_char_chunks` of crates/sealstack-engine/src/ingest.rs.
use sealstack.Prelude.{
  arith, ℕ, zero, suc, ◌≤◌, ◌<◌, ◌≡◌, refl, ap, sym, ◌∙◌, true, List, [], ◌∷◌, ◌++◌, ◌↔◌,
  Bool-cases, inl, inr, length, take, drop, length-append, length-drop,
}
use sealstack.Bytes.{Bytes, is_utf8}
use sealstack.Engine.Chunking.{byte_chunks, keep_utf8, fixed_char_chunks}

-- The texts of chunks, one after the other.
unfoldable pub concat : List Bytes → Bytes
concat [] = []
concat (c ∷ cs) = c ++ concat cs

-- Every slice is UTF-8.
abbrev pub AllUtf8 : List Bytes → Type 0
AllUtf8 [] = Unit
AllUtf8 (c ∷ cs) = (is_utf8 c ≡ true) × AllUtf8 cs

abbrev NonEmpty : List Bytes → Type 0
NonEmpty [] = Unit
NonEmpty (c ∷ cs) = (0 < length c) × NonEmpty cs

take-append-drop : (n : ℕ) (xs : Bytes) → take n xs ++ drop n xs ≡ xs
take-append-drop zero xs = refl
take-append-drop (suc n) [] = refl
take-append-drop (suc n) (x ∷ xs) = ap (◌∷◌ x) (take-append-drop n xs)

concat-byte_chunks :
    (fuel size : ℕ) (body : Bytes)
    → 0 < size
    → length body ≤ fuel
    → (concat (byte_chunks fuel size body) ≡ body) × NonEmpty (byte_chunks fuel size body)
unfolding concat byte_chunks
concat-byte_chunks zero size [] pos enough = (refl, tt)
concat-byte_chunks zero size (b ∷ bs) pos enough = absurd (omega arith)
concat-byte_chunks (suc fuel) size [] pos enough = (refl, tt)
concat-byte_chunks (suc fuel) zero (b ∷ bs) pos enough = absurd (omega arith)
concat-byte_chunks (suc fuel) (suc size) (b ∷ bs) pos enough =
    let (whole, full) =
      concat-byte_chunks fuel (suc size) (drop size bs) pos (omega (arith, length-drop size bs)) in
    (
      ap (◌++◌ (take (suc size) (b ∷ bs))) whole ∙ take-append-drop (suc size) (b ∷ bs),
      (omega arith, full),
    )

-- What is dropped is missing from the text.
length-keep_utf8 : (cs : List Bytes) → length (concat (keep_utf8 cs)) ≤ length (concat cs)
unfolding concat keep_utf8
length-keep_utf8 [] = omega arith
length-keep_utf8 (c ∷ cs) = elim (Bool-cases (is_utf8 c)) [
  | inl valid ↦ rw valid (
      omega (
        arith,
        length-keep_utf8 cs,
        length-append c (concat cs),
        length-append c (concat (keep_utf8 cs)),
      ))
  | inr broken ↦ rw broken (omega (arith, length-keep_utf8 cs, length-append c (concat cs)))
]

keep_utf8-AllUtf8 : (cs : List Bytes) → AllUtf8 cs → keep_utf8 cs ≡ cs
unfolding keep_utf8
keep_utf8-AllUtf8 [] h = refl
keep_utf8-AllUtf8 (c ∷ cs) (valid, h) = rw valid (ap (◌∷◌ c) (keep_utf8-AllUtf8 cs h))

AllUtf8-keep_utf8 :
    (cs : List Bytes)
    → NonEmpty cs
    → length (concat (keep_utf8 cs)) ≡ length (concat cs)
    → AllUtf8 cs
unfolding concat keep_utf8
AllUtf8-keep_utf8 [] full same = tt
AllUtf8-keep_utf8 (c ∷ cs) (pos, full) same = elim (Bool-cases (is_utf8 c)) [
  | inl valid ↦
      let same' : length (c ++ concat (keep_utf8 cs)) ≡ length (c ++ concat cs) =
        rw valid at same in
      (
        valid,
        AllUtf8-keep_utf8 cs full (
            omega
              (arith, same', length-append c (concat cs), length-append c (concat (keep_utf8 cs)))),
      )
  | inr broken ↦
      let same' : length (concat (keep_utf8 cs)) ≡ length (c ++ concat cs) = rw broken at same in
      absurd (omega (arith, same', length-keep_utf8 cs, length-append c (concat cs)))
]

fixed_char_chunks-suc :
    (body : Bytes) (size : ℕ)
    → 0 < size
    → fixed_char_chunks body size ≡ keep_utf8 (byte_chunks (length body) size body)
unfolding fixed_char_chunks
fixed_char_chunks-suc body size pos = ground arith

-- The chunks hold the whole text where every slice of `size` bytes is UTF-8, and only then: a slice
-- that cuts a character in two is dropped, with all of its text.
pub concat-fixed_char_chunks :
    (body : Bytes) (size : ℕ)
    → 0 < size
    → (concat (fixed_char_chunks body size) ≡ body) ↔ AllUtf8 (byte_chunks (length body) size body)
concat-fixed_char_chunks body size pos =
    let (whole, full) = concat-byte_chunks (length body) size body pos (omega arith) in
    let cs = byte_chunks (length body) size body in
    rw (fixed_char_chunks-suc body size pos) (
      (λ h. AllUtf8-keep_utf8 cs full (ap length (h ∙ sym whole))),
      (λ h. ap concat (keep_utf8-AllUtf8 cs h) ∙ whole),
    )
