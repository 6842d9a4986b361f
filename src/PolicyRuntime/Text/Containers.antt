-- ===== src/PolicyRuntime/Text/Containers.antt =====
-- `skip_container` of crates/sealstack-policy-runtime/src/json.rs on the text of a value.
use sealstack.Prelude.{
  ℕ, suc, ◌+◌, ◌-◌, ◌<◌, ◌≡◌, refl, ap, ◌∙◌, Bool, true, false, none, some, [], ◌∷◌, ◌++◌,
  append_assoc, arith, ◌==◌, ==_refl, length, length-append, Sees, Sees-get_elem?, Sees-length,
  Sees-append, Sees-next, ok, err,
}
use sealstack.PolicyRuntime.Json.{
  invalid, JsonResult, resume, loop, zero_depth, container_byte, container_round, skip_container,
  stop,
}
use sealstack.Bytes.{Bytes}
use sealstack.PolicyRuntime.Text.{quoted, IsPlain}

module _ (bytes : Bytes) (opening closing : ℕ) where
  abbrev at_state : ℕ → ℕ → ℕ → Bool → JsonResult ℕ
  at_state fuel i depth in_str =
      loop (container_round bytes opening closing) fuel
        (record { i = i; depth = depth; in_str = in_str })

  -- Inside a container the loop reads over `text`, and is then as deep as before.
  pub Passes : Bytes → Type 0
  Passes text =
      (i depth fuel : ℕ) (rest : Bytes)
      → zero_depth < depth
      → Sees bytes i (text ++ rest)
      → at_state (length text + fuel) i depth false ≡ at_state fuel (i + length text) depth false

  pub Passes-append : (a b : Bytes) → Passes a → Passes b → Passes (a ++ b)
  unfolding Passes
  Passes-append a b pa pb i depth fuel rest deep s =
      ap (λ n. at_state n i depth false) (omega (arith, length-append a b))
      ∙ pa i depth (length b + fuel) (b ++ rest) deep seen
      ∙ pb (i + length a) depth fuel rest deep (Sees-append bytes i a _ seen)
      ∙ ap (λ n. at_state fuel n depth false) (omega (arith, length-append a b))
    where
      seen : Sees bytes i (a ++ (b ++ rest))
      seen = rw append_assoc at s

  pub Passes-nil : Passes []
  unfolding Passes
  Passes-nil i depth fuel rest deep s =
      ap (λ n. at_state n i depth false) (omega arith)
      ∙ ap (λ n. at_state fuel n depth false) (omega arith)

  -- One round, on the byte before the cursor.
  step :
      (fuel i depth b : ℕ) (in_str : Bool) (rest : Bytes)
      → Sees bytes i (b ∷ rest)
      → at_state (1 + fuel) i depth in_str
        ≡ resume
            (loop (container_round bytes opening closing) fuel)
            (container_byte opening closing (record { i = i; depth = depth; in_str = in_str }) b)
  unfolding loop container_round
  step fuel i depth b in_str rest s =
      ap (λ n. at_state n i depth in_str) one_add
      ∙ ap
          (λ o. resume (loop (container_round bytes opening closing) fuel) (elim o [
            | none ↦ stop (err invalid)
            | some c ↦
                container_byte opening closing (record { i = i; depth = depth; in_str = in_str }) c
          ]))
          (Sees-get_elem? bytes i s)
    where
      one_add : 1 + fuel ≡ suc fuel
      one_add = omega arith

  -- A byte outside a string that is no bracket of this kind.
  abbrev pub Neutral : ℕ → Type 0
  Neutral b = ((b == 34) ≡ false) × ((b == opening) ≡ false) × ((b == closing) ≡ false)

  pub Passes-Neutral : (b : ℕ) → Neutral b → Passes (b ∷ [])
  unfolding Passes container_byte
  Passes-Neutral b (q, o, c) i depth fuel rest deep s =
      step fuel i depth b false rest s ∙ rw (q, o, c) refl

  pub Passes-cons : (b : ℕ) (text : Bytes) → Neutral b → Passes text → Passes (b ∷ text)
  Passes-cons b text n p = Passes-append (b ∷ []) text (Passes-Neutral b n) p

  step-open_quote :
      (fuel i depth : ℕ) (rest : Bytes)
      → Sees bytes i (34 ∷ rest)
      → at_state (1 + fuel) i depth false ≡ at_state fuel (i + 1) depth true
  unfolding container_byte
  step-open_quote fuel i depth rest s = step fuel i depth 34 false rest s

  step-close_quote :
      (fuel i depth : ℕ) (rest : Bytes)
      → Sees bytes i (34 ∷ rest)
      → at_state (1 + fuel) i depth true ≡ at_state fuel (i + 1) depth false
  unfolding container_byte
  step-close_quote fuel i depth rest s = step fuel i depth 34 true rest s

  step-plain :
      (fuel i depth b : ℕ) (rest : Bytes)
      → (b == 34) ≡ false
      → (b == 92) ≡ false
      → Sees bytes i (b ∷ rest)
      → at_state (1 + fuel) i depth true ≡ at_state fuel (i + 1) depth true
  unfolding container_byte
  step-plain fuel i depth b rest quote backslash s =
      step fuel i depth b true rest s ∙ rw (backslash, quote) refl

  inside_string :
      (text : Bytes) (i depth fuel : ℕ) (rest : Bytes)
      → IsPlain text
      → Sees bytes i (text ++ 34 ∷ rest)
      → at_state (length text + (1 + fuel)) i depth true
        ≡ at_state fuel (i + length text + 1) depth false
  inside_string [] i depth fuel rest plain s =
      ap (λ n. at_state n i depth true) (omega arith)
      ∙ step-close_quote fuel i depth rest s
      ∙ ap (λ n. at_state fuel n depth false) (omega arith)
  inside_string (b ∷ bs) i depth fuel rest (visible, quote, backslash, plain) s =
      ap (λ n. at_state n i depth true) (omega arith)
      ∙ step-plain (length bs + (1 + fuel)) i depth b _ quote backslash s
      ∙ inside_string bs (i + 1) depth fuel rest plain (Sees-next bytes i b _ s)
      ∙ ap (λ n. at_state fuel n depth false) (omega arith)

  pub Passes-quoted : (text : Bytes) → IsPlain text → Passes (quoted text)
  unfolding Passes quoted
  Passes-quoted text plain i depth fuel rest deep s =
      ap (λ n. at_state n i depth false) (omega (arith, length-append text (34 ∷ [])))
      ∙ step-open_quote (length text + (1 + fuel)) i depth _ s
      ∙ inside_string text (i + 1) depth fuel rest plain
          (rw append_assoc at (Sees-next bytes i 34 _ s))
      ∙ ap (λ n. at_state fuel n depth false) (omega (arith, length-append text (34 ∷ [])))

  step-open :
      (fuel i depth : ℕ) (rest : Bytes)
      → (opening == 34) ≡ false
      → Sees bytes i (opening ∷ rest)
      → at_state (1 + fuel) i depth false ≡ at_state fuel (i + 1) (depth + 1) false
  unfolding container_byte
  step-open fuel i depth rest q s = step fuel i depth opening false rest s ∙ rw (q, ==_refl) refl

  step-close :
      (fuel i depth : ℕ) (rest : Bytes)
      → (closing == 34) ≡ false
      → (closing == opening) ≡ false
      → zero_depth < depth
      → Sees bytes i (closing ∷ rest)
      → at_state (1 + fuel) i (depth + 1) false ≡ at_state fuel (i + 1) depth false
  unfolding container_byte
  step-close fuel i depth rest q o deep s =
      step fuel i (depth + 1) closing false rest s ∙ rw (q, o, ==_refl, less, deeper) refl
    where
      less : depth + 1 - 1 ≡ depth
      less = omega arith

      deeper : (depth == zero_depth) ≡ false
      deeper = ground arith

  step-last :
      (fuel i : ℕ) (rest : Bytes)
      → (closing == 34) ≡ false
      → (closing == opening) ≡ false
      → Sees bytes i (closing ∷ rest)
      → at_state (1 + fuel) i (zero_depth + 1) false ≡ ok (i + 1)
  unfolding container_byte
  step-last fuel i rest q o s =
      step fuel i (zero_depth + 1) closing false rest s ∙ rw (q, o, ==_refl) refl

  -- A nested container of the same kind.
  pub Passes-nested :
      (body : Bytes)
      → (opening == 34) ≡ false
      → (closing == 34) ≡ false
      → (closing == opening) ≡ false
      → Passes body
      → Passes (opening ∷ (body ++ closing ∷ []))
  unfolding Passes
  Passes-nested body q q' o p i depth fuel rest deep s =
      ap (λ n. at_state n i depth false) (omega (arith, length-append body (closing ∷ [])))
      ∙ step-open (length body + (1 + fuel)) i depth _ q s
      ∙ p (i + 1) (depth + 1) (1 + fuel) (closing ∷ rest) (omega arith) inner
      ∙ step-close fuel (i + 1 + length body) depth rest q' o deep
          (Sees-append bytes (i + 1) body _ inner)
      ∙ ap (λ n. at_state fuel n depth false) (omega (arith, length-append body (closing ∷ [])))
    where
      inner : Sees bytes (i + 1) (body ++ closing ∷ rest)
      inner = rw append_assoc at (Sees-next bytes i opening _ s)

  -- A whole container: its end is found.
  pub skip_container-body :
      (body : Bytes) (at : ℕ) (rest : Bytes)
      → (opening == 34) ≡ false
      → (closing == 34) ≡ false
      → (closing == opening) ≡ false
      → Passes body
      → Sees bytes at (opening ∷ (body ++ closing ∷ rest))
      → skip_container bytes at opening closing ≡ ok (at + (2 + length body))
  unfolding skip_container Passes
  skip_container-body body at rest q q' o p s =
      ap (λ n. at_state n at zero_depth false) fuel_eq
      ∙ step-open (length body + (1 + (at + 1 + length rest))) at zero_depth _ q s
      ∙ p (at + 1) (zero_depth + 1) (1 + (at + 1 + length rest)) (closing ∷ rest) (omega arith)
          inner
      ∙ step-last (at + 1 + length rest) (at + 1 + length body) rest q' o
          (Sees-append bytes (at + 1) body _ inner)
      ∙ ap ok (omega arith)
    where
      inner : Sees bytes (at + 1) (body ++ closing ∷ rest)
      inner = Sees-next bytes at opening _ s

      fuel_eq : length bytes + 1 ≡ 1 + (length body + (1 + (at + 1 + length rest)))
      fuel_eq = omega (arith, Sees-length bytes at _ s, length-append body (closing ∷ rest))
