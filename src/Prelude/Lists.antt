-- ===== src/Prelude/Lists.antt =====
-- Lists measured and indexed by the native numbers, under the library's names, and what a cursor
-- at position `i` of a buffer sees: `drop i`.
use Prim.Native.Nat.{ℕ, zero, suc, ◌+◌, ◌-◌, ◌≤◌, ◌<◌}
use mathlib.Core.Path.{◌≡◌, refl, ap, sym, ◌∙◌}
use mathlib.Core.List.{List, [], ◌∷◌, ◌++◌, map, Memᴰ}
use mathlib.Core.List.Memᴰ
use mathlib.Core.Option.{Option, none, some}
use native.Mathlib.Omega.{arith}
use Prim.Native.Nat.add

module _ {ℓ} {A : Type ℓ} where
  abbrev pub length : List A → ℕ
  length [] = 0
  length (x ∷ xs) = suc (length xs)

  abbrev pub get_elem? : List A → ℕ → Option A
  get_elem? [] i = none
  get_elem? (x ∷ xs) zero = some x
  get_elem? (x ∷ xs) (suc i) = get_elem? xs i

  abbrev pub take : ℕ → List A → List A
  take zero xs = []
  take (suc n) [] = []
  take (suc n) (x ∷ xs) = x ∷ take n xs

  abbrev pub drop : ℕ → List A → List A
  drop zero xs = xs
  drop (suc n) [] = []
  drop (suc n) (x ∷ xs) = drop n xs

  pub length-append : (xs ys : List A) → length (xs ++ ys) ≡ length xs + length ys
  length-append [] ys = omega arith
  length-append (x ∷ xs) ys = omega (arith, length-append xs ys)

  pub length-drop : (n : ℕ) (xs : List A) → length (drop n xs) ≡ length xs - n
  length-drop zero xs = omega arith
  length-drop (suc n) [] = omega arith
  length-drop (suc n) (x ∷ xs) = omega (arith, length-drop n xs)

  pub length-take_le : (n : ℕ) (xs : List A) → length (take n xs) ≤ n
  length-take_le zero xs = omega arith
  length-take_le (suc n) [] = omega arith
  length-take_le (suc n) (x ∷ xs) = omega (arith, length-take_le n xs)

  pub take-append_self : (xs ys : List A) → take (length xs) (xs ++ ys) ≡ xs
  take-append_self [] ys = refl
  take-append_self (x ∷ xs) ys = ap (◌∷◌ x) (take-append_self xs ys)

  pub drop-append_self : (xs ys : List A) → drop (length xs) (xs ++ ys) ≡ ys
  drop-append_self [] ys = refl
  drop-append_self (x ∷ xs) ys = drop-append_self xs ys

  pub take-length : (xs : List A) → take (length xs) xs ≡ xs
  take-length [] = refl
  take-length (x ∷ xs) = ap (◌∷◌ x) (take-length xs)

  pub drop-nil : (n : ℕ) → drop n [] ≡ []
  drop-nil zero = refl
  drop-nil (suc n) = refl

  pub drop-add : (i n : ℕ) (xs : List A) → drop (i + n) xs ≡ drop n (drop i xs)
  drop-add zero n xs = ap (λ k. drop k xs) (omega arith)
  drop-add (suc i) n [] = drop-nil (suc i + n) ∙ sym (drop-nil n)
  drop-add (suc i) n (x ∷ xs) = ap (λ k. drop k (x ∷ xs)) (add.suc i n) ∙ drop-add i n xs

  pub get_elem?-drop :
      (i : ℕ) (buf : List A) {x : A} {rest : List A}
      → drop i buf ≡ x ∷ rest
      → get_elem? buf i ≡ some x
  get_elem?-drop zero [] h = cc
  get_elem?-drop zero (y ∷ buf) h = cc
  get_elem?-drop (suc i) [] h = cc
  get_elem?-drop (suc i) (y ∷ buf) h = get_elem?-drop i buf h

  pub lt_of_get_elem? : (buf : List A) (i : ℕ) {x : A} → get_elem? buf i ≡ some x → i < length buf
  lt_of_get_elem? [] i h = cc
  lt_of_get_elem? (y ∷ buf) zero h = omega arith
  lt_of_get_elem? (y ∷ buf) (suc i) h = omega (arith, lt_of_get_elem? buf i h)

-- A cursor at `i` of `buf` has `rest` before it.
pub record Sees {ℓ} {A : Type ℓ} (buf : List A) (i : ℕ) (rest : List A) : Type ℓ where
  pub rest_eq : drop i buf ≡ rest
  pub within : i ≤ length buf

module _ {ℓ} {A : Type ℓ} where
  pub Sees-get_elem? :
      (buf : List A) (i : ℕ) {x : A} {rest : List A}
      → Sees buf i (x ∷ rest)
      → get_elem? buf i ≡ some x
  Sees-get_elem? buf i s = get_elem?-drop i buf s.rest_eq

  pub Sees-length :
      (buf : List A) (i : ℕ) (rest : List A) → Sees buf i rest → i + length rest ≡ length buf
  Sees-length buf i rest s = omega (arith, ap length s.rest_eq, length-drop i buf, s.within)

  -- Past `xs` the cursor has what follows.
  pub Sees-append :
      (buf : List A) (i : ℕ) (xs rest : List A)
      → Sees buf i (xs ++ rest)
      → Sees buf (i + length xs) rest
  Sees-append buf i xs rest s = record {
    rest_eq =
        drop-add i (length xs) buf ∙ (ap (drop (length xs)) s.rest_eq ∙ drop-append_self xs rest);
    within = omega (arith, Sees-length buf i (xs ++ rest) s, length-append xs rest);
  }

  pub Sees-next :
      (buf : List A) (i : ℕ) (x : A) (rest : List A) → Sees buf i (x ∷ rest) → Sees buf (i + 1) rest
  Sees-next buf i x rest s = Sees-append buf i (x ∷ []) rest s

  pub Sees-zero : (buf : List A) → Sees buf 0 buf
  Sees-zero buf = record { rest_eq = refl; within = omega arith }

module _ {A B : Type 0} (f : A → B) where
  pub Memᴰ-map : (xs : List A) (y : B) → Memᴰ y (map f xs) → (x : A) × Memᴰ x xs × (y ≡ f x)
  Memᴰ-map [] y m = absurd (Memᴰ.not-nil m)
  Memᴰ-map (x ∷ xs) y (Memᴰ.head e) = (x, Memᴰ.head refl, e)
  Memᴰ-map (x ∷ xs) y (Memᴰ.tail m) = let (z, there, e) = Memᴰ-map xs y m in (z, Memᴰ.tail there, e)

  pub map-Memᴰ : (xs : List A) (x : A) → Memᴰ x xs → Memᴰ (f x) (map f xs)
  map-Memᴰ [] x m = absurd (Memᴰ.not-nil m)
  map-Memᴰ (y ∷ xs) x (Memᴰ.head e) = Memᴰ.head (ap f e)
  map-Memᴰ (y ∷ xs) x (Memᴰ.tail m) = Memᴰ.tail (map-Memᴰ xs x m)

module _ {A : Type 0} where
  pub Memᴰ-take : (n : ℕ) (xs : List A) (x : A) → Memᴰ x (take n xs) → Memᴰ x xs
  Memᴰ-take zero xs x m = absurd (Memᴰ.not-nil m)
  Memᴰ-take (suc n) [] x m = absurd (Memᴰ.not-nil m)
  Memᴰ-take (suc n) (y ∷ xs) x (Memᴰ.head e) = Memᴰ.head e
  Memᴰ-take (suc n) (y ∷ xs) x (Memᴰ.tail m) = Memᴰ.tail (Memᴰ-take n xs x m)
