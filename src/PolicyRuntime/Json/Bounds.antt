-- ===== src/PolicyRuntime/Json/Bounds.antt =====
-- The readers of crates/sealstack-policy-runtime/src/json.rs end, and where the spans lie that they return.
use sealstack.Prelude.{
  ◌≢◌, ℕ, ◌+◌, ◌≤◌, ◌<◌, ◌≡◌, Bool, not, Option, none, some, List, [], ◌∷◌, length, ok, err,
}
use sealstack.PolicyRuntime.Json.{
  out_of_fuel, find_key_in_object, each_element, byte_is, skip_ws, as_str, skip_value, key_round,
  descend, value_span, find_path, element_round, Bool,
}
use sealstack.PolicyRuntime.Json.Loops.{
  Ended, Ended-ne, Ended-if, loop-Ended, Returning, Returning-le, Returning->>=, Returning-guard,
}
use sealstack.Bytes.{Bytes}
use mathlib.Core.Path.{subst}
use sealstack.PolicyRuntime.Json.Positions.{
  Behind, as_str-Returning, skip_value-Returning, key_round-Forward, element_round-Forward,
}

module _ (bytes : Bytes) where
  find_key_in_object-Ended : (at : ℕ) (key : Bytes) → Ended (find_key_in_object bytes at key)
  unfolding find_key_in_object
  find_key_in_object-Ended at key = Ended-if (byte_is bytes (skip_ws bytes (at + 1)) 125) _ _ tt (
      loop-Ended (key_round bytes key) (λ n. n) (length bytes) (key_round-Forward bytes key)
        (skip_ws bytes (at + 1)))

  descend-Ended : (cursor : ℕ) (path : List Bytes) → Ended (descend bytes cursor path)
  unfolding descend
  descend-Ended cursor [] = tt
  descend-Ended cursor (key ∷ path) = Ended-if (not (byte_is bytes cursor 123)) _ _ tt (
      Returning->>= (λ _. Unit) (λ _. Unit) (find_key_in_object bytes cursor key) _
        (find_key_in_object-Ended cursor key)
        (λ found _. found-Ended found (λ start. descend-Ended start path)))
    where
      found-Ended :
          (found : Option ℕ)
          → ((start : ℕ) → Ended (descend bytes start path))
          → Ended (elim found [ none ↦ ok none | some start ↦ descend bytes start path ])
      found-Ended none further = tt
      found-Ended (some start) further = further start

  pub each_element-Ended :
      {A : Type 0} (f : ℕ → ℕ → A → Bool × A) (at : ℕ) (a : A) → Ended (each_element bytes f at a)
  unfolding each_element
  each_element-Ended f at a =
      Returning-guard (λ _. Unit) (byte_is bytes at 91) _
        (Ended-if (byte_is bytes (skip_ws bytes (at + 1)) 93) _ _ tt (
          loop-Ended (element_round bytes f) (λ p. p.0) (length bytes)
            (element_round-Forward bytes f) (skip_ws bytes (at + 1), a)))

  abbrev Within : Option (ℕ × ℕ) → Type 0
  Within none = Unit
  Within (some (start, end)) = (start < end) × (end ≤ length bytes)

  value_span-Returning : (found : Option ℕ) → Returning Within (value_span bytes found)
  unfolding value_span
  value_span-Returning none = tt
  value_span-Returning (some cursor) =
      Returning->>= Within (Behind bytes cursor) (skip_value bytes cursor) _
        (skip_value-Returning bytes cursor) (λ end h. h)

  find_path-Returning : (path : List Bytes) → Returning Within (find_path bytes path)
  unfolding find_path
  find_path-Returning path =
      Returning->>= Within (λ _. Unit) (descend bytes (skip_ws bytes 0) path) _
        (descend-Ended (skip_ws bytes 0) path) (λ found _. value_span-Returning found)

  pub find_path-Ended : (path : List Bytes) → Ended (find_path bytes path)
  find_path-Ended path =
      Returning-le (λ _. Unit) Within (find_path bytes path) (find_path-Returning path) (λ _ _. tt)

  pub as_str-Ended : (at : ℕ) → Ended (as_str bytes at)
  as_str-Ended at =
      Returning-le (λ _. Unit) _ (as_str bytes at) (as_str-Returning bytes at) (λ _ _. tt)

  -- The reader never runs out of fuel, on any bytes and from any position: every loop of a string, of a
  -- container, over the members of an object and over the elements of an array returns within one
  -- round more than the input has bytes.
  pub reads_end :
      {A : Type 0} (f : ℕ → ℕ → A → Bool × A) (a : A) (path : List Bytes) (at : ℕ)
      → (as_str bytes at ≢ err out_of_fuel)
        × (skip_value bytes at ≢ err out_of_fuel)
        × (find_path bytes path ≢ err out_of_fuel)
        × (each_element bytes f at a ≢ err out_of_fuel)
  reads_end f a path at = (
    Ended-ne (as_str bytes at) (as_str-Ended at),
    Ended-ne (skip_value bytes at) (
        Returning-le (λ _. Unit) _ (skip_value bytes at) (skip_value-Returning bytes at)
          (λ _ _. tt)),
    Ended-ne (find_path bytes path) (find_path-Ended path),
    Ended-ne (each_element bytes f at a) (each_element-Ended f at a),
  )

  -- Where a path is found, its value begins and ends in the input, and holds a byte at least.
  pub find_path_within :
      (path : List Bytes) (start end : ℕ)
      → find_path bytes path ≡ ok (some (start, end))
      → (start < end) × (end ≤ length bytes)
  find_path_within path start end h = subst (Returning Within) h (find_path-Returning path)
