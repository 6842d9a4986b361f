-- ===== src/PolicyRuntime/Interp/Ends.antt =====
-- The operations on values of crates/sealstack-policy-runtime/src/interp.rs end: what they read of the
-- input takes no more rounds than there is fuel for.
use sealstack.Prelude.{
  Bool, ℕ, ◌+◌, ◌==◌, ◌||◌, false, Option, none, some, List, [], ◌∷◌, length, drop, ok, err, ◌>>=◌,
  arith, get_elem?,
}
use sealstack.Bytes.{Bytes, is_utf8}
use sealstack.PolicyRuntime.Json.{
  JsonResult, invalid, between, skip_ws, as_bool, as_str, skip_number, find_path, as_i64, as_f64,
  utf8_number,
}
use sealstack.PolicyRuntime.Json.Loops.{Ended, Ended-if, Ended-ok_or, Returning-le, Returning->>=}
use sealstack.PolicyRuntime.Json.Positions.{skip_number-Returning}
use sealstack.PolicyRuntime.Json.Bounds.{as_str-Ended, find_path-Ended, each_element-Ended}
use sealstack.PolicyRuntime.Interp.{
  Val, cmp_ord, prefer_i64, number_at, value_of_byte, value_at, resolve, value_found, load_value,
  search_element, in_array, search_role, roles_match, role_of_caller, has_role, no_position,
}

then-Ended :
    {A B : Type 0} (r : JsonResult A) (k : A → JsonResult B)
    → Ended r
    → ((a : A) → Ended (k a))
    → Ended (r >>= k)
then-Ended r k h f = Returning->>= (λ _. Unit) (λ _. Unit) r k h (λ a _. f a)

pub cmp_ord-Ended : (r : ℕ → ℕ → Bool) (a b : Val) → Ended (cmp_ord r a b)
unfolding cmp_ord
cmp_ord-Ended r a b = ground arith

module _ (parse_f64 : Bytes → Option ℕ) (input : Bytes) where
  skip_number-Ended : (at : ℕ) → Ended (skip_number input at)
  skip_number-Ended at =
      Returning-le (λ _. Unit) _ (skip_number input at) (skip_number-Returning input at) (λ _ _. tt)

  utf8_number-Ended : (text : Bytes) → Ended (utf8_number parse_f64 text)
  unfolding utf8_number
  utf8_number-Ended text = Ended-if (is_utf8 text) _ _ tt tt

  as_f64-Ended : (at : ℕ) → Ended (as_f64 parse_f64 input at)
  unfolding as_f64
  as_f64-Ended at = then-Ended (skip_number input at) _ (skip_number-Ended at) λ end.
      then-Ended (utf8_number parse_f64 (between input at end)) _
        (utf8_number-Ended (between input at end)) λ text. Ended-ok_or (parse_f64 text)

  number_at-Ended : (at : ℕ) → Ended (number_at parse_f64 input at)
  unfolding number_at
  number_at-Ended at = go (as_i64 parse_f64 input at)
    where
      go : (r : JsonResult ℕ) → Ended (prefer_i64 r (as_f64 parse_f64 input at))
      go (ok i) = tt
      go (err e) = then-Ended (as_f64 parse_f64 input at) _ (as_f64-Ended at) (λ f. tt)

  value_of_byte-Ended : (at b : ℕ) → Ended (value_of_byte parse_f64 input at b)
  unfolding value_of_byte as_bool
  value_of_byte-Ended at b = ground (
    arith,
    number_at-Ended at,
    then-Ended (as_str input at) (λ s. ok (Val.raw s)) (as_str-Ended input at) (λ s. tt),
  )

  value_at-Ended : (cursor : ℕ) → Ended (value_at parse_f64 input cursor)
  unfolding value_at
  value_at-Ended cursor = go (get_elem? input (skip_ws input cursor))
    where
      go :
          (o : Option ℕ)
          → Ended (elim o [
            | none ↦ err invalid
            | some b ↦ value_of_byte parse_f64 input (skip_ws input cursor) b
          ])
      go none = tt
      go (some b) = value_of_byte-Ended (skip_ws input cursor) b

  resolve-Ended : (cursor : ℕ) (segs : List Bytes) → Ended (resolve parse_f64 input cursor segs)
  unfolding resolve
  resolve-Ended cursor [] = tt
  resolve-Ended cursor (seg ∷ segs) =
      then-Ended (find_path (drop cursor input) (seg ∷ [])) _
        (find_path-Ended (drop cursor input) (seg ∷ []))
        (λ found. go found (λ s. resolve-Ended (cursor + s) segs))
    where
      go :
          (found : Option (ℕ × ℕ))
          → ((s : ℕ) → Ended (resolve parse_f64 input (cursor + s) segs))
          → Ended (elim found [
            | none ↦ ok none
            | some (s, end) ↦ resolve parse_f64 input (cursor + s) segs
          ])
      go none further = tt
      go (some (s, end)) further = further s

  value_found-Ended : (found : Option ℕ) → Ended (value_found parse_f64 input found)
  unfolding value_found
  value_found-Ended none = tt
  value_found-Ended (some cursor) = value_at-Ended cursor

  pub load_value-Ended :
      (root_at : ℕ) (segs : List Bytes) → Ended (load_value parse_f64 input root_at segs)
  unfolding load_value
  load_value-Ended root_at segs = Ended-if (root_at == no_position || length segs == 0) _ _ tt (
      then-Ended (resolve parse_f64 input root_at segs) _ (resolve-Ended root_at segs)
        value_found-Ended)

  pub in_array-Ended : (needle haystack : Val) → Ended (in_array parse_f64 input needle haystack)
  unfolding in_array
  in_array-Ended needle (Val.array_at at) =
      each_element-Ended input (search_element parse_f64 input needle) at false
  in_array-Ended needle _ = tt

module _ (input : Bytes) where
  roles_match-Ended :
      (caller_at : ℕ) (role : Bytes) (r : JsonResult (Option (ℕ × ℕ)))
      → Ended (roles_match input caller_at role r)
  unfolding roles_match
  roles_match-Ended caller_at role (ok (some (roles_at, end))) =
      each_element-Ended input (search_role input role) (caller_at + roles_at) false
  roles_match-Ended caller_at role _ = tt

  role_of_caller-Ended :
      (caller_at : ℕ) (role : Bytes) (v : Val) → Ended (role_of_caller input caller_at role v)
  unfolding role_of_caller
  role_of_caller-Ended caller_at role (Val.raw s) = tt
  role_of_caller-Ended caller_at role (Val.array_at at) = tt
  role_of_caller-Ended caller_at role _ =
      Ended-if (caller_at == no_position) _ _ tt (roles_match-Ended caller_at role _)

  pub has_role-Ended :
      (caller_at : ℕ) (caller role : Val) → Ended (has_role input caller_at caller role)
  unfolding has_role
  has_role-Ended caller_at caller (Val.raw role) = role_of_caller-Ended caller_at role caller
  has_role-Ended caller_at caller _ = tt
