-- ===== src/PolicyRuntime/Interp/Values.antt =====
-- The values on the stack of crates/sealstack-policy-runtime/src/interp.rs, how they are read from
-- the input, and the operations on them.
use sealstack.Prelude.{
  ℕ, ◌+◌, Bool, true, false, ◌||◌, not, Option, none, some, List, [], ◌∷◌, ◌==◌, if◌then◌else◌,
  length, drop, ok, err, ◌>>=◌,
}
use sealstack.PolicyRuntime.Json.{
  invalid, JsonResult, at_byte, skip_ws, as_bool, as_str, find_path, each_element, as_i64, as_f64,
}
use sealstack.Bytes.{Bytes, codes, bytes_eq}
use sealstack.Ieee.{f64_eq, i64_to_f64}
use sealstack.Numbers.{is_digit}

pub data Val : Type 0 where
  null : Val
  boolean : Bool → Val
  i64 f64 : ℕ → Val
  raw : Bytes → Val
  array_at : ℕ → Val

-- `usize::MAX` on wasm32.
abbrev pub no_position : ℕ
no_position = 0xffff_ffff

bool_eq : Bool → Bool → Bool
bool_eq a b = if a then b else not b

unfoldable pub eq_val : Val → Val → Bool
unfolding bool_eq
eq_val null null = true
eq_val (boolean x) (boolean y) = bool_eq x y
eq_val (i64 x) (i64 y) = x == y
eq_val (f64 x) (f64 y) = f64_eq x y
eq_val (i64 x) (f64 y) = f64_eq (i64_to_f64 x) y
eq_val (f64 y) (i64 x) = f64_eq (i64_to_f64 x) y
eq_val (raw x) (raw y) = bytes_eq x y
eq_val _ _ = false

unfoldable pub cmp_ord : (ℕ → ℕ → Bool) → Val → Val → JsonResult Bool
cmp_ord r (i64 x) (i64 y) = ok (r (i64_to_f64 x) (i64_to_f64 y))
cmp_ord r (f64 x) (f64 y) = ok (r x y)
cmp_ord r (i64 x) (f64 y) = ok (r (i64_to_f64 x) y)
cmp_ord r (f64 x) (i64 y) = ok (r x (i64_to_f64 y))
cmp_ord r _ _ = err invalid

str_matches : Val → JsonResult Bytes → Bool
str_matches (raw n) (ok s) = bytes_eq n s
str_matches _ _ = false

int_matches : Val → JsonResult ℕ → Bool
int_matches (i64 n) (ok v) = n == v
int_matches _ _ = false

bool_matches : Val → JsonResult Bool → Bool
unfolding bool_eq
bool_matches (boolean n) (ok v) = bool_eq n v
bool_matches _ _ = false

abbrev pub prefer_i64 : JsonResult ℕ → JsonResult ℕ → JsonResult Val
prefer_i64 (ok i) float = ok (i64 i)
prefer_i64 (err e) float = do f ← float; ok (f64 f)

module _ (parse_f64 : Bytes → Option ℕ) (input : Bytes) where
  unfoldable pub number_at : ℕ → JsonResult Val
  unfolding as_i64 as_f64
  number_at start = prefer_i64 (as_i64 parse_f64 input start) (as_f64 parse_f64 input start)

  -- The match on the first byte of a value.
  unfoldable pub value_of_byte : ℕ → ℕ → JsonResult Val
  unfolding number_at as_bool as_str
  value_of_byte start b =
      if b == 116 || b == 102
      then (do v ← as_bool input start; ok (boolean v))
      else if b == 110
      then ok null
      else if b == 34
      then (do s ← as_str input start; ok (raw s))
      else if b == 91
      then ok (array_at start)
      else if b == 123
      then ok null
      else if b == 45 || is_digit b
      then number_at start
      else err invalid

  unfoldable pub value_at : ℕ → JsonResult Val
  unfolding value_of_byte skip_ws
  value_at cursor =
      let start = skip_ws input cursor in at_byte input start (err invalid) (value_of_byte start)

  -- The walk of `load_path` along its segments.
  unfoldable pub resolve : ℕ → List Bytes → JsonResult (Option ℕ)
  unfolding find_path
  resolve cursor [] = ok (some cursor)
  resolve cursor (seg ∷ segs) = do
    found ← find_path (drop cursor input) (seg ∷ [])
    elim found [ none ↦ ok none | some (s, end) ↦ resolve (cursor + s) segs ]

  unfoldable pub value_found : Option ℕ → JsonResult Val
  unfolding value_at
  value_found none = ok null
  value_found (some cursor) = value_at cursor

  unfoldable pub load_value : ℕ → List Bytes → JsonResult Val
  unfolding resolve value_found
  load_value root_at segs =
      if root_at == no_position || length segs == 0
      then ok null
      else (resolve root_at segs >>= value_found)

  unfoldable pub element_matches : Val → ℕ → ℕ → Bool
  unfolding str_matches int_matches bool_matches as_str as_i64 as_bool
  element_matches needle start b =
      if b == 34
      then str_matches needle (as_str input start)
      else if b == 45 || is_digit b
      then int_matches needle (as_i64 parse_f64 input start)
      else if b == 116 || b == 102
      then bool_matches needle (as_bool input start)
      else false

  -- The closure of `in_op`: whether to go on, and `found`.
  unfoldable pub search_element : Val → ℕ → ℕ → Bool → Bool × Bool
  unfolding element_matches skip_ws
  search_element needle start end found =
      let at = skip_ws input start in
      if at_byte input at false (element_matches needle at) then (false, true) else (true, found)

  unfoldable pub in_array : Val → Val → JsonResult Bool
  unfolding each_element search_element
  in_array needle (array_at at) = each_element input (search_element needle) at false
  in_array needle _ = err invalid

is_role : Bytes → JsonResult Bytes → Bool
is_role role (ok s) = bytes_eq s role
is_role role (err e) = false

unfoldable pub same_str : JsonResult Bytes → JsonResult Bytes → Bool
same_str (ok a) (ok b) = bytes_eq a b
same_str _ _ = false

module _ (input : Bytes) where
  -- The closure of `call_has_role`.
  unfoldable pub search_role : Bytes → ℕ → ℕ → Bool → Bool × Bool
  unfolding is_role as_str skip_ws
  search_role role start end matched =
      if is_role role (as_str input (skip_ws input start)) then (false, true) else (true, matched)

  unfoldable pub roles_match : ℕ → Bytes → JsonResult (Option (ℕ × ℕ)) → JsonResult Bool
  unfolding each_element search_role
  roles_match caller_at role (ok (some (roles_at, end))) =
      each_element input (search_role role) (caller_at + roles_at) false
  roles_match caller_at role _ = ok false

  unfoldable pub role_of_caller : ℕ → Bytes → Val → JsonResult Bool
  unfolding roles_match find_path
  role_of_caller caller_at role (raw s) = err invalid
  role_of_caller caller_at role (array_at at) = err invalid
  role_of_caller caller_at role _ =
      if caller_at == no_position
      then ok false
      else roles_match caller_at role (find_path (drop caller_at input) (codes "roles" ∷ []))

  unfoldable pub has_role : ℕ → Val → Val → JsonResult Bool
  unfolding role_of_caller
  has_role caller_at caller (raw role) = role_of_caller caller_at role caller
  has_role caller_at caller _ = err invalid

  unfoldable pub str_at : ℕ → ℕ → JsonResult Bytes
  unfolding as_str skip_ws
  str_at base offset = as_str input (skip_ws input (base + offset))

  unfoldable pub same_tenant :
      ℕ → ℕ → JsonResult (Option (ℕ × ℕ)) → JsonResult (Option (ℕ × ℕ)) → Bool
  unfolding same_str str_at
  same_tenant caller_at self_at (ok (some (a, a_end))) (ok (some (b, b_end))) =
      same_str (str_at caller_at a) (str_at self_at b)
  same_tenant caller_at self_at _ _ = false

  unfoldable pub tenant_match : ℕ → ℕ → Bool
  unfolding same_tenant find_path
  tenant_match caller_at self_at =
      if caller_at == no_position || self_at == no_position
      then false
      else same_tenant caller_at self_at (find_path (drop caller_at input) (codes "tenant" ∷ []))
          (find_path (drop self_at input) (codes "tenant" ∷ []))
