-- ===== src/Json.antt =====
-- `serde_json::Value`, a third-party type, as far as the program matches on it. A number is seen
-- only through its accessors: `as_i64` and `as_f64` hold what they return, whatever that is.
-- A map is an association list; `get` returns the first entry of a key.
use sealstack.Prelude.{ℕ, ◌≡◌, refl, Bool, true, false, Option, none, some, if◌then◌else◌}
use sealstack.Bytes.{Bytes, bytes_eq, codes}

pub record Number : Type 0 where
  pub as_i64 : Option ℕ
  pub as_f64 : Option ℕ

mutual
  pub data Value : Type 0 where
    null : Value
    boolean : Bool → Value
    number : Number → Value
    string : Bytes → Value
    array : Items → Value
    object : Fields → Value

  pub data Items : Type 0 where
    nil : Items
    cons : Value → Items → Items

  pub data Fields : Type 0 where
    end : Fields
    field : Bytes → Value → Fields → Fields

unfoldable pub get_field : Fields → Bytes → Option Value
get_field end key = none
get_field (field k v fs) key =
    let rest = get_field fs key in if bytes_eq k key then some v else rest

-- `value.get(key)` with a string key; also `value.pointer("/key")` for a key that is no number and
-- holds neither `/` nor `~`.
unfoldable pub get : Value → Bytes → Option Value
get (object fs) key = get_field fs key
get _ key = none

unfoldable pub as_str : Value → Option Bytes
as_str (string s) = some s
as_str _ = none

unfoldable pub as_array : Value → Option Items
as_array (array xs) = some xs
as_array _ = none

-- `arr.iter().any(f)`
unfoldable pub any_item : (Value → Bool) → Items → Bool
any_item f nil = false
any_item f (cons v vs) = let rest = any_item f vs in if f v then true else rest

get_runs :
    get (object (field (codes "a") null (field (codes "b") (boolean true) end))) (codes "b")
    ≡ some (boolean true)
unfolding get get_field bytes_eq
get_runs = refl
