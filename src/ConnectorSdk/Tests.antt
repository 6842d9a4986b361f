-- ===== src/ConnectorSdk/Tests.antt =====
-- Principals on the wire, and a server whose pages run dry.
use sealstack.Json.{get_field, get, as_array, Value, Items, Fields}
use sealstack.Bytes.{bytes_eq, Bytes, codes}
use mathlib.Core.Path.{subst}
use sealstack.Prelude.{
  suc, zero, ◌∙◌, ℕ, ◌≡◌, ◌+◌, ◌<◌, ◌^◌, refl, arith, Option, none, some, List, [], ◌∷◌, length,
  Result, ok, err, ◌⊎◌, ok_inj, ap,
}
use sealstack.ConnectorSdk.Principal.{
  Principal, PrincipalError, serialize, deserialize, deserialize-serialize, serialize-deserialize,
}
use sealstack.ConnectorSdk.Paginate.{PageError, paginate}
use sealstack.ConnectorSdk.Paginate.Offset.{new_offset, items_of, fetch_page}
use sealstack.ConnectorSdk.Paginate.Ends.{Ends, fetch, paginate-offset-Ends}

deserialize-serialize_example :
    deserialize (serialize (Principal.user (codes "a:b"))) ≡ ok (Principal.user (codes "a:b"))
deserialize-serialize_example = deserialize-serialize (Principal.user (codes "a:b"))

deserialize_runs :
    (deserialize (codes "*") ≡ ok Principal.anyone)
    × (deserialize (codes "team:x") ≡ err (PrincipalError.unknown_kind (codes "team")))
    × (deserialize (codes "user") ≡ err (PrincipalError.invalid_format (codes "user")))
unfolding deserialize bytes_eq
deserialize_runs = (refl, refl, refl)

serialize-deserialize_example :
    (serialize (Principal.group (codes "eng")) ≡ codes "group:eng")
    ⊎ ((codes "group:eng" ≡ codes "*") × (Principal.group (codes "eng") ≡ Principal.anyone))
unfolding deserialize bytes_eq
serialize-deserialize_example = serialize-deserialize (codes "group:eng") refl

-- A server with one item, which answers an empty page after it.
abbrev page : Items → Value
page items = Value.object (
    Fields.field (codes "values") (Value.array items)
      (Fields.field (codes "total") Value.null Fields.end))

abbrev body_of : ℕ → Value
body_of zero = page (Items.cons Value.null Items.nil)
body_of (suc n) = page Items.nil

abbrev send : ℕ → ℕ → ℕ → ℕ × Result PageError Value
send w start limit = (w + 1, ok (body_of w))

abbrev as_u64 : Value → Option ℕ
as_u64 v = some 2

abbrev decode : Value → Result PageError ℕ
decode v = ok 5

abbrev to_string : ℕ → Bytes
to_string n = n ∷ []

abbrev items : Value → Result PageError (List ℕ)
items = items_of send as_u64 decode to_string (codes "values") 50

body_of-items : (w : ℕ) (xs : List ℕ) → items (body_of w) ≡ ok xs → 2 + length xs < 2 ^ 64
unfolding items_of get as_array get_field bytes_eq
body_of-items zero xs h = subst (λ ys. 2 + length ys < 2 ^ 64) (ok_inj h) (omega arith)
body_of-items (suc n) xs h = subst (λ ys. 2 + length ys < 2 ^ 64) (ok_inj h) (omega arith)

send-items :
    (w w' start : ℕ) (body : Value) (xs : List ℕ)
    → send w start 50 ≡ (w', ok body)
    → items body ≡ ok xs
    → 2 + length xs < 2 ^ 64
send-items w w' start body xs sent h =
    body_of-items w xs (ap items (ok_inj (ap (λ (p : ℕ × Result PageError Value). p.1) sent)) ∙ h)

first-total :
    (w' : ℕ) (body : Value)
    → send 0 0 50 ≡ (w', ok body)
    → (v : Value) × (get body (codes "total") ≡ some v) × (as_u64 v ≡ some 2)
unfolding get get_field bytes_eq
first-total w' body sent =
    subst (λ b. (v : Value) × (get b (codes "total") ≡ some v) × (as_u64 v ≡ some 2))
      (ok_inj (ap (λ (p : ℕ × Result PageError Value). p.1) sent)) (Value.null, refl, refl)

paginate-offset-Ends_example :
    Ends
      (paginate (fetch send as_u64 decode to_string (codes "values") 50) 5 (new_offset 0) none none)
paginate-offset-Ends_example =
    paginate-offset-Ends send as_u64 decode to_string (codes "values") 50 2 send-items 0 first-total

paginate_runs :
    paginate (fetch send as_u64 decode to_string (codes "values") 50) 5 (new_offset 0) none none
    ≡ some (5 ∷ [], some (PageError.cursor_loop (1 ∷ [])))
unfolding paginate fetch_page get get_field bytes_eq as_array
paginate_runs = refl
