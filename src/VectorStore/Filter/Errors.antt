-- ===== src/VectorStore/Filter/Errors.antt =====
-- Filters that the parser of crates/sealstack-vectorstore/src/filter.rs refuses.
use sealstack.Prelude.{
  arith, ◌≡◌, refl, true, false, ◌==◌, none, ok, err, ◌>>=◌, inl, inr, ◌⊎◌, ok_or, [], ◌∷◌,
}
use sealstack.Bytes.{Bytes, codes, bytes_eq}
use sealstack.Json.{Value, Fields}
use sealstack.VectorStore.Filter.{
  Filters, FilterParseError, FilterResult, KeyKind, RangeBuilder, is_operator, field_op, apply_op,
  field_ops, parse_field_ops, has_any_op, parse_field, key_kind, parse_kv, parse_entries,
  parse_compound, from_json,
}

-- The text starts with a dollar sign.
abbrev pub Dollar : Bytes → Type 0
Dollar [] = ⊥
Dollar (c ∷ rest) = c ≡ 36

-- It starts with none.
abbrev pub Plain : Bytes → Type 0
Plain [] = Unit
Plain (c ∷ rest) = (c == 36) ≡ false

-- A dollar key of a filter that is none of `$and`, `$or` and `$not`.
abbrev pub UnknownKey : Bytes → Type 0
UnknownKey key =
    Dollar key
    × (bytes_eq key (codes "$and") ≡ false)
    × (bytes_eq key (codes "$or") ≡ false)
    × (bytes_eq key (codes "$not") ≡ false)

-- A dollar key of a field's operators that is none of the eight.
abbrev pub UnknownOp : Bytes → Type 0
UnknownOp op =
    Dollar op
    × (bytes_eq op (codes "$eq") ≡ false)
    × (bytes_eq op (codes "$ne") ≡ false)
    × (bytes_eq op (codes "$in") ≡ false)
    × (bytes_eq op (codes "$nin") ≡ false)
    × (bytes_eq op (codes "$gte") ≡ false)
    × (bytes_eq op (codes "$gt") ≡ false)
    × (bytes_eq op (codes "$lte") ≡ false)
    × (bytes_eq op (codes "$lt") ≡ false)

abbrev pub InOps : Fields → Type 0
InOps Fields.end = ⊥
InOps (Fields.field op v rest) = UnknownOp op ⊎ InOps rest

abbrev pub OpsUnknown : Value → Type 0
OpsUnknown (Value.object ops) = InOps ops
OpsUnknown _ = ⊥

-- An unknown operator among the keys of a filter or of the object that one of its fields maps to.
abbrev pub HasUnknown : Fields → Type 0
HasUnknown Fields.end = ⊥
HasUnknown (Fields.field key value rest) =
    UnknownKey key ⊎ (Plain key × OpsUnknown value) ⊎ HasUnknown rest

is_operator-Dollar : (key : Bytes) → Dollar key → is_operator key ≡ true
unfolding is_operator
is_operator-Dollar [] h = absurd h
is_operator-Dollar (c ∷ rest) h = ground arith

key_kind-UnknownKey : (key : Bytes) → UnknownKey key → key_kind key ≡ KeyKind.unknown
unfolding key_kind
key_kind-UnknownKey key (dollar, a, o, n) = rw (a, o, n, is_operator-Dollar key dollar) refl

key_kind-Plain : (key : Bytes) → Plain key → key_kind key ≡ KeyKind.plain
unfolding key_kind is_operator bytes_eq
key_kind-Plain [] h = refl
key_kind-Plain (c ∷ rest) h = rw h refl

field_op-UnknownOp : (op : Bytes) → UnknownOp op → field_op op ≡ none
unfolding field_op
field_op-UnknownOp op (dollar, a, b, c, d, e, f, g, h) = rw (a, b, c, d, e, f, g, h) refl

abbrev Fails : {A : Type 0} → FilterResult A → Type 0
Fails r = (e : FilterParseError) × (r ≡ err e)

-- What fails at its end fails.
Fails->>= :
    {A B : Type 0} (r : FilterResult A) (k : A → FilterResult B)
    → ((a : A) → Fails (k a))
    → Fails (r >>= k)
Fails->>= (ok a) k h = h a
Fails->>= (err e) k h = (e, refl)

Fails-first :
    {A B : Type 0} {r : FilterResult A} (k : A → FilterResult B) → Fails r → Fails (r >>= k)
Fails-first k (e, h) = (e, rw h refl)

field_ops-InOps :
    (name : Bytes) (ops : Fields) (ps : Filters) (r : RangeBuilder)
    → InOps ops
    → Fails (field_ops name ops ps r)
unfolding field_ops
field_ops-InOps name Fields.end ps r bad = absurd bad
field_ops-InOps name (Fields.field op v rest) ps r (inl bad) =
    (FilterParseError.unknown_operator op, rw (field_op-UnknownOp op bad) refl)
field_ops-InOps name (Fields.field op v rest) ps r (inr bad) =
    Fails->>= (ok_or (field_op op) (FilterParseError.unknown_operator op)) _ λ known.
      Fails->>= (apply_op name known op v ps r) _ λ x. field_ops-InOps name rest x.0 x.1 bad

has_any_op-InOps : (ops : Fields) → InOps ops → has_any_op ops ≡ true
unfolding has_any_op
has_any_op-InOps Fields.end bad = absurd bad
has_any_op-InOps (Fields.field op v rest) (inl bad) = rw (is_operator-Dollar op bad.0) refl
has_any_op-InOps (Fields.field op v rest) (inr bad) = ground (arith, has_any_op-InOps rest bad)

parse_field-OpsUnknown :
    (name : Bytes) (value : Value) → OpsUnknown value → Fails (parse_field name value)
unfolding parse_field parse_field_ops
parse_field-OpsUnknown name (Value.object ops) bad =
    rw (has_any_op-InOps ops bad) (Fails-first _ (field_ops-InOps name ops _ _ bad))
parse_field-OpsUnknown name Value.null bad = absurd bad
parse_field-OpsUnknown name (Value.boolean b) bad = absurd bad
parse_field-OpsUnknown name (Value.number n) bad = absurd bad
parse_field-OpsUnknown name (Value.string s) bad = absurd bad
parse_field-OpsUnknown name (Value.array vs) bad = absurd bad

parse_entries-HasUnknown : (fields : Fields) → HasUnknown fields → Fails (parse_entries fields)
unfolding parse_entries parse_kv
parse_entries-HasUnknown Fields.end bad = absurd bad
parse_entries-HasUnknown (Fields.field key value rest) (inl bad) =
    (FilterParseError.unknown_operator key, rw (key_kind-UnknownKey key bad) refl)
parse_entries-HasUnknown (Fields.field key value rest) (inr (inl (plain, bad))) =
    rw (key_kind-Plain key plain) (Fails-first _ (parse_field-OpsUnknown key value bad))
parse_entries-HasUnknown (Fields.field key value rest) (inr (inr bad)) =
    Fails->>= (parse_kv (key_kind key) key value (from_json value) (parse_compound key value)) _
      λ part. Fails-first _ (parse_entries-HasUnknown rest bad)

-- A filter is refused that has, among its keys, one that starts with a dollar sign and is none of `$and`,
-- `$or` and `$not`, or a field that maps to an object with such a key that is none of `$eq`, `$ne`, `$in`,
-- `$nin`, `$gte`, `$gt`, `$lte` and `$lt`.
pub from_json-HasUnknown :
    (fields : Fields)
    → HasUnknown fields
    → (e : FilterParseError) × (from_json (Value.object fields) ≡ err e)
unfolding from_json
from_json-HasUnknown fields bad = Fails-first _ (parse_entries-HasUnknown fields bad)
