-- ===== src/VectorStore/Filter/Laws.antt =====
-- What parsed filters mean.
use sealstack.Prelude.{
  arith, ◌≡◌, refl, ap, ◌∙◌, Bool, true, false, not, ◌&&◌, Option, none, some, ok, Bool-cases, inl,
  inr,
}
use sealstack.Bytes.{Bytes}
use sealstack.Json.{Value, Items, Fields, get_field}
use sealstack.VectorStore.Filter.{
  Filter, Filters, matches, all_match, field_eq, any_eq, none_eq, KeyKind, key_kind, parse_entries,
  parse_field, has_any_op, join_parts, from_json,
}

-- The value is an object with an operator among its keys.
unfoldable pub has_operators : Value → Bool
has_operators (Value.object ops) = has_any_op ops
has_operators _ = false

parse_field-scalar :
    (name : Bytes) (value : Value)
    → has_operators value ≡ false
    → parse_field name value ≡ ok (Filter.eq name value)
unfolding parse_field has_operators
parse_field-scalar name (Value.object ops) h = rw h refl
parse_field-scalar name _ h = refl

-- An object of equalities: no operator among its keys, nor in an object that one maps to.
abbrev pub Flat : Fields → Type 0
Flat Fields.end = Unit
Flat (Fields.field key value rest) =
    (key_kind key ≡ KeyKind.plain) × (has_operators value ≡ false) × Flat rest

module _ (value_eq : Value → Value → Bool) where
  none_eq_lem :
      (actual : Value) (values : Items)
      → none_eq value_eq actual values ≡ not (any_eq value_eq actual values)
  unfolding none_eq any_eq
  none_eq_lem actual Items.nil = refl
  none_eq_lem actual (Items.cons v vs) = elim (Bool-cases (value_eq v actual)) [
    | inl same ↦ rw (same, not) refl
    | inr differs ↦ rw (differs, not) (none_eq_lem actual vs)
  ]

  not_in_lem :
      (o : Option Value) (values : Items)
      → (elim o [ none ↦ true | some actual ↦ none_eq value_eq actual values ])
        ≡ not (elim o [ none ↦ false | some actual ↦ any_eq value_eq actual values ])
  not_in_lem none values = refl
  not_in_lem (some actual) values = none_eq_lem actual values

  -- `$nin` holds where `$in` does not, and `$ne` where `$eq` does not, on a missing field too.
  pub negations :
      (name : Bytes) (value : Value) (values : Items) (metadata : Fields)
      → (matches value_eq (Filter.ne name value) metadata
          ≡ not (matches value_eq (Filter.eq name value) metadata))
        × (matches value_eq (Filter.not_in name values) metadata
            ≡ not (matches value_eq (Filter.in_set name values) metadata))
  unfolding matches
  negations name value values metadata = (refl, not_in_lem (get_field metadata name) values)

  join_parts-matches :
      (parts : Filters) (metadata : Fields)
      → matches value_eq (join_parts parts) metadata ≡ all_match value_eq parts metadata
  unfolding join_parts matches
  join_parts-matches Filters.nil metadata = refl
  join_parts-matches (Filters.cons p Filters.nil) metadata = ground arith
  join_parts-matches (Filters.cons p (Filters.cons q ps)) metadata = refl

  -- Every field of an object has the same value in the metadata.
  unfoldable pub fields_equal : Fields → Fields → Bool
  fields_equal Fields.end metadata = true
  fields_equal (Fields.field key value rest) metadata =
      field_eq value_eq metadata key value && fields_equal rest metadata

  parse_entries-Flat :
      (fields : Fields)
      → Flat fields
      → (parts : Filters) × (parse_entries fields ≡ ok parts)
        × ((metadata : Fields) → all_match value_eq parts metadata ≡ fields_equal fields metadata)
  unfolding parse_entries fields_equal matches
  parse_entries-Flat Fields.end flat = (Filters.nil, refl, λ metadata. refl)
  parse_entries-Flat (Fields.field key value rest) (plain, scalar, flat) =
      let (parts, parsed, same) = parse_entries-Flat rest flat in
      (
        Filters.cons (Filter.eq key value) parts,
        rw (plain, parse_field-scalar key value scalar, parsed) refl,
        λ metadata. ap (λ b. field_eq value_eq metadata key value && b) (same metadata),
      )

  -- A flat object parses, and the filter holds of exactly the metadata that have its fields.
  pub from_json-Flat :
      (fields : Fields)
      → Flat fields
      → (f : Filter) × (from_json (Value.object fields) ≡ ok f)
        × ((metadata : Fields) → matches value_eq f metadata ≡ fields_equal fields metadata)
  unfolding from_json
  from_json-Flat fields flat =
      let (parts, parsed, same) = parse_entries-Flat fields flat in
      (
        join_parts parts,
        rw parsed refl,
        λ metadata. join_parts-matches parts metadata ∙ same metadata,
      )
