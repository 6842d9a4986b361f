-- ===== src/VectorStore/Filter.antt =====
-- crates/sealstack-vectorstore/src/filter.rs: the evaluation of a filter over a chunk's metadata, and
-- its parser. The equality of JSON values is serde_json's, a parameter of `matches`. A map is visited
-- in the order of its association list.
mod Ast
pub mod Laws
pub mod Errors
unfoldable pub use Ast.*
use sealstack.Prelude.{
  ℕ, Bool, true, false, not, ◌&&◌, ◌||◌, Option, none, some, List, [], ◌∷◌, if◌then◌else◌, ◌==◌,
  Result, ok, err, ◌>>=◌, ok_or,
}
use sealstack.Bytes.{Bytes, codes, bytes_eq}
use sealstack.Ieee.{f64_lt, f64_le}
use sealstack.Json.{Value, Items, Fields, Number, get_field, as_array}

abbrev pub FilterResult : Type 0 → Type 0
FilterResult A = Result FilterParseError A

-- `value.as_f64()`
unfoldable pub as_f64 : Value → Option ℕ
as_f64 (Value.number n) = n.as_f64
as_f64 _ = none

-- A bound that is not given, or that the test holds of.
unfoldable pub within : (ℕ → Bool) → Option ℕ → Bool
within test none = true
within test (some bound) = test bound

module _ (value_eq : Value → Value → Bool) where
  -- `metadata.get(field) == Some(value)`
  unfoldable pub field_eq : Fields → Bytes → Value → Bool
  field_eq metadata name value = elim (get_field metadata name) [
    | none ↦ false
    | some actual ↦ value_eq actual value
  ]

  -- `values.iter().any(|v| v == actual)`
  unfoldable pub any_eq : Value → Items → Bool
  any_eq actual Items.nil = false
  any_eq actual (Items.cons v vs) = value_eq v actual || any_eq actual vs

  -- `values.iter().all(|v| v != actual)`
  unfoldable pub none_eq : Value → Items → Bool
  none_eq actual Items.nil = true
  none_eq actual (Items.cons v vs) = not (value_eq v actual) && none_eq actual vs

  unfoldable mutual
    unfolding field_eq any_eq none_eq as_f64 within

    pub matches : Filter → Fields → Bool
    matches Filter.all metadata = true
    matches (Filter.eq name value) metadata = field_eq metadata name value
    matches (Filter.ne name value) metadata = not (field_eq metadata name value)
    matches (Filter.in_set name values) metadata = elim (get_field metadata name) [
      | none ↦ false
      | some actual ↦ any_eq actual values
    ]
    matches (Filter.not_in name values) metadata = elim (get_field metadata name) [
      | none ↦ true
      | some actual ↦ none_eq actual values
    ]
    matches (Filter.range name gte gt lte lt) metadata = elim (get_field metadata name) [
      | none ↦ false
      | some value ↦ elim (as_f64 value) [
        | none ↦ false
        | some actual ↦
            within (λ g. not (f64_lt actual g)) gte
            && within (λ g. not (f64_le actual g)) gt
            && within (λ l. not (f64_lt l actual)) lte
            && within (λ l. not (f64_le l actual)) lt
      ]
    ]
    matches (Filter.and parts) metadata = all_match parts metadata
    matches (Filter.or parts) metadata = any_match parts metadata
    matches (Filter.not inner) metadata = not (matches inner metadata)

    pub all_match : Filters → Fields → Bool
    all_match Filters.nil metadata = true
    all_match (Filters.cons p ps) metadata = matches p metadata && all_match ps metadata

    pub any_match : Filters → Fields → Bool
    any_match Filters.nil metadata = false
    any_match (Filters.cons p ps) metadata = matches p metadata || any_match ps metadata

unfoldable mutual
  pub is_qdrant_native : Filter → Bool
  is_qdrant_native (Filter.and parts) = all_native parts
  is_qdrant_native (Filter.or parts) = false
  is_qdrant_native (Filter.not inner) = false
  is_qdrant_native _ = true

  pub all_native : Filters → Bool
  all_native Filters.nil = true
  all_native (Filters.cons p ps) = is_qdrant_native p && all_native ps

-- `key.starts_with('$')`
unfoldable pub is_operator : Bytes → Bool
is_operator [] = false
is_operator (c ∷ rest) = c == 36

-- `RangeBuilder`
pub record RangeBuilder : Type 0 where
  pub gte : Option ℕ
  pub gt : Option ℕ
  pub lte : Option ℕ
  pub lt : Option ℕ

unfoldable pub is_some : Option ℕ → Bool
is_some none = false
is_some (some a) = true

unfoldable pub any_bound : RangeBuilder → Bool
unfolding is_some
any_bound r = is_some r.gte || is_some r.gt || is_some r.lte || is_some r.lt

-- The operators that `parse_field_ops` knows.
pub data FieldOp : Type 0 where
  equal not_equal one_of none_of at_least above at_most below : FieldOp

unfoldable pub field_op : Bytes → Option FieldOp
field_op op =
    if bytes_eq op (codes "$eq")
    then some FieldOp.equal
    else if bytes_eq op (codes "$ne")
    then some FieldOp.not_equal
    else if bytes_eq op (codes "$in")
    then some FieldOp.one_of
    else if bytes_eq op (codes "$nin")
    then some FieldOp.none_of
    else if bytes_eq op (codes "$gte")
    then some FieldOp.at_least
    else if bytes_eq op (codes "$gt")
    then some FieldOp.above
    else if bytes_eq op (codes "$lte")
    then some FieldOp.at_most
    else if bytes_eq op (codes "$lt")
    then some FieldOp.below
    else none

abbrev array_of : Bytes → Value → FilterResult Items
array_of op value = ok_or (as_array value) (FilterParseError.bad_operator op)

unfoldable as_number : Bytes → Value → FilterResult ℕ
unfolding as_f64
as_number op value = ok_or (as_f64 value) (FilterParseError.bad_operator op)

unfoldable pub append : Filters → Filter → Filters
append Filters.nil p = Filters.cons p Filters.nil
append (Filters.cons q ps) p = Filters.cons q (append ps p)

-- One operator: what it pushes, or the bound it sets.
unfoldable pub apply_op :
    Bytes → FieldOp → Bytes → Value → Filters → RangeBuilder → FilterResult (Filters × RangeBuilder)
unfolding as_number append
apply_op name FieldOp.equal op v ps r = ok (append ps (Filter.eq name v), r)
apply_op name FieldOp.not_equal op v ps r = ok (append ps (Filter.ne name v), r)
apply_op name FieldOp.one_of op v ps r = do
  values ← array_of op v
  ok (append ps (Filter.in_set name values), r)
apply_op name FieldOp.none_of op v ps r = do
  values ← array_of op v
  ok (append ps (Filter.not_in name values), r)
apply_op name FieldOp.at_least op v ps r = do n ← as_number op v; ok (ps, record r { gte = some n })
apply_op name FieldOp.above op v ps r = do n ← as_number op v; ok (ps, record r { gt = some n })
apply_op name FieldOp.at_most op v ps r = do n ← as_number op v; ok (ps, record r { lte = some n })
apply_op name FieldOp.below op v ps r = do n ← as_number op v; ok (ps, record r { lt = some n })

-- The loop of `parse_field_ops`.
unfoldable pub field_ops :
    Bytes → Fields → Filters → RangeBuilder → FilterResult (Filters × RangeBuilder)
unfolding apply_op field_op
field_ops name Fields.end ps r = ok (ps, r)
field_ops name (Fields.field op v rest) ps r = do
  known ← ok_or (field_op op) (FilterParseError.unknown_operator op)
  (ps', r') ← apply_op name known op v ps r
  field_ops name rest ps' r'

-- No part is `All`, one part stands alone, several are joined.
unfoldable pub join_parts : Filters → Filter
join_parts Filters.nil = Filter.all
join_parts (Filters.cons p Filters.nil) = p
join_parts ps = Filter.and ps

unfoldable pub with_range : Bytes → Filters → RangeBuilder → Filters
unfolding any_bound append
with_range name ps r =
    if any_bound r then append ps (Filter.range name r.gte r.gt r.lte r.lt) else ps

unfoldable pub parse_field_ops : Bytes → Fields → FilterResult Filter
unfolding field_ops join_parts with_range
parse_field_ops name ops = do
  (ps, r) ← field_ops name ops Filters.nil (record { gte = none; gt = none; lte = none; lt = none })
  ok (join_parts (with_range name ps r))

unfoldable pub has_any_op : Fields → Bool
unfolding is_operator
has_any_op Fields.end = false
has_any_op (Fields.field k v rest) = is_operator k || has_any_op rest

unfoldable pub parse_field : Bytes → Value → FilterResult Filter
unfolding has_any_op parse_field_ops
parse_field name (Value.object ops) =
    if has_any_op ops then parse_field_ops name ops else ok (Filter.eq name (Value.object ops))
parse_field name value = ok (Filter.eq name value)

-- The arms of `parse_kv`.
pub data KeyKind : Type 0 where
  all_of any_of negated unknown plain : KeyKind

unfoldable pub key_kind : Bytes → KeyKind
unfolding is_operator
key_kind key =
    if bytes_eq key (codes "$and")
    then KeyKind.all_of
    else if bytes_eq key (codes "$or")
    then KeyKind.any_of
    else if bytes_eq key (codes "$not")
    then KeyKind.negated
    else if is_operator key
    then KeyKind.unknown
    else KeyKind.plain

-- The arms of `parse_kv`, given what `from_json` and `parse_compound` make of the value; a strict
-- language runs only the one that the key asks for.
unfoldable pub parse_kv :
    KeyKind → Bytes → Value → FilterResult Filter → FilterResult Filters → FilterResult Filter
unfolding parse_field
parse_kv KeyKind.all_of key value inner compound = do parts ← compound; ok (Filter.and parts)
parse_kv KeyKind.any_of key value inner compound = do parts ← compound; ok (Filter.or parts)
parse_kv KeyKind.negated key value inner compound = do f ← inner; ok (Filter.not f)
parse_kv KeyKind.unknown key value inner compound = err (FilterParseError.unknown_operator key)
parse_kv KeyKind.plain key value inner compound = parse_field key value

unfoldable mutual
  unfolding parse_kv key_kind join_parts

  pub from_json : Value → FilterResult Filter
  from_json (Value.object fields) = do parts ← parse_entries fields; ok (join_parts parts)
  from_json _ = err FilterParseError.not_object

  pub parse_entries : Fields → FilterResult Filters
  parse_entries Fields.end = ok Filters.nil
  parse_entries (Fields.field key value rest) = do
    part ← parse_kv (key_kind key) key value (from_json value) (parse_compound key value)
    parts ← parse_entries rest
    ok (Filters.cons part parts)

  pub parse_compound : Bytes → Value → FilterResult Filters
  parse_compound key (Value.array items) = parse_items items
  parse_compound key _ = err (FilterParseError.bad_operator key)

  pub parse_items : Items → FilterResult Filters
  parse_items Items.nil = ok Filters.nil
  parse_items (Items.cons v vs) = do
    part ← from_json v
    parts ← parse_items vs
    ok (Filters.cons part parts)
