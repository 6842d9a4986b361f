-- ===== src/VectorStore/Tests.antt =====
-- Filters parsed and evaluated, and a small store.
use sealstack.VectorStore.Filter.Laws.{has_operators, fields_equal, negations, from_json-Flat}
use sealstack.VectorStore.Filter.Errors.{from_json-HasUnknown}
use sealstack.Json.{get_field, Value, Items, Fields}
use sealstack.VectorStore.Filter.{key_kind, Filter, FilterParseError, from_json, matches, Filters}
use mathlib.Core.List.{Memᴰ}
use sealstack.Prelude.{
  ℕ, ◌≡◌, ◌≤◌, ◌+◌, ◌*◌, refl, Bool, false, not, none, some, List, [], ◌∷◌, ok, err, inl,
}
use sealstack.Bytes.{Bytes, bytes_eq, codes}
use sealstack.VectorStore.Memory.{
  Chunk, CollectionState, Store, Floats, Distance, upsert_chunks, retain, mem_id, search, lookup,
  hit,
}
use sealstack.VectorStore.Memory.Chunks.{
  find_chunk, latest, find_chunk-upsert_chunks, find_chunk-retain,
}
use sealstack.VectorStore.Memory.Search.{Source, search_sound}
use sealstack.VectorStore.Memory.Invariant.{Operation, SoundStore, apply_all, reachable-SoundStore}

-- Equality on texts, enough for the values here.
abbrev same_text : Value → Value → Bool
same_text (Value.string s) (Value.string t) = bytes_eq s t
same_text _ _ = false

abbrev acme : Fields
acme = Fields.field (codes "tenant") (Value.string (codes "acme")) Fields.end

abbrev bad_operator : Fields
bad_operator = Fields.field (codes "$xor") Value.null acme

negations_example :
    (matches same_text (Filter.ne (codes "tenant") (Value.string (codes "x"))) acme
      ≡ not (matches same_text (Filter.eq (codes "tenant") (Value.string (codes "x"))) acme))
    × (matches same_text (Filter.not_in (codes "team") Items.nil) acme
        ≡ not (matches same_text (Filter.in_set (codes "team") Items.nil) acme))
negations_example = (
  (negations same_text (codes "tenant") (Value.string (codes "x")) Items.nil acme).0,
  (negations same_text (codes "team") (Value.string (codes "x")) Items.nil acme).1,
)

from_json-Flat_example :
    (f : Filter) × (from_json (Value.object acme) ≡ ok f)
    × ((metadata : Fields) → matches same_text f metadata ≡ fields_equal same_text acme metadata)
unfolding key_kind bytes_eq has_operators
from_json-Flat_example = from_json-Flat same_text acme (refl, refl, tt)

from_json-HasUnknown_example :
    (e : FilterParseError) × (from_json (Value.object bad_operator) ≡ err e)
unfolding bytes_eq
from_json-HasUnknown_example = from_json-HasUnknown bad_operator (inl (refl, refl, refl, refl))

range_runs :
    from_json (
      Value.object (
        Fields.field
          (codes "n")
          (Value.object (
            Fields.field
              (codes "$gte")
              (Value.number (record { as_i64 = some 3; as_f64 = some 7 }))
              (Fields.field (codes "$ne") Value.null Fields.end)))
          Fields.end))
    ≡ ok (
        Filter.and (
          Filters.cons
            (Filter.ne (codes "n") Value.null)
            (Filters.cons (Filter.range (codes "n") (some 7) none none none) Filters.nil)))
unfolding from_json bytes_eq
range_runs = refl

abbrev chunk : ℕ → Bytes → Chunk ℕ
chunk i text = record { id = i; content = text; embedding = 3 ∷ []; metadata = acme }

find_chunk-upsert_chunks_example :
    find_chunk 7
      (upsert_chunks 1
        (chunk 7 (codes "old") ∷ [])
        (chunk 7 (codes "new") ∷ chunk 8 (codes "other") ∷ [])).0
    ≡ some (chunk 7 (codes "new"))
unfolding upsert_chunks latest
find_chunk-upsert_chunks_example =
    find_chunk-upsert_chunks 1 7 (chunk 7 (codes "old") ∷ [])
      (chunk 7 (codes "new") ∷ chunk 8 (codes "other") ∷ []) refl

find_chunk-retain_example :
    find_chunk 7 (retain (7 ∷ []) (chunk 7 (codes "old") ∷ chunk 8 (codes "other") ∷ [])) ≡ none
unfolding mem_id
find_chunk-retain_example =
    find_chunk-retain 7 (7 ∷ []) (chunk 7 (codes "old") ∷ chunk 8 (codes "other") ∷ [])

abbrev operations : List (Operation ℕ)
operations =
    Operation.ensure_collection (codes "docs") 1 Distance.cosine
    ∷ Operation.upsert_into (codes "docs") (chunk 7 (codes "a") ∷ chunk 7 (codes "b") ∷ [])
    ∷ Operation.delete_from (codes "docs") (9 ∷ [])
    ∷ []

reachable-SoundStore_example : SoundStore (apply_all [] operations)
reachable-SoundStore_example = reachable-SoundStore operations

-- Small whole numbers for floats.
abbrev sum_of : List ℕ → ℕ
sum_of [] = 0
sum_of (x ∷ xs) = x + sum_of xs

abbrev floats : Floats ℕ
floats = record {
  zero = 0;
  mul = λ x y. x * y;
  sub = λ x y. x;
  div = λ x y. x;
  sum = sum_of;
  sqrt = λ x. x;
  square = λ x. x * x;
  neg = λ x. x;
  clamp = λ x. x;
  is_zero = λ x. false;
}

abbrev docs : CollectionState ℕ
docs = record { dims = 1; distance = Distance.dot; chunks = chunk 7 (codes "a") ∷ [] }

abbrev store : Store ℕ
store = (codes "docs", docs) ∷ []

search_sound_example :
    (1 ≤ 5)
    × ((state : CollectionState ℕ) × (lookup store (codes "docs") ≡ some state)
        × Source floats same_text state
            (2 ∷ [])
            (some (Value.object acme))
            (hit (6, chunk 7 (codes "a"))))
unfolding search from_json matches key_kind bytes_eq get_field lookup
search_sound_example =
    search_sound floats same_text (λ xs. xs) (λ xs x m. m) store (codes "docs") (2 ∷ []) 5
      (some (Value.object acme)) (hit (6, chunk 7 (codes "a"))) refl (Memᴰ.head refl)

-- A filter with an unknown operator is dropped, not refused: the chunk is found all the same.
search_runs :
    search floats same_text
      (λ xs. xs)
      store
      (codes "docs")
      (2 ∷ [])
      5
      (some (Value.object bad_operator))
    ≡ ok (hit (6, chunk 7 (codes "a")) ∷ [])
unfolding search from_json key_kind bytes_eq lookup
search_runs = refl
