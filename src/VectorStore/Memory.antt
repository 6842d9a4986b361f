-- ===== src/VectorStore/Memory.antt =====
-- crates/sealstack-vectorstore/src/memory.rs: the in-process store. A collection map is an
-- association list; an `f32` and its arithmetic, the standard library's sort and the equality of
-- JSON values are parameters. An operation that changes the store returns it, on an error too, since
-- what was written before the error stays.
pub mod Chunks
pub mod Search
pub mod Invariant
use sealstack.Prelude.{
  ℕ, Bool, true, false, not, ◌&&◌, ◌||◌, Option, none, some, List, [], ◌∷◌, if◌then◌else◌, ◌==◌,
  map, Result, ok, err, ◌>>=◌, ok_or, length, take,
}
use sealstack.Bytes.{Bytes, bytes_eq}
use sealstack.Json.{Value, Fields}
use sealstack.VectorStore.Filter.{FilterResult, Filter, matches, from_json}

-- `SealStackError`, without its texts.
pub data StoreError : Type 0 where
  validation not_found : StoreError

abbrev pub StoreResult : Type 0 → Type 0
StoreResult A = Result StoreError A

pub data Distance : Type 0 where
  cosine dot euclidean : Distance

module _ (F : Type 0) where
  pub record Chunk : Type 0 where
    pub id : ℕ
    pub content : Bytes
    pub embedding : List F
    pub metadata : Fields

  pub record CollectionState : Type 0 where
    pub dims : ℕ
    pub distance : Distance
    pub chunks : List Chunk

  pub record SearchResult : Type 0 where
    pub id : ℕ
    pub score : F
    pub content : Bytes
    pub metadata : Fields

  abbrev pub Store : Type 0
  Store = List (Bytes × CollectionState)

-- What `std` gives for `f32`: `sum` of an iterator, `clamp(-1.0, 1.0)`, `== 0.0`, `powi(2)`.
pub record Floats (F : Type 0) : Type 0 where
  pub zero : F
  pub mul : F → F → F
  pub sub : F → F → F
  pub div : F → F → F
  pub sum : List F → F
  pub sqrt : F → F
  pub square : F → F
  pub neg : F → F
  pub clamp : F → F
  pub is_zero : F → Bool

unfoldable pub mem_id : ℕ → List ℕ → Bool
mem_id i [] = false
mem_id i (j ∷ js) = i == j || mem_id i js

unfoldable pub accepted : FilterResult Filter → Option Filter
accepted (ok Filter.all) = none
accepted (ok f) = some f
accepted (err e) = none

-- The filter that `search` applies: none where it is `All` or is rejected by the parser.
unfoldable pub typed_filter : Option Value → Option Filter
unfolding accepted
typed_filter none = none
typed_filter (some v) = accepted (from_json v)

module _ {F : Type 0} where
  -- `self.collections.get(name)`
  unfoldable pub lookup : Store F → Bytes → Option (CollectionState F)
  lookup [] name = none
  lookup ((k, state) ∷ rest) name =
      let later = lookup rest name in if bytes_eq k name then some state else later

  -- The entry of `name` replaced, or added where there is none.
  unfoldable pub insert : Store F → Bytes → CollectionState F → Store F
  insert [] name state = (name, state) ∷ []
  insert ((k, old) ∷ rest) name state =
      let later = insert rest name state in
      if bytes_eq k name then (k, state) ∷ rest else (k, old) ∷ later

  unfoldable pub remove : Store F → Bytes → Store F
  remove [] name = []
  remove ((k, old) ∷ rest) name =
      let later = remove rest name in if bytes_eq k name then later else (k, old) ∷ later

  unfoldable pub ensure : Store F → Bytes → ℕ → Distance → Store F × StoreResult Unit
  unfolding lookup insert
  ensure store name dims distance = elim (lookup store name) [
    | some existing ↦
        if not (existing.dims == dims) then (store, err StoreError.validation) else (store, ok tt)
    | none ↦ (insert store name (record { dims = dims; distance = distance; chunks = [] }), ok tt)
  ]

  -- The chunk with the id of `new` replaced, or `new` pushed where there is none.
  unfoldable pub upsert_chunk : List (Chunk F) → Chunk F → List (Chunk F)
  upsert_chunk [] new = new ∷ []
  upsert_chunk (c ∷ cs) new =
      let later = upsert_chunk cs new in if c.id == new.id then new ∷ cs else c ∷ later

  -- The loop of `upsert`: it stops at the first chunk of a wrong dimension.
  unfoldable pub upsert_chunks :
      ℕ → List (Chunk F) → List (Chunk F) → List (Chunk F) × StoreResult Unit
  unfolding upsert_chunk
  upsert_chunks dims chunks [] = (chunks, ok tt)
  upsert_chunks dims chunks (new ∷ rest) =
      let later = upsert_chunks dims (upsert_chunk chunks new) rest in
      if not (length new.embedding == dims) then (chunks, err StoreError.validation) else later

  unfoldable pub with_chunks : CollectionState F → List (Chunk F) → CollectionState F
  with_chunks state cs = record state { chunks = cs }

  unfoldable pub upsert : Store F → Bytes → List (Chunk F) → Store F × StoreResult Unit
  unfolding upsert_chunks with_chunks insert lookup
  upsert store name chunks = elim (lookup store name) [
    | none ↦ (store, err StoreError.not_found)
    | some state ↦
        let r = upsert_chunks state.dims state.chunks chunks in
        (insert store name (with_chunks state r.0), r.1)
  ]

  -- `chunks.retain(|c| !id_set.contains(&c.id))`
  unfoldable pub retain : List ℕ → List (Chunk F) → List (Chunk F)
  unfolding mem_id
  retain ids [] = []
  retain ids (c ∷ cs) = let later = retain ids cs in if mem_id c.id ids then later else c ∷ later

  unfoldable pub delete : Store F → Bytes → List ℕ → Store F × StoreResult Unit
  unfolding retain with_chunks insert lookup
  delete store name [] = (store, ok tt)
  delete store name (i ∷ ids) = elim (lookup store name) [
    | none ↦ (store, err StoreError.not_found)
    | some state ↦ (insert store name (with_chunks state (retain (i ∷ ids) state.chunks)), ok tt)
  ]

  unfoldable pub count : Store F → Bytes → StoreResult ℕ
  unfolding lookup
  count store name = do
    state ← ok_or (lookup store name) StoreError.not_found
    ok (length state.chunks)

  unfoldable pub passes : (Value → Value → Bool) → Option Filter → Chunk F → Bool
  passes value_eq none c = true
  passes value_eq (some f) c = matches value_eq f c.metadata

  unfoldable pub hit : F × Chunk F → SearchResult F
  hit (s, c) = record { id = c.id; score = s; content = c.content; metadata = c.metadata }

  module _ (floats : Floats F) where
    unfoldable pub zip_with : (F → F → F) → List F → List F → List F
    zip_with f (x ∷ xs) (y ∷ ys) = f x y ∷ zip_with f xs ys
    zip_with f _ _ = []

    unfoldable pub dot_product : List F → List F → F
    unfolding zip_with
    dot_product a b = floats.sum (zip_with floats.mul a b)

    unfoldable pub norm : List F → F
    unfolding dot_product
    norm a = floats.sqrt (dot_product a a)

    unfoldable pub cosine_similarity : List F → List F → F
    unfolding norm
    cosine_similarity a b =
        let denom = floats.mul (norm a) (norm b) in
        if floats.is_zero denom
        then floats.zero
        else floats.clamp (floats.div (dot_product a b) denom)

    unfoldable pub euclidean_distance : List F → List F → F
    unfolding zip_with
    euclidean_distance a b =
        floats.sqrt (floats.sum (zip_with (λ x y. floats.square (floats.sub x y)) a b))

    unfoldable pub score_of : Distance → List F → List F → F
    unfolding cosine_similarity euclidean_distance dot_product
    score_of Distance.cosine q e = cosine_similarity q e
    score_of Distance.dot q e = dot_product q e
    score_of Distance.euclidean q e = floats.neg (euclidean_distance q e)

    module _ (value_eq : Value → Value → Bool) where
      unfoldable pub scored :
          CollectionState F → List F → Option Filter → List (Chunk F) → List (F × Chunk F)
      unfolding passes score_of
      scored state q f [] = []
      scored state q f (c ∷ cs) =
          let later = scored state q f cs in
          if passes value_eq f c then (score_of state.distance q c.embedding, c) ∷ later else later

      -- `search`, past its parse of the filter.
      unfoldable pub search_with :
          (List (F × Chunk F) → List (F × Chunk F))
          → Store F
          → Bytes
          → List F
          → ℕ
          → Option Filter
          → StoreResult (List (SearchResult F))
      unfolding lookup scored hit
      search_with sort_by_score store name q top_k f = do
        state ← ok_or (lookup store name) StoreError.not_found
        if not (length q == state.dims)
            then err StoreError.validation
            else ok (map hit (take top_k (sort_by_score (scored state q f state.chunks))))

      unfoldable pub search :
          (List (F × Chunk F) → List (F × Chunk F))
          → Store F
          → Bytes
          → List F
          → ℕ
          → Option Value
          → StoreResult (List (SearchResult F))
      unfolding search_with typed_filter
      search sort_by_score store name q top_k filter =
          search_with sort_by_score store name q top_k (typed_filter filter)
