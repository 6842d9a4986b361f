-- ===== src/Engine/Retrieval.antt =====
-- crates/sealstack-engine/src/retrieval.rs: `Retriever::search` around the fusion, with the
-- reranker's interface of rerank.rs. The embedder, the two searches, the reranker, the age of a
-- candidate and the arithmetic of `f32` are parameters.
pub mod Search
mod Tests
use sealstack.Prelude.{
  ℕ, Option, none, some, List, [], ◌∷◌, map, Result, ok, err, ◌>>=◌, ok_or, take,
}
use sealstack.Bytes.{Bytes}
use sealstack.Engine.Fusion.{RawCandidate, rrf_fuse}
use sealstack.Engine.Freshness.{FreshnessDecay, DecayFloats, decay_factor}

module _ (F : Type 0) where
  pub record RetrievedHit : Type 0 where
    pub id : Bytes
    pub score : F
    pub excerpt : Bytes

  pub record RerankCandidate : Type 0 where
    pub id : Bytes
    pub text : Bytes
    pub prior_score : F

  pub record RerankResult : Type 0 where
    pub id : Bytes
    pub score : F

-- What the search calls, and the standard library's order of a hash map and sorts.
pub record Backends (F E V : Type 0) : Type 0 where
  pub embed : Result E (List V)
  pub no_vectors : E
  pub vector_search : V → Result E (List (RawCandidate F))
  pub bm25_search : Result E (List (RawCandidate F))
  pub rerank : List (RerankCandidate F) → Result E (List (RerankResult F))
  pub age : ℕ → ℕ
  pub into_iter : List (Bytes × RawCandidate F) → List (Bytes × RawCandidate F)
  pub sort_raw : List (RawCandidate F) → List (RawCandidate F)
  pub sort_hits : List (RetrievedHit F) → List (RetrievedHit F)

abbrev pub or_empty : {A E : Type 0} → Result E (List A) → List A
or_empty (ok xs) = xs
or_empty (err e) = []

abbrev pub next : {A : Type 0} → List A → Option A
next [] = none
next (x ∷ xs) = some x

module _ {F E V : Type 0} (floats : DecayFloats F) (decay : FreshnessDecay F)
    (backends : Backends F E V) where
  unfoldable pub decayed : RawCandidate F → RawCandidate F
  unfolding decay_factor
  decayed c = elim c.created_at [
    | none ↦ c
    | some ts ↦ record c {
      score = floats.base.mul c.score (decay_factor floats decay (backends.age ts));
    }
  ]

  to_rerank : RawCandidate F → RerankCandidate F
  to_rerank c = record { id = c.id; text = c.content; prior_score = c.score }

  -- `decayed.into_iter().zip(reranked.iter()).map(..)`
  unfoldable pub align : List (RawCandidate F) → List (RerankResult F) → List (RetrievedHit F)
  align [] rs = []
  align (c ∷ cs) [] = []
  align (c ∷ cs) (r ∷ rs) = record { id = c.id; score = r.score; excerpt = c.content } ∷ align cs rs

  unfoldable pub rank :
      F → ℕ → ℕ → List (RawCandidate F) → List (RawCandidate F) → Result E (List (RetrievedHit F))
  unfolding decayed to_rerank align
  rank alpha candidate_k top_k [] [] = ok []
  rank alpha candidate_k top_k vector_hits bm25_hits = do
    let cs =
        map decayed
          (rrf_fuse floats.base backends.into_iter backends.sort_raw vector_hits bm25_hits alpha)
    reranked ← backends.rerank (map to_rerank (take candidate_k cs))
    ok (take top_k (backends.sort_hits (align cs reranked)))

  -- `alpha` is the clamped weight of the schema or the configuration.
  unfoldable pub search : F → ℕ → ℕ → Result E (List (RetrievedHit F))
  unfolding rank
  search alpha candidate_k top_k = do
    vectors ← backends.embed
    embedding ← ok_or (next vectors) backends.no_vectors
    rank alpha candidate_k top_k (or_empty (backends.vector_search embedding))
        (or_empty backends.bm25_search)
