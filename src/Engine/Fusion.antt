-- ===== src/Engine/Fusion.antt =====
-- crates/sealstack-engine/src/retrieval.rs: the fusion of the two searches' rankings. The arithmetic of
-- `f32`, the order in which a hash map gives its entries and the standard library's sort are parameters.
pub mod Tracks
pub mod Sound
mod Tests
use sealstack.Prelude.{ℕ, ◌+◌, Bool, Option, none, some, List, [], ◌∷◌, map, if◌then◌else◌}
use sealstack.Bytes.{Bytes, bytes_eq}

module _ (F : Type 0) where
  -- `created_at` is a number of seconds.
  pub record RawCandidate : Type 0 where
    pub id : Bytes
    pub score : F
    pub content : Bytes
    pub created_at : Option ℕ

  -- The entries of `score` and `map`, in the order of their insertion.
  pub record Tables : Type 0 where
    pub scores : List (Bytes × F)
    pub candidates : List (Bytes × RawCandidate)

-- `f32`: 0.0, 1.0, K, `as f32`, and the operators.
pub record Floats (F : Type 0) : Type 0 where
  pub zero : F
  pub one : F
  pub k : F
  pub of_nat : ℕ → F
  pub add : F → F → F
  pub sub : F → F → F
  pub mul : F → F → F
  pub div : F → F → F

module _ {F : Type 0} where
  -- `map.entry(id).or_insert_with(..)`
  unfoldable pub or_insert :
      RawCandidate F → List (Bytes × RawCandidate F) → List (Bytes × RawCandidate F)
  or_insert c [] = (c.id, c) ∷ []
  or_insert c ((id, x) ∷ rest) =
      let later = or_insert c rest in if bytes_eq id c.id then (id, x) ∷ rest else (id, x) ∷ later

module _ {F : Type 0} (floats : Floats F) where
  -- `*score.entry(id).or_insert(0.0) += s`
  unfoldable pub add_score : Bytes → F → List (Bytes × F) → List (Bytes × F)
  add_score id s [] = (id, floats.add floats.zero s) ∷ []
  add_score id s ((x, t) ∷ rest) =
      let later = add_score id s rest in
      if bytes_eq x id then (x, floats.add t s) ∷ rest else (x, t) ∷ later

  -- `*score.get(id).unwrap_or(&0.0)`
  unfoldable pub score_of : List (Bytes × F) → Bytes → F
  score_of [] id = floats.zero
  score_of ((x, t) ∷ rest) id = if bytes_eq x id then t else score_of rest id

  abbrev pub rank_score : F → ℕ → F
  rank_score weight rank =
      floats.mul weight
        (floats.div floats.one (floats.add (floats.add floats.k (floats.of_nat rank)) floats.one))

  -- The loop over one list of hits, the first of which has the rank `rank`.
  unfoldable pub add_hits : F → ℕ → List (RawCandidate F) → Tables F → Tables F
  unfolding add_score or_insert
  add_hits weight rank [] t = t
  add_hits weight rank (c ∷ hits) t = add_hits weight (rank + 1) hits record {
    scores = add_score c.id (rank_score weight rank) t.scores;
    candidates = or_insert c t.candidates;
  }

  unfoldable pub rescore : List (Bytes × F) → Bytes × RawCandidate F → RawCandidate F
  unfolding score_of
  rescore scores (id, c) = record c { score = score_of scores id }

  unfoldable pub tables : List (RawCandidate F) → List (RawCandidate F) → F → Tables F
  unfolding add_hits
  tables vec_hits bm25_hits alpha =
      add_hits (floats.sub floats.one alpha) 0 bm25_hits
        (add_hits alpha 0 vec_hits (record { scores = []; candidates = [] }))

  unfoldable pub rrf_fuse :
      (List (Bytes × RawCandidate F) → List (Bytes × RawCandidate F))
      → (List (RawCandidate F) → List (RawCandidate F))
      → List (RawCandidate F)
      → List (RawCandidate F)
      → F
      → List (RawCandidate F)
  unfolding tables rescore
  rrf_fuse into_iter sort_by_score vec_hits bm25_hits alpha =
      let t = tables vec_hits bm25_hits alpha in
      sort_by_score (map (rescore t.scores) (into_iter t.candidates))
