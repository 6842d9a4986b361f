-- ===== src/Engine/Retrieval/Search.antt =====
-- What a search of crates/sealstack-engine/src/retrieval.rs returns.
use mathlib.Core.Path.{subst}
use mathlib.Core.List.{Memᴰ}
use sealstack.Prelude.{
  ℕ, ◌≤◌, ◌≡◌, refl, sym, ap, ◌∙◌, Bool-cases, Option-cases, inl, inr, some, List, [], ◌∷◌, ◌++◌,
  map, arith, ok, ok_or, >>=-eq-ok, ok_inj, take, length, length-take_le, Memᴰ-map, Memᴰ-take,
}
use sealstack.Bytes.{Bytes, bytes_eq}
use sealstack.Engine.Fusion.{RawCandidate, rrf_fuse}
use sealstack.Engine.Fusion.Tracks.{first_hit}
use sealstack.Engine.Fusion.Sound.{rrf_fuse_sound}
use sealstack.Engine.Freshness.{FreshnessDecay, DecayFloats}
use sealstack.Engine.Retrieval.{
  RetrievedHit, RerankResult, Backends, or_empty, next, decayed, align, rank, search,
}
use mathlib.Core.List.Memᴰ

module _ {F : Type 0} where
  -- A hit has the id and the text of one of the candidates.
  pub record Origin (raws : List (RawCandidate F)) (h : RetrievedHit F) : Type 0 where
    pub raw : RawCandidate F
    pub listed : Memᴰ raw raws
    pub same_id : h.id ≡ raw.id
    pub same_text : h.excerpt ≡ raw.content

  first_hit-Memᴰ :
      (hits : List (RawCandidate F)) (id : Bytes) (c : RawCandidate F)
      → first_hit hits id ≡ some c
      → Memᴰ c hits
  first_hit-Memᴰ [] id c h = cc
  first_hit-Memᴰ (x ∷ hits) id c h = elim (Bool-cases (bytes_eq x.id id)) [
    | inl same ↦ let here : c ≡ x = ground arith in Memᴰ.head here
    | inr other ↦ Memᴰ.tail (first_hit-Memᴰ hits id c (ground arith))
  ]

next-eq-ok :
    {V E : Type 0} (vectors : List V) (e : E) {v : V}
    → ok_or (next vectors) e ≡ ok v
    → (vs : List V) × (vectors ≡ v ∷ vs)
next-eq-ok [] e h = cc
next-eq-ok (x ∷ vs) e h = (vs, ap (λ y. y ∷ vs) (ok_inj h))

module _ {F E V : Type 0} (floats : DecayFloats F) (decay : FreshnessDecay F)
    (backends : Backends F E V) where
  decayed-same :
      (c : RawCandidate F)
      → ((decayed floats decay backends c).id ≡ c.id)
        × ((decayed floats decay backends c).content ≡ c.content)
  unfolding decayed
  decayed-same c = elim (Option-cases c.created_at) [
    | inl missing ↦ rw missing (refl, refl)
    | inr (ts, there) ↦ rw there (refl, refl)
  ]

  Origin-align :
      (cs : List (RawCandidate F)) (rs : List (RerankResult F)) (h : RetrievedHit F)
      → Memᴰ h (align floats decay backends cs rs)
      → Origin cs h
  unfolding align
  Origin-align [] rs h m = absurd (Memᴰ.not-nil m)
  Origin-align (c ∷ cs) [] h m = absurd (Memᴰ.not-nil m)
  Origin-align (c ∷ cs) (r ∷ rs) h (Memᴰ.head e) = record {
    raw = c;
    listed = Memᴰ.head refl;
    same_id = ap (λ x. x.id) e;
    same_text = ap (λ x. x.excerpt) e;
  }
  Origin-align (c ∷ cs) (r ∷ rs) h (Memᴰ.tail m) =
      let o = Origin-align cs rs h m in
      record {
        raw = o.raw;
        listed = Memᴰ.tail o.listed;
        same_id = o.same_id;
        same_text = o.same_text;
      }

  module _
      (listed : (m : List (Bytes × RawCandidate F)) (p : Bytes × RawCandidate F)
        → Memᴰ p (backends.into_iter m)
        → Memᴰ p m)
      (sorted : (cs : List (RawCandidate F)) (c : RawCandidate F)
        → Memᴰ c (backends.sort_raw cs)
        → Memᴰ c cs)
      (hits_sorted : (hs : List (RetrievedHit F)) (h : RetrievedHit F)
        → Memᴰ h (backends.sort_hits hs)
        → Memᴰ h hs) where
    Origin-fused :
        (vs bs : List (RawCandidate F)) (alpha : F) (h : RetrievedHit F)
        → Origin
            (map
              (decayed floats decay backends)
              (rrf_fuse floats.base backends.into_iter backends.sort_raw vs bs alpha))
            h
        → Origin (vs ++ bs) h
    Origin-fused vs bs alpha h o =
        let fused = rrf_fuse floats.base backends.into_iter backends.sort_raw vs bs alpha in
        let (c, there, e) = Memᴰ-map (decayed floats decay backends) fused o.raw o.listed in
        let (hit, first, same) =
          rrf_fuse_sound floats.base backends.into_iter backends.sort_raw listed sorted vs bs alpha
            c there in
        let (ids, texts) = decayed-same c in
        record {
          raw = hit;
          listed = first_hit-Memᴰ (vs ++ bs) hit.id hit first;
          same_id = o.same_id ∙ ap (λ x. x.id) e ∙ ids ∙ ap (λ x. x.id) same;
          same_text = o.same_text ∙ ap (λ x. x.content) e ∙ texts ∙ ap (λ x. x.content) same;
        }

    best_sound :
        (vs bs : List (RawCandidate F)) (alpha : F) (top_k : ℕ) (rs : List (RerankResult F))
        {hits : List (RetrievedHit F)}
        → take top_k (
            backends.sort_hits (
              align floats decay backends
                (map
                  (decayed floats decay backends)
                  (rrf_fuse floats.base backends.into_iter backends.sort_raw vs bs alpha))
                rs))
          ≡ hits
        → (h : RetrievedHit F) → Memᴰ h hits
        → (length hits ≤ top_k) × Origin (vs ++ bs) h
    best_sound vs bs alpha top_k rs same h m =
        let cs =
          map (decayed floats decay backends)
            (rrf_fuse floats.base backends.into_iter backends.sort_raw vs bs alpha) in
        let hs = backends.sort_hits (align floats decay backends cs rs) in
        (
          subst (λ l. length l ≤ top_k) same (length-take_le top_k hs),
          Origin-fused vs bs alpha h (
              Origin-align cs rs h (
                hits_sorted (align floats decay backends cs rs) h
                  (Memᴰ-take top_k hs h (subst (Memᴰ h) (sym same) m)))),
        )

    rank_sound :
        (alpha : F) (candidate_k top_k : ℕ) (vs bs : List (RawCandidate F))
        {hits : List (RetrievedHit F)} (h : RetrievedHit F)
        → rank floats decay backends alpha candidate_k top_k vs bs ≡ ok hits
        → Memᴰ h hits
        → (length hits ≤ top_k) × Origin (vs ++ bs) h
    unfolding rank
    rank_sound alpha candidate_k top_k [] [] h found m =
        absurd (Memᴰ.not-nil (subst (Memᴰ h) (sym (ok_inj found)) m))
    rank_sound alpha candidate_k top_k [] (b ∷ bs) h found m =
        let (rs, _, same) = >>=-eq-ok (backends.rerank _) _ found in
        best_sound [] (b ∷ bs) alpha top_k rs (ok_inj same) h m
    rank_sound alpha candidate_k top_k (v ∷ vs) bs h found m =
        let (rs, _, same) = >>=-eq-ok (backends.rerank _) _ found in
        best_sound (v ∷ vs) bs alpha top_k rs (ok_inj same) h m

    -- A search that succeeds returns at most `top_k` hits, and each of them has the id and the text of
    -- one candidate that the vector search, for the first vector of the query, or the text search gave;
    -- a search that failed gave none. The map and the sorts give nothing but what is in them.
    pub search-Origin :
        (alpha : F) (candidate_k top_k : ℕ) {hits : List (RetrievedHit F)} (h : RetrievedHit F)
        → search floats decay backends alpha candidate_k top_k ≡ ok hits
        → Memᴰ h hits
        → (v : V) × (vs : List V) × (backends.embed ≡ ok (v ∷ vs))
          × (length hits ≤ top_k)
          × Origin (or_empty (backends.vector_search v) ++ or_empty backends.bm25_search) h
    unfolding search
    search-Origin alpha candidate_k top_k h found m =
        let (vectors, embedded, h₁) = >>=-eq-ok backends.embed _ found in
        let (v, first, h₂) = >>=-eq-ok (ok_or (next vectors) backends.no_vectors) _ h₁ in
        let (vs, e) = next-eq-ok vectors backends.no_vectors first in
        let (few, origin) =
          rank_sound alpha candidate_k top_k (or_empty (backends.vector_search v))
            (or_empty backends.bm25_search) h h₂ m in
        (v, vs, embedded ∙ ap ok e, few, origin)
