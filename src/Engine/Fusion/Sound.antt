-- ===== src/Engine/Fusion/Sound.antt =====
-- What the fusion of crates/sealstack-engine/src/retrieval.rs returns.
use mathlib.Core.Path.{subst}
use mathlib.Core.List.{Memᴰ}
use sealstack.Prelude.{
  ℕ, ◌+◌, ◌≡◌, refl, sym, ap, ◌∙◌, false, Bool-cases, inl, inr, some, List, [], ◌∷◌, ◌++◌, map,
  if◌then◌else◌, append_assoc, append-nil, Memᴰ-map, map-Memᴰ,
}
use sealstack.Bytes.{Bytes, bytes_eq, eq_of_bytes_eq, bytes_ne_comm}
use sealstack.Engine.Fusion.Tracks.{
  first_hit, Tracks, Tracks-or_insert, first_hit-id, Firsts-Memᴰ, entry_of, hit_found,
}
use sealstack.Engine.Fusion.{
  RawCandidate, Tables, Floats, or_insert, add_score, score_of, rank_score, add_hits, rescore,
  tables, rrf_fuse,
}

module _ {F : Type 0} (floats : Floats F) where
  -- What the hits with an id add to a score, one after the other: the hit of rank r adds
  -- weight * (1 / (K + r + 1)).
  abbrev pub total : F → ℕ → List (RawCandidate F) → Bytes → F → F
  total weight rank [] id t = t
  total weight rank (c ∷ hits) id t =
      total weight (rank + 1) hits id
        (if bytes_eq c.id id then floats.add t (rank_score floats weight rank) else t)

  score_of-add_score :
      (id x : Bytes) (s : F) (scores : List (Bytes × F))
      → score_of floats (add_score floats id s scores) x ≡ (
          if bytes_eq id x
          then floats.add (score_of floats scores x) s
          else score_of floats scores x)
  unfolding score_of add_score
  score_of-add_score id x s [] = refl
  score_of-add_score id x s ((y, t) ∷ scores) = elim (Bool-cases (bytes_eq y id)) [
    | inl same ↦
        let moved : bytes_eq y x ≡ bytes_eq id x =
          ap (λ z. bytes_eq z x) (eq_of_bytes_eq y id same) in
        elim (Bool-cases (bytes_eq id x)) [
          | inl here ↦ rw (same, moved, here) refl
          | inr elsewhere ↦ rw (same, moved, elsewhere) refl
        ]
    | inr other ↦ elim (Bool-cases (bytes_eq y x)) [
      | inl here ↦
          let apart : bytes_eq id x ≡ false =
            subst (λ z. bytes_eq id z ≡ false) (eq_of_bytes_eq y x here)
              (bytes_ne_comm y id other) in
          rw (other, here, apart) refl
      | inr elsewhere ↦ rw (other, elsewhere) (score_of-add_score id x s scores)
    ]
  ]

  record Built (hits : List (RawCandidate F)) (score : Bytes → F) (t : Tables F) : Type 0 where
    tracks : Tracks hits t.candidates
    scored : (id : Bytes) → score_of floats t.scores id ≡ score id

  Built-add_hits :
      (weight : F) (rank : ℕ) (hits before : List (RawCandidate F)) (score : Bytes → F)
      (t : Tables F)
      → Built before score t
      → Built
          (before ++ hits)
          (λ id. total weight rank hits id (score id))
          (add_hits floats weight rank hits t)
  unfolding add_hits
  Built-add_hits weight rank [] before score t b = rw (append-nil before) b
  Built-add_hits weight rank (c ∷ hits) before score t b =
      let added = rank_score floats weight rank in
      subst
        (λ l.
          Built l (λ id. total weight rank (c ∷ hits) id (score id))
            (add_hits floats weight rank (c ∷ hits) t))
        (append_assoc before (c ∷ []) hits)
        (Built-add_hits weight (rank + 1) hits (before ++ c ∷ [])
          (λ id. if bytes_eq c.id id then floats.add (score id) added else score id)
          record {
            scores = add_score floats c.id added t.scores;
            candidates = or_insert c t.candidates;
          }
          record {
            tracks = Tracks-or_insert before c t.candidates b.tracks;
            scored = λ id. score_of-add_score c.id id added t.scores ∙ rw (b.scored id) refl;
          })

  Built-tables :
      (vec_hits bm25_hits : List (RawCandidate F)) (alpha : F)
      → Built
          (vec_hits ++ bm25_hits)
          (λ id.
            total
              (floats.sub floats.one alpha)
              0
              bm25_hits
              id
              (total alpha 0 vec_hits id floats.zero))
          (tables floats vec_hits bm25_hits alpha)
  unfolding tables score_of
  Built-tables vec_hits bm25_hits alpha =
      Built-add_hits (floats.sub floats.one alpha) 0 bm25_hits vec_hits
        (λ id. total alpha 0 vec_hits id floats.zero)
        (add_hits floats alpha 0 vec_hits (record { scores = []; candidates = [] }))
        (Built-add_hits alpha 0 vec_hits [] (λ id. floats.zero)
          record { scores = []; candidates = [] }
          record { tracks = record { firsts = tt; covers = λ id a. refl }; scored = λ id. refl })

  -- A candidate of the fusion is the first hit with its id, of the vector search's or else of the text
  -- search's, and its score is the sum of what the hits with that id add: alpha / (K + r + 1) for the
  -- vector search's of rank r and (1 - alpha) / (K + r + 1) for the other's. The map and the sort give
  -- nothing but what is in them.
  pub rrf_fuse_sound :
      (into_iter : List (Bytes × RawCandidate F) → List (Bytes × RawCandidate F))
      (sort_by_score : List (RawCandidate F) → List (RawCandidate F))
      → ((m : List (Bytes × RawCandidate F)) (p : Bytes × RawCandidate F)
          → Memᴰ p (into_iter m)
          → Memᴰ p m)
      → ((cs : List (RawCandidate F)) (c : RawCandidate F) → Memᴰ c (sort_by_score cs) → Memᴰ c cs)
      → (vec_hits bm25_hits : List (RawCandidate F)) (alpha : F) (c : RawCandidate F)
      → Memᴰ c (rrf_fuse floats into_iter sort_by_score vec_hits bm25_hits alpha)
      → (hit : RawCandidate F) × (first_hit (vec_hits ++ bm25_hits) hit.id ≡ some hit)
        × (c ≡ record hit {
          score =
              total
                (floats.sub floats.one alpha)
                0
                bm25_hits
                hit.id
                (total alpha 0 vec_hits hit.id floats.zero);
        })
  unfolding rrf_fuse rescore
  rrf_fuse_sound into_iter sort_by_score listed sorted vec_hits bm25_hits alpha c there =
      let t = tables floats vec_hits bm25_hits alpha in
      let b = Built-tables vec_hits bm25_hits alpha in
      let ((id, hit), entry, e) =
        Memᴰ-map (rescore floats t.scores) (into_iter t.candidates) c
          (sorted (map (rescore floats t.scores) (into_iter t.candidates)) c there) in
      let first =
        Firsts-Memᴰ (vec_hits ++ bm25_hits) t.candidates b.tracks.firsts (id, hit)
          (listed t.candidates (id, hit) entry) in
      let same = first_hit-id (vec_hits ++ bm25_hits) id first in
      (
        hit,
        ap (first_hit (vec_hits ++ bm25_hits)) same ∙ first,
        e
            ∙ ap (λ s. record hit { score = s })
                (b.scored id
                  ∙ ap
                      (λ i.
                        total (floats.sub floats.one alpha) 0 bm25_hits i
                          (total alpha 0 vec_hits i floats.zero))
                      (sym same)),
      )

  -- No hit is lost: the fusion has a candidate with the id of every hit of either search, where the map
  -- and the sort give all that is in them.
  pub rrf_fuse_complete :
      (into_iter : List (Bytes × RawCandidate F) → List (Bytes × RawCandidate F))
      (sort_by_score : List (RawCandidate F) → List (RawCandidate F))
      → ((m : List (Bytes × RawCandidate F)) (p : Bytes × RawCandidate F)
          → Memᴰ p m
          → Memᴰ p (into_iter m))
      → ((cs : List (RawCandidate F)) (c : RawCandidate F) → Memᴰ c cs → Memᴰ c (sort_by_score cs))
      → (vec_hits bm25_hits : List (RawCandidate F)) (alpha : F) (hit : RawCandidate F)
      → Memᴰ hit (vec_hits ++ bm25_hits)
      → (c : RawCandidate F) × Memᴰ c
          (rrf_fuse floats into_iter sort_by_score vec_hits bm25_hits alpha)
        × (c.id ≡ hit.id)
  unfolding rrf_fuse rescore
  rrf_fuse_complete into_iter sort_by_score listed sorted vec_hits bm25_hits alpha hit there =
      let t = tables floats vec_hits bm25_hits alpha in
      let b = Built-tables vec_hits bm25_hits alpha in
      elim (entry_of hit.id t.candidates) [
        | inl absent ↦
            absurd (hit_found (vec_hits ++ bm25_hits) hit there (b.tracks.covers hit.id absent))
        | inr ((id, x), entry, same) ↦ (
          rescore floats t.scores (id, x),
          sorted (map (rescore floats t.scores) (into_iter t.candidates)) _ (
              map-Memᴰ (rescore floats t.scores) (into_iter t.candidates) (id, x)
                (listed t.candidates (id, x) entry)),
          first_hit-id (vec_hits ++ bm25_hits) id
                (Firsts-Memᴰ (vec_hits ++ bm25_hits) t.candidates b.tracks.firsts (id, x) entry)
              ∙ same,
        )
      ]
