-- ===== src/Engine/Retrieval/Tests.antt =====
-- A search of crates/sealstack-engine/src/retrieval.rs run, with millionths in place of floats, a
-- reranker that keeps the scores and a text search that fails.
use mathlib.Core.List.{Memᴰ}
use sealstack.Prelude.{
  ℕ, ◌+◌, ◌-◌, ◌*◌, ◌/◌, ◌≡◌, ◌≤◌, refl, some, List, [], ◌∷◌, ◌++◌, map, leb, max, ok, err,
}
use sealstack.Bytes.{Bytes, codes, bytes_eq}
use sealstack.Engine.Fusion.{
  RawCandidate, or_insert, add_score, score_of, add_hits, rescore, tables, rrf_fuse,
}
use sealstack.Engine.Freshness.{FreshnessDecay, DecayFloats, decay_factor}
use sealstack.Engine.Retrieval.{RetrievedHit, Backends, or_empty, decayed, align, rank, search}
use sealstack.Engine.Retrieval.Search.{Origin, search-Origin}

abbrev millionths : DecayFloats ℕ
millionths = record {
  base = record {
    zero = 0;
    one = 1000000;
    k = 60000000;
    of_nat = λ n. n * 1000000;
    add = λ a b. a + b;
    sub = λ a b. a - b;
    mul = λ a b. a * b / 1000000;
    div = λ a b. a * 1000000 / b;
  };
  half = 500000;
  le = leb;
  ge = λ a b. leb b a;
  max = max;
  powf = λ a b. a;
}

abbrev steps : FreshnessDecay ℕ
steps = FreshnessDecay.step (10 ∷ 100 ∷ 1000 ∷ []) (900000 ∷ 500000 ∷ 100000 ∷ [])

decay_runs :
    (decay_factor millionths steps 5 ≡ 1000000)
    × (decay_factor millionths steps 100 ≡ 500000)
    × (decay_factor millionths (FreshnessDecay.linear 500) 250 ≡ 500000)
    × (decay_factor millionths (FreshnessDecay.linear 500) 900 ≡ 0)
unfolding decay_factor
decay_runs = (refl, refl, refl, refl)

abbrev raw : Bytes → RawCandidate ℕ
raw id = record { id = id; score = 0; content = id; created_at = some 100 }

abbrev backends : Backends ℕ ℕ ℕ
backends = record {
  embed = ok (7 ∷ []);
  no_vectors = 1;
  vector_search = λ v. ok (raw (codes "a") ∷ raw (codes "b") ∷ []);
  bm25_search = err 2;
  rerank = λ cs. ok (map (λ c. record { id = c.id; score = c.prior_score }) cs);
  age = λ ts. ts;
  into_iter = λ m. m;
  sort_raw = λ cs. cs;
  sort_hits = λ hs. hs;
}

abbrev best : RetrievedHit ℕ
best = record { id = codes "a"; score = 4098; excerpt = codes "a" }

search_runs : search millionths steps backends 500000 50 1 ≡ ok (best ∷ [])
unfolding search rank decayed align decay_factor rrf_fuse tables add_hits add_score or_insert
    score_of rescore bytes_eq
search_runs = refl

search-Origin_example :
    (v : ℕ) × (vs : List ℕ) × (backends.embed ≡ ok (v ∷ vs))
    × (1 ≤ 1)
    × Origin (or_empty (backends.vector_search v) ++ or_empty backends.bm25_search) best
search-Origin_example =
    search-Origin millionths steps backends (λ m p there. there) (λ cs c there. there)
      (λ hs h there. there) 500000 50 1 best search_runs (Memᴰ.head refl)
