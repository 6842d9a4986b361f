-- ===== src/Engine/Fusion/Tests.antt =====
-- The fusion of crates/sealstack-engine/src/retrieval.rs run on small lists, with numbers of millionths
-- in place of floats.
use mathlib.Core.List.{Memᴰ}
use sealstack.Prelude.{ℕ, ◌+◌, ◌-◌, ◌*◌, ◌/◌, ◌≡◌, refl, none, some, List, [], ◌∷◌, ◌++◌}
use sealstack.Bytes.{Bytes, codes, bytes_eq}
use sealstack.Engine.Fusion.{
  RawCandidate, Floats, or_insert, add_score, score_of, add_hits, rescore, tables, rrf_fuse,
}
use sealstack.Engine.Fusion.Tracks.{first_hit}
use sealstack.Engine.Fusion.Sound.{total, rrf_fuse_sound, rrf_fuse_complete}

abbrev millionths : Floats ℕ
millionths = record {
  zero = 0;
  one = 1000000;
  k = 60000000;
  of_nat = λ n. n * 1000000;
  add = λ a b. a + b;
  sub = λ a b. a - b;
  mul = λ a b. a * b / 1000000;
  div = λ a b. a * 1000000 / b;
}

abbrev hit : Bytes → ℕ → RawCandidate ℕ
hit id score = record { id = id; score = score; content = id; created_at = none }

abbrev vec_hits : List (RawCandidate ℕ)
vec_hits = hit (codes "a") 900000 ∷ hit (codes "b") 800000 ∷ []

abbrev bm25_hits : List (RawCandidate ℕ)
bm25_hits = hit (codes "c") 950000 ∷ hit (codes "a") 600000 ∷ []

-- A map in the order of insertion, and no sort.
abbrev fused : List (RawCandidate ℕ)
fused = rrf_fuse millionths (λ m. m) (λ cs. cs) vec_hits bm25_hits 500000

-- `a` has both its ranks' scores.
fused_runs : fused ≡ hit (codes "a") 16260 ∷ hit (codes "b") 8064 ∷ hit (codes "c") 8196 ∷ []
unfolding rrf_fuse tables add_hits add_score or_insert score_of rescore bytes_eq
fused_runs = refl

rrf_fuse_sound_example :
    (c : RawCandidate ℕ) × (first_hit (vec_hits ++ bm25_hits) c.id ≡ some c)
    × (hit (codes "a") 16260 ≡ record c {
      score = total millionths 500000 0 bm25_hits c.id (total millionths 500000 0 vec_hits c.id 0);
    })
unfolding rrf_fuse tables add_hits add_score or_insert score_of rescore bytes_eq
rrf_fuse_sound_example =
    rrf_fuse_sound millionths (λ m. m) (λ cs. cs) (λ m p there. there) (λ cs c there. there)
      vec_hits bm25_hits 500000 (hit (codes "a") 16260) (Memᴰ.head refl)

rrf_fuse_complete_example : (c : RawCandidate ℕ) × Memᴰ c fused × (c.id ≡ codes "c")
rrf_fuse_complete_example =
    rrf_fuse_complete millionths (λ m. m) (λ cs. cs) (λ m p there. there) (λ cs c there. there)
      vec_hits bm25_hits 500000 (hit (codes "c") 950000) (Memᴰ.tail (Memᴰ.tail (Memᴰ.head refl)))
