-- ===== src/VectorStore/Memory/Chunks.antt =====
-- What upserts and deletes do to the chunks of a collection.
use mathlib.Core.Path.{subst}
use sealstack.Prelude.{
  err_ne_ok, eq_of_==, arith, ℕ, ◌≡◌, refl, ap, ◌∙◌, Bool, true, false, not, Option, none, some,
  List, [], ◌∷◌, if◌then◌else◌, ◌==◌, Bool-cases, inl, inr, length, ok,
}
use sealstack.VectorStore.Memory.{Chunk, upsert_chunk, upsert_chunks, mem_id, retain}

-- `o.or(old)`
abbrev pub or_else : {A : Type 0} → Option A → Option A → Option A
or_else none old = old
or_else (some a) old = some a

module _ {F : Type 0} where
  -- The first chunk with an id.
  unfoldable pub find_chunk : ℕ → List (Chunk F) → Option (Chunk F)
  find_chunk i [] = none
  find_chunk i (c ∷ cs) = let later = find_chunk i cs in if c.id == i then some c else later

  -- The last chunk with an id.
  unfoldable pub latest : ℕ → List (Chunk F) → Option (Chunk F)
  latest i [] = none
  latest i (c ∷ cs) = or_else (latest i cs) (if c.id == i then some c else none)

  -- A chunk has the dimension of the collection, and no chunk after it has its id.
  abbrev pub Sound : ℕ → List (Chunk F) → Type 0
  Sound dims [] = Unit
  Sound dims (c ∷ cs) = (length c.embedding ≡ dims) × (find_chunk c.id cs ≡ none) × Sound dims cs

  find_chunk-upsert_chunk :
      (i : ℕ) (cs : List (Chunk F)) (new : Chunk F)
      → find_chunk i (upsert_chunk cs new) ≡ (if new.id == i then some new else find_chunk i cs)
  unfolding find_chunk upsert_chunk
  find_chunk-upsert_chunk i [] new = refl
  find_chunk-upsert_chunk i (c ∷ cs) new = ground (arith, find_chunk-upsert_chunk i cs new)

  upsert_chunk-Sound :
      (dims : ℕ) (cs : List (Chunk F)) (new : Chunk F)
      → length new.embedding ≡ dims
      → Sound dims cs
      → Sound dims (upsert_chunk cs new)
  unfolding find_chunk upsert_chunk
  upsert_chunk-Sound dims [] new h s = (h, refl, tt)
  upsert_chunk-Sound dims (c ∷ cs) new h (size, fresh, s) = elim (Bool-cases (c.id == new.id)) [
    | inl same ↦
        let e : c.id ≡ new.id = ground arith in
        rw same (h, subst (λ k. find_chunk k cs ≡ none) e fresh, s)
    | inr differs ↦
        let differs' : (new.id == c.id) ≡ false = ground arith in
        rw differs (
          size,
          find_chunk-upsert_chunk c.id cs new ∙ rw differs' fresh,
          upsert_chunk-Sound dims cs new h s,
        )
  ]

  -- Every chunk that an upsert leaves, whether it succeeds or stops, has the right dimension, and no
  -- two have one id.
  pub upsert_chunks-Sound :
      (dims : ℕ) (chunks new : List (Chunk F))
      → Sound dims chunks
      → Sound dims (upsert_chunks dims chunks new).0
  unfolding upsert_chunks
  upsert_chunks-Sound dims chunks [] s = s
  upsert_chunks-Sound dims chunks (c ∷ rest) s = elim (Bool-cases (length c.embedding == dims)) [
    | inl fits ↦
        rw (fits, not)
          (upsert_chunks-Sound dims (upsert_chunk chunks c) rest
            (upsert_chunk-Sound dims chunks c (ground arith) s))
    | inr wrong ↦ rw (wrong, not) s
  ]

  latest_step :
      (o : Option (Chunk F)) (b : Bool) (c : Chunk F) (old : Option (Chunk F))
      → or_else o (if b then some c else old) ≡ or_else (or_else o (if b then some c else none)) old
  latest_step none true c old = refl
  latest_step none false c old = refl
  latest_step (some d) b c old = refl

  -- After an upsert that succeeds, an id has the last of the chunks given for it, or else what it had.
  pub find_chunk-upsert_chunks :
      (dims i : ℕ) (chunks new : List (Chunk F))
      → (upsert_chunks dims chunks new).1 ≡ ok tt
      → find_chunk i (upsert_chunks dims chunks new).0
        ≡ or_else (latest i new) (find_chunk i chunks)
  unfolding upsert_chunks latest
  find_chunk-upsert_chunks dims i chunks [] h = refl
  find_chunk-upsert_chunks dims i chunks (c ∷ rest) h =
      elim (Bool-cases (length c.embedding == dims)) [
        | inl fits ↦
            rw (fits, not)
              (find_chunk-upsert_chunks dims i (upsert_chunk chunks c) rest (rw (fits, not) at h)
                ∙ (ap (or_else (latest i rest)) (find_chunk-upsert_chunk i chunks c)
                    ∙ latest_step (latest i rest) (c.id == i) c (find_chunk i chunks)))
        | inr wrong ↦ absurd (err_ne_ok (rw (wrong, not) at h))
      ]

  -- After a delete, the ids given are gone, and every other id has the chunk that it had.
  pub find_chunk-retain :
      (i : ℕ) (ids : List ℕ) (cs : List (Chunk F))
      → find_chunk i (retain ids cs) ≡ (if mem_id i ids then none else find_chunk i cs)
  unfolding find_chunk retain
  find_chunk-retain i ids [] = ground arith
  find_chunk-retain i ids (c ∷ cs) = elim (Bool-cases (c.id == i)) [
    | inr differs ↦ elim (Bool-cases (mem_id c.id ids)) [
      | inl gone ↦ rw (gone, differs) (find_chunk-retain i ids cs)
      | inr kept ↦ rw (kept, differs) (find_chunk-retain i ids cs)
    ]
    | inl same ↦
        let e = eq_of_== c.id i same in
        elim (Bool-cases (mem_id c.id ids)) [
          | inl gone ↦
              rw gone
                (find_chunk-retain i ids cs ∙ rw (subst (λ k. mem_id k ids ≡ true) e gone) refl)
          | inr kept ↦ rw (kept, same, subst (λ k. mem_id k ids ≡ false) e kept) refl
        ]
  ]

  pub retain-Sound :
      (dims : ℕ) (ids : List ℕ) (cs : List (Chunk F)) → Sound dims cs → Sound dims (retain ids cs)
  unfolding retain
  retain-Sound dims ids [] s = tt
  retain-Sound dims ids (c ∷ cs) (size, fresh, s) = elim (Bool-cases (mem_id c.id ids)) [
    | inl gone ↦ rw gone (retain-Sound dims ids cs s)
    | inr kept ↦
        rw kept (size, rw (find_chunk-retain c.id ids cs, kept) fresh, retain-Sound dims ids cs s)
  ]
