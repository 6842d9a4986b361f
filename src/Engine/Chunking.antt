-- ===== src/Engine/Chunking.antt =====
-- crates/sealstack-engine/src/ingest.rs: the chunkers. A text is its bytes in UTF-8, a chunk its text.
-- The token counter is a parameter, as are the standard library's `trim` and `split`.
pub mod Fixed
use sealstack.Prelude.{
  ℕ, zero, suc, ◌+◌, ◌-◌, ◌*◌, ◌/◌, ◌^◌, Bool, true, false, not, ◌&&◌, List, [], ◌∷◌, ◌++◌,
  if◌then◌else◌, ◌==◌, ltb, leb, length, take, drop,
}
use sealstack.Bytes.{Bytes, is_utf8}

pub data ChunkingStrategy : Type 0 where
  fixed : ℕ → ChunkingStrategy
  semantic : ℕ → ℕ → ChunkingStrategy
  recursive : List Bytes → ℕ → ChunkingStrategy

-- `bytes.chunks(size)`, with fuel for every byte.
unfoldable pub byte_chunks : ℕ → ℕ → Bytes → List Bytes
byte_chunks zero size body = []
byte_chunks (suc fuel) size [] = []
byte_chunks (suc fuel) size (b ∷ bs) =
    take size (b ∷ bs) ∷ byte_chunks fuel size (drop size (b ∷ bs))

-- The slices that are UTF-8; the others are dropped.
unfoldable pub keep_utf8 : List Bytes → List Bytes
keep_utf8 [] = []
keep_utf8 (c ∷ cs) = let rest = keep_utf8 cs in if is_utf8 c then c ∷ rest else rest

unfoldable pub fixed_char_chunks : Bytes → ℕ → List Bytes
unfolding byte_chunks keep_utf8
fixed_char_chunks body size =
    if size == 0 then body ∷ [] else keep_utf8 (byte_chunks (length body) size body)

unfoldable pub is_empty : Bytes → Bool
is_empty [] = true
is_empty (b ∷ bs) = false

-- `CharApprox::count`
unfoldable pub char_approx : Bytes → ℕ
char_approx text = (length text + 3) / 4

-- From the next character boundary: a byte from 0x80 to 0xbf continues a character.
unfoldable pub to_boundary : Bytes → Bytes
to_boundary [] = []
to_boundary (b ∷ bs) =
    let rest = to_boundary bs in if leb 0x80 b && ltb b 0xc0 then rest else b ∷ bs

-- `saturating_mul` on a 64-bit `usize`.
unfoldable pub saturating_mul : ℕ → ℕ → ℕ
saturating_mul a b = if ltb (a * b) (2 ^ 64) then a * b else 2 ^ 64 - 1

unfoldable pub carry_overlap : Bytes → ℕ → Bytes
unfolding to_boundary saturating_mul
carry_overlap current overlap =
    if overlap == 0
    then []
    else let target = saturating_mul overlap 4 in
      if leb (length current) target
      then current
      else to_boundary (drop (length current - target) current)

module _ (trim : Bytes → Bytes) (split : Bytes → Bytes → List Bytes) (count : Bytes → ℕ) where
  abbrev pub blank_line : Bytes
  blank_line = 10 ∷ 10 ∷ []

  unfoldable pub paragraphs : List Bytes → List Bytes
  unfolding is_empty
  paragraphs [] = []
  paragraphs (p ∷ ps) = let rest = paragraphs ps in if is_empty (trim p) then rest else p ∷ rest

  -- `current` with a paragraph after it.
  unfoldable pub joined_by_blank : Bytes → Bytes → Bytes
  unfolding is_empty
  joined_by_blank current p = if is_empty current then p else current ++ (blank_line ++ p)

  -- The loop of `semantic_chunks`: the chunks so far and the current one.
  unfoldable pub semantic_loop : ℕ → ℕ → List Bytes → Bytes → List Bytes → List Bytes × Bytes
  unfolding carry_overlap joined_by_blank is_empty
  semantic_loop max_tokens overlap chunks current [] = (chunks, current)
  semantic_loop max_tokens overlap chunks current (p ∷ ps) =
      let over = ltb max_tokens (count (current ++ (blank_line ++ p))) && not (is_empty current) in
      let chunks' = if over then chunks ++ (trim current ∷ []) else chunks in
      let current' = if over then carry_overlap current overlap else current in
      semantic_loop max_tokens overlap chunks' (joined_by_blank current' p) ps

  abbrev or_whole : Bytes → List Bytes → List Bytes
  or_whole body [] = body ∷ []
  or_whole body (c ∷ cs) = c ∷ cs

  unfoldable pub semantic_chunks : Bytes → ℕ → ℕ → List Bytes
  unfolding semantic_loop paragraphs is_empty
  semantic_chunks body max_tokens overlap =
      let (chunks, current) =
        semantic_loop max_tokens overlap [] [] (paragraphs (split blank_line body)) in
      or_whole body (if is_empty (trim current) then chunks else chunks ++ (trim current ∷ []))

  -- The loop over the pieces between separators; `deeper` cuts one that is too large.
  unfoldable pub pieces_of : ℕ → (Bytes → List Bytes) → List Bytes → List Bytes
  unfolding is_empty
  pieces_of max_tokens deeper [] = []
  pieces_of max_tokens deeper (piece ∷ pieces) =
      let rest = pieces_of max_tokens deeper pieces in
      if is_empty piece
      then rest
      else if ltb max_tokens (count piece)
      then deeper piece ++ rest
      else piece ∷ rest

  -- `recursive_inner`, by the separators from `depth` on.
  unfoldable pub recursive_inner : ℕ → List Bytes → Bytes → List Bytes
  unfolding pieces_of
  recursive_inner max_tokens [] input = input ∷ []
  recursive_inner max_tokens (sep ∷ seps) input =
      let pieces = pieces_of max_tokens (recursive_inner max_tokens seps) (split sep input) in
      if leb (count input) max_tokens then input ∷ [] else pieces

  unfoldable pub chunk_body : Bytes → ChunkingStrategy → List Bytes
  unfolding fixed_char_chunks semantic_chunks recursive_inner is_empty
  chunk_body body strategy = if is_empty (trim body) then [] else elim strategy [
    | ChunkingStrategy.fixed size ↦ fixed_char_chunks body size
    | ChunkingStrategy.semantic max_tokens overlap ↦ semantic_chunks body max_tokens overlap
    | ChunkingStrategy.recursive seps max_tokens ↦ recursive_inner max_tokens seps body
  ]
