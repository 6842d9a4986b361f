-- ===== src/Engine/Tests.antt =====
-- A text cut through a character.
use sealstack.Bytes.{is_utf8, Bytes}
use sealstack.Prelude.{◌≡◌, ◌↔◌, refl, [], ◌∷◌, arith}
use sealstack.Engine.Chunking.{byte_chunks, fixed_char_chunks}
use sealstack.Engine.Chunking.Fixed.{concat, AllUtf8, concat-fixed_char_chunks}

-- An `a`, then an e with an acute accent, which takes two bytes.
abbrev accented : Bytes
accented = 97 ∷ 0xc3 ∷ 0xa9 ∷ []

concat-fixed_char_chunks_example :
    (concat (fixed_char_chunks accented 2) ≡ accented) ↔ AllUtf8 (byte_chunks 3 2 accented)
concat-fixed_char_chunks_example = concat-fixed_char_chunks accented 2 (omega arith)

cut_is_lost : fixed_char_chunks accented 2 ≡ []
unfolding fixed_char_chunks is_utf8
cut_is_lost = refl
