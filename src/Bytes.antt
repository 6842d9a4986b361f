-- ===== src/Bytes.antt =====
-- Byte strings. A byte is a number below 256; a Rust `&str` or `&[u8]` is the list of its bytes.
-- The standard library's little-endian conversions, slicing `buf.get(a..b)` and UTF-8 check.
pub mod Le
use Prim.Native.Char.{code}
use Prim.Native.String.{String}
use mathlib.Core.Path.{subst}
use sealstack.Prelude.{
  sym, ℕ, zero, suc, ◌+◌, ◌<◌, ◌≡◌, refl, ap, ◌↔◌, Bool, true, false, ◌&&◌, Option, none, some,
  List, [], ◌∷◌, ◌++◌, arith, ltb, leb, ◌==◌, if◌then◌else◌, le→leb, length, take, drop, Sees,
  Sees-length, length-append, take-append_self, ==_refl,
}

abbrev pub Bytes : Type 0
Bytes = List ℕ

-- The bytes of an ASCII literal.
abbrev pub codes : String → Bytes
codes String.[] = []
codes (String.◌∷◌ c s) = code c ∷ codes s

-- `a == b` on byte strings.
unfoldable pub bytes_eq : Bytes → Bytes → Bool
bytes_eq [] [] = true
bytes_eq [] (y ∷ ys) = false
bytes_eq (x ∷ xs) [] = false
bytes_eq (x ∷ xs) (y ∷ ys) = x == y && bytes_eq xs ys

pub bytes_eq_refl : (s : Bytes) → bytes_eq s s ≡ true
unfolding bytes_eq
bytes_eq_refl [] = refl
bytes_eq_refl (x ∷ xs) = rw (==_refl, bytes_eq_refl xs)

pub eq_of_bytes_eq : (s t : Bytes) → bytes_eq s t ≡ true → s ≡ t
unfolding bytes_eq
eq_of_bytes_eq [] [] h = refl
eq_of_bytes_eq [] (y ∷ ys) h = cc
eq_of_bytes_eq (x ∷ xs) [] h = cc
eq_of_bytes_eq (x ∷ xs) (y ∷ ys) h = ground (arith, eq_of_bytes_eq xs ys)

pub bytes_ne_comm : (s t : Bytes) → bytes_eq s t ≡ false → bytes_eq t s ≡ false
unfolding bytes_eq
bytes_ne_comm [] [] h = h
bytes_ne_comm [] (y ∷ ys) h = refl
bytes_ne_comm (x ∷ xs) [] h = refl
bytes_ne_comm (x ∷ xs) (y ∷ ys) h = ground (arith, bytes_ne_comm xs ys)

-- `buf.get(start..start + len)`.
unfoldable pub slice : Bytes → ℕ → ℕ → Option Bytes
slice buf start len =
    if leb (start + len) (length buf) then some (take len (drop start buf)) else none

pub slice-Sees :
    (buf : Bytes) (i : ℕ) (xs rest : Bytes)
    → Sees buf i (xs ++ rest)
    → slice buf i (length xs) ≡ some xs
unfolding slice
slice-Sees buf i xs rest s =
    rw
      (le→leb (i + length xs) (length buf)
        (omega (arith, Sees-length buf i (xs ++ rest) s, length-append xs rest)))
      (ap some (rw s.rest_eq (take-append_self xs rest)))

-- The ranges that the bytes after a leading byte must lie in (Unicode, table 3-7).
utf8_follow : ℕ → Option (List (ℕ × ℕ))
utf8_follow b =
    if ltb b 0x80
    then some []
    else if ltb b 0xc2
    then none
    else if ltb b 0xe0
    then some ((0x80, 0xbf) ∷ [])
    else if b == 0xe0
    then some ((0xa0, 0xbf) ∷ (0x80, 0xbf) ∷ [])
    else if b == 0xed
    then some ((0x80, 0x9f) ∷ (0x80, 0xbf) ∷ [])
    else if ltb b 0xf0
    then some ((0x80, 0xbf) ∷ (0x80, 0xbf) ∷ [])
    else if b == 0xf0
    then some ((0x90, 0xbf) ∷ (0x80, 0xbf) ∷ (0x80, 0xbf) ∷ [])
    else if ltb b 0xf4
    then some ((0x80, 0xbf) ∷ (0x80, 0xbf) ∷ (0x80, 0xbf) ∷ [])
    else if b == 0xf4
    then some ((0x80, 0x8f) ∷ (0x80, 0xbf) ∷ (0x80, 0xbf) ∷ [])
    else none

utf8_scan : List (ℕ × ℕ) → Bytes → Bool
utf8_scan [] [] = true
utf8_scan (p ∷ ps) [] = false
utf8_scan ((lo, hi) ∷ ps) (b ∷ bs) = leb lo b && leb b hi && utf8_scan ps bs
utf8_scan [] (b ∷ bs) = elim (utf8_follow b) [ none ↦ false | some ps ↦ utf8_scan ps bs ]

-- `core::str::from_utf8(bytes).is_ok()`.
unfoldable pub is_utf8 : Bytes → Bool
unfolding utf8_follow utf8_scan
is_utf8 bytes = utf8_scan [] bytes

abbrev pub IsAscii : Bytes → Type 0
IsAscii [] = Unit
IsAscii (b ∷ bs) = (b < 128) × IsAscii bs

utf8_follow-ascii : (b : ℕ) → b < 128 → utf8_follow b ≡ some []
unfolding utf8_follow
utf8_follow-ascii b h = ground arith

utf8_scan-IsAscii : (bytes : Bytes) → IsAscii bytes → utf8_scan [] bytes ≡ true
unfolding utf8_scan
utf8_scan-IsAscii [] h = refl
utf8_scan-IsAscii (b ∷ bs) (small, h) =
    subst (λ o. elim o [ none ↦ false | some ps ↦ utf8_scan ps bs ] ≡ true)
      (sym (utf8_follow-ascii b small)) (utf8_scan-IsAscii bs h)

pub is_utf8-IsAscii : (bytes : Bytes) → IsAscii bytes → is_utf8 bytes ≡ true
unfolding is_utf8
is_utf8-IsAscii bytes h = utf8_scan-IsAscii bytes h

is_utf8_runs :
    (is_utf8 (codes "caller") ≡ true)
    × (is_utf8 (0xc3 ∷ 0xa9 ∷ []) ≡ true)
    × (is_utf8 (0xed ∷ 0xa0 ∷ 0x80 ∷ []) ≡ false)
unfolding is_utf8
is_utf8_runs = (refl, refl, refl)
