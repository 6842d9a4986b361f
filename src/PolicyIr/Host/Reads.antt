-- ===== src/PolicyIr/Host/Reads.antt =====
-- The readers of host.rs on a cursor that sees what they read.
use sealstack.Prelude.{
  ℕ, ◌+◌, ◌<◌, ◌^◌, ◌≡◌, refl, ap, true, [], ◌∷◌, ◌++◌, arith, length, ok, Sees, Sees-get_elem?,
  Sees-next, Sees-append,
}
use sealstack.Bytes.{Bytes, slice-Sees, is_utf8}
use sealstack.Bytes.Le.{to_le_bytes, length-to_le_bytes, from_le_bytes-to_le_bytes}
use sealstack.PolicyIr.Host.{byte_at, read_u16, read_bytes, read_i64, read_f64, read_str}

module _ (ir : Bytes) where
  pub byte_at-Sees : (ip b : ℕ) (rest : Bytes) → Sees ir ip (b ∷ rest) → byte_at ir ip ≡ ok b
  unfolding byte_at
  byte_at-Sees ip b rest s = rw (Sees-get_elem? ir ip s)

  pub read_u16-Sees :
      (ip n : ℕ) (rest : Bytes)
      → n < 256 ^ 2
      → Sees ir ip (to_le_bytes 2 n ++ rest)
      → read_u16 ir ip ≡ ok (n, ip + 2)
  unfolding read_u16 to_le_bytes
  read_u16-Sees ip n rest h s =
      rw (Sees-get_elem? ir ip s, Sees-get_elem? ir (ip + 1) (Sees-next ir ip _ _ s))
        (ap (λ v. ok (v, ip + 2)) (from_le_bytes-to_le_bytes 2 n h))

  pub read_bytes-Sees :
      (bs : Bytes) (ip : ℕ) (rest : Bytes)
      → Sees ir ip (bs ++ rest)
      → read_bytes (length bs) ir ip ≡ ok (bs, ip + length bs)
  unfolding read_bytes
  read_bytes-Sees [] ip rest s = ap (λ v. ok ([], v)) (omega arith)
  read_bytes-Sees (b ∷ bs) ip rest s =
      rw
        (byte_at-Sees ip b (bs ++ rest) s, read_bytes-Sees bs (ip + 1) rest (Sees-next ir ip b _ s))
        (ap (λ v. ok (b ∷ bs, v)) (omega arith))

  pub read_word-Sees :
      (ip w : ℕ) (rest : Bytes)
      → w < 256 ^ 8
      → Sees ir ip (to_le_bytes 8 w ++ rest)
      → (read_i64 ir ip ≡ ok (w, ip + 8)) × (read_f64 ir ip ≡ ok (w, ip + 8))
  unfolding read_i64 read_f64
  read_word-Sees ip w rest h s = (
    rw eq (ap (λ v. ok (v, ip + 8)) (from_le_bytes-to_le_bytes 8 w h)),
    rw eq (ap (λ v. ok (v, ip + 8)) (from_le_bytes-to_le_bytes 8 w h)),
  )
    where
      eq : read_bytes 8 ir ip ≡ ok (to_le_bytes 8 w, ip + 8)
      eq = rw length-to_le_bytes at (read_bytes-Sees (to_le_bytes 8 w) ip rest s)

  -- A text as the compiler writes it: its length in two bytes, then its bytes.
  pub read_str-Sees :
      (ip : ℕ) (text rest : Bytes)
      → length text < 256 ^ 2
      → is_utf8 text ≡ true
      → Sees ir ip (to_le_bytes 2 (length text) ++ (text ++ rest))
      → read_str ir ip ≡ ok (text, ip + 2 + length text)
  unfolding read_str
  read_str-Sees ip text rest h u s =
      rw (read_u16-Sees ip (length text) _ h s, slice-Sees ir (ip + 2) text rest after, u) refl
    where
      after : Sees ir (ip + 2) (text ++ rest)
      after = rw length-to_le_bytes at (Sees-append ir ip (to_le_bytes 2 (length text)) _ s)
