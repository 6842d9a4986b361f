-- ===== src/ConnectorSdk/Http/Bodies.antt =====
-- Bodies read under a cap: `bytes` and `read_body_capped` of
-- crates/sealstack-connector-sdk/src/http.rs.
use sealstack.Prelude.{
  ℕ, ◌+◌, ◌≤◌, ◌≡◌, refl, sym, ap, ◌∙◌, ◌↔◌, Bool, true, false, List, [], ◌∷◌, ◌++◌, append_assoc,
  append-nil, arith, ltb, if◌then◌else◌, le→ltb_false, length, length-append, Result, ok, err,
  ok_inj, err_ne_ok,
}
use sealstack.ConnectorSdk.Http.{Body, read_chunks, read_body}
use sealstack.Bytes.{Bytes}
use sealstack.ConnectorSdk.Error.{SealStackError, body_too_large, backend}

abbrev pub joined : List Bytes → Bytes
joined [] = []
joined (c ∷ cs) = c ++ joined cs

-- The end of the stream.
ended :
    (complete : Bool) (buf b : Bytes)
    → (if complete then ok buf else err backend) ≡ ok b
    → (b ≡ buf) × (complete ≡ true)
ended true buf b h = (sym (ok_inj h), refl)
ended false buf b h = absurd (err_ne_ok h)

-- A chunk that does not make the body too large.
taken :
    (too_large : Bool) (rest : Result SealStackError Bytes) (e : SealStackError) (b : Bytes)
    → (if too_large then err e else rest) ≡ ok b
    → (rest ≡ ok b) × (too_large ≡ false)
taken true rest e b h = absurd (err_ne_ok h)
taken false rest e b h = (h, refl)

module _ (cap : ℕ) (complete : Bool) where
  read_chunks-ok :
      (chunks : List Bytes) (buf b : Bytes)
      → length buf ≤ cap
      → read_chunks cap complete chunks buf ≡ ok b
      → (b ≡ buf ++ joined chunks) × (length b ≤ cap) × (complete ≡ true)
  unfolding read_chunks
  read_chunks-ok [] buf b fits h =
      let (same, whole) = ended complete buf b h in
      (same ∙ sym (append-nil buf), rw same fits, whole)
  read_chunks-ok (c ∷ cs) buf b fits h =
      let (rest, small) =
        taken (ltb cap (length buf + length c)) (read_chunks cap complete cs (buf ++ c))
          (body_too_large cap) b h in
      let (same, short, whole) =
        read_chunks-ok cs (buf ++ c) b (ground (arith, length-append buf c)) rest in
      (same ∙ append_assoc buf c (joined cs), short, whole)

  ok-read_chunks :
      (chunks : List Bytes) (buf : Bytes)
      → length (buf ++ joined chunks) ≤ cap
      → complete ≡ true
      → read_chunks cap complete chunks buf ≡ ok (buf ++ joined chunks)
  unfolding read_chunks
  ok-read_chunks [] buf fits e = rw (e, append-nil) refl
  ok-read_chunks (c ∷ cs) buf fits e = rw (small) (
      ok-read_chunks cs (buf ++ c) (rw append_assoc fits) e
      ∙ ap ok (append_assoc buf c (joined cs)))
    where
      small : ltb cap (length buf + length c) ≡ false
      small =
          le→ltb_false cap (length buf + length c)
            (omega (arith, fits, length-append buf (c ++ joined cs), length-append c (joined cs)))

-- A body is read exactly where its stream ends well and its chunks together keep to the cap, and
-- then it is all of them, in order.
pub read_body_iff :
    (cap : ℕ) (body : Body) (b : Bytes)
    → (read_body cap body ≡ ok b)
      ↔ ((b ≡ joined body.chunks) × (length b ≤ cap) × (body.complete ≡ true))
unfolding read_body
read_body_iff cap body b = (
  λ h. read_chunks-ok cap body.complete body.chunks [] b (omega arith) h,
  λ (same, fits, whole).
      ok-read_chunks cap body.complete body.chunks [] (rw same at fits) whole ∙ ap ok (sym same),
)
