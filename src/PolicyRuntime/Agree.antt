-- ===== src/PolicyRuntime/Agree.antt =====
-- The values that crates/sealstack-policy-runtime/src/interp.rs reads from the text of a caller and a
-- record, beside those that crates/sealstack-policy-ir/src/host.rs takes from the values themselves.
use sealstack.Prelude.{
  ℕ, ◌+◌, ◌≤◌, ◌<◌, ◌≡◌, refl, sym, ◌∙◌, inl, inr, true, false, Option, none, some, List, [], ◌∷◌,
  ◌++◌, arith, ◌==◌, length, drop, length-drop, drop-add, Sees, ok, err, ok_or,
}
use sealstack.PolicyRuntime.Json.{invalid, JsonResult, as_str, find_path}
use sealstack.Bytes.{Bytes, codes}
use sealstack.PolicyRuntime.Text.{quoted, print, IsNumberText, IsWritten}
use sealstack.PolicyRuntime.Text.Scan.{byte_is_other, as_str-quoted}
use sealstack.PolicyRuntime.Text.Members.{print-Solid, skip_ws-Solid}
use sealstack.PolicyRuntime.Text.Find.{
  FindsValue, OptionWritten, get_field-OptionWritten, find_path-print,
}
use sealstack.PolicyRuntime.Interp.{no_position, str_at, same_str, same_tenant, tenant_match}
use sealstack.Json.{Value, Items, Fields, Number, get}
use sealstack.Json
use sealstack.PolicyIr.Host

-- The part of a buffer behind a cursor, and the cursor that stands for one inside it.
pub drop-Sees :
    (bytes : Bytes) (base at : ℕ) (text : Bytes)
    → base ≤ length bytes
    → Sees (drop base bytes) at text
    → Sees bytes (base + at) text
drop-Sees bytes base at text le s = record {
  rest_eq = drop-add base at bytes ∙ s.rest_eq;
  within = omega (arith, s.within, length-drop base bytes);
}

pub Sees-drop :
    (bytes : Bytes) (base : ℕ) (text : Bytes) → Sees bytes base text → Sees (drop base bytes) 0 text
Sees-drop bytes base text s = record { rest_eq = s.rest_eq; within = omega arith }

-- The value at the end of a chain of keys.
unfoldable pub follow_value : Value → List Bytes → Option Value
follow_value v [] = some v
follow_value v (seg ∷ segs) = elim (get v seg) [ none ↦ none | some w ↦ follow_value w segs ]

pub lt→==_false : (a b : ℕ) → a < b → (a == b) ≡ false
lt→==_false a b h = ground arith

module _ (number_text : Number → Bytes) (input : Bytes) where
  -- The string that a value is, read at its text.
  string_of : Value → JsonResult Bytes
  string_of v = ok_or (Json.as_str v) invalid

  as_str_other :
      (at b : ℕ) (rest : Bytes)
      → (b == 34) ≡ false
      → Sees input at (b ∷ rest)
      → as_str input at ≡ err invalid
  unfolding as_str
  as_str_other at b rest h s = rw (byte_is_other input at b 34 rest s h) refl

  as_str-number :
      (text : Bytes) (at : ℕ) (rest : Bytes)
      → IsNumberText text
      → Sees input at (text ++ rest)
      → as_str input at ≡ err invalid
  as_str-number [] at rest h s = absurd h
  as_str-number (b ∷ bs) at rest (inl digit, h) s = as_str_other at b _ (ground arith) s
  as_str-number (b ∷ bs) at rest (inr (minus, more), h) s = as_str_other at b _ (ground arith) s

  as_str-print :
      (v : Value) (at : ℕ) (rest : Bytes)
      → IsWritten number_text v
      → Sees input at (print number_text v ++ rest)
      → as_str input at ≡ string_of v
  unfolding print IsWritten quoted string_of Json.as_str
  as_str-print Value.null at rest h s = as_str_other at 110 _ refl s
  as_str-print (Value.boolean true) at rest h s = as_str_other at 116 _ refl s
  as_str-print (Value.boolean false) at rest h s = as_str_other at 102 _ refl s
  as_str-print (Value.number n) at rest h s = as_str-number (number_text n) at rest h s
  as_str-print (Value.string text) at rest h s = as_str-quoted input text at rest h s
  as_str-print (Value.array vs) at rest h s = as_str_other at 91 _ refl s
  as_str-print (Value.object fs) at rest h s = as_str_other at 123 _ refl s

  -- The string that a root's key has, as `call_tenant_match` reads it.
  str_at_found : ℕ → JsonResult (Option (ℕ × ℕ)) → JsonResult Bytes
  str_at_found base (ok (some (at, end))) = str_at input base at
  str_at_found base _ = err invalid

  str_at-FindsValue :
      (o : Option Value) (key : Bytes) (base : ℕ) (r : JsonResult (Option (ℕ × ℕ)))
      → base ≤ length input
      → OptionWritten number_text (drop base input) key o
      → FindsValue number_text (drop base input) key o r
      → str_at_found base r ≡ ok_or (elim o [ none ↦ none | some v ↦ Json.as_str v ]) invalid
  unfolding str_at_found str_at Json.as_str string_of
  str_at-FindsValue none key base r le h e = rw e refl
  str_at-FindsValue (some v) key base r le h (at, rest, e, d, s) =
      let s' = drop-Sees input base at _ le s in
      rw
        (
          e,
          skip_ws-Solid input (base + at) _ s' (print-Solid number_text v rest h),
          as_str-print v (base + at) rest h s',
        )
        refl

  same_str-err : (r : JsonResult Bytes) → same_str r (err invalid) ≡ false
  unfolding same_str
  same_str-err (ok a) = refl
  same_str-err (err e) = refl

  same_tenant-found :
      (caller_at self_at : ℕ) (r r' : JsonResult (Option (ℕ × ℕ)))
      → same_tenant input caller_at self_at r r'
        ≡ same_str (str_at_found caller_at r) (str_at_found self_at r')
  unfolding same_tenant str_at_found same_str
  same_tenant-found c s (ok (some (a, e))) (ok (some (b, f))) = refl
  same_tenant-found c s (ok (some (a, e))) (ok none) = sym (same_str-err (str_at input c a))
  same_tenant-found c s (ok (some (a, e))) (err f) = sym (same_str-err (str_at input c a))
  same_tenant-found c s (ok none) r' = refl
  same_tenant-found c s (err e) r' = refl

  pub get-OptionWritten :
      (bytes key : Bytes) (v : Value)
      → IsWritten number_text v
      → OptionWritten number_text bytes key (get v key)
  unfolding get IsWritten
  get-OptionWritten bytes key (Value.object fs) h =
      get_field-OptionWritten number_text bytes key fs h
  get-OptionWritten bytes key Value.null h = tt
  get-OptionWritten bytes key (Value.boolean b) h = tt
  get-OptionWritten bytes key (Value.number n) h = tt
  get-OptionWritten bytes key (Value.string s) h = tt
  get-OptionWritten bytes key (Value.array vs) h = tt

  -- The string that a key of a root has, read from the root's text.
  str_at-print :
      (v : Value) (key : Bytes) (base : ℕ) (rest : Bytes)
      → IsWritten number_text v
      → Sees input base (print number_text v ++ rest)
      → str_at_found base (find_path (drop base input) (key ∷ []))
        ≡ ok_or (Host.str_at v key) invalid
  unfolding Host.str_at
  str_at-print v key base rest h s =
      str_at-FindsValue (get v key) key base (find_path (drop base input) (key ∷ [])) s.within
        (get-OptionWritten (drop base input) key v h)
        (find_path-print number_text (drop base input) key v rest h (Sees-drop input base _ s))

  same_str-same_tenant :
      (a b : Option Bytes) → same_str (ok_or a invalid) (ok_or b invalid) ≡ Host.same_tenant a b
  unfolding same_str Host.same_tenant
  same_str-same_tenant (some a) (some b) = refl
  same_str-same_tenant (some a) none = refl
  same_str-same_tenant none (some b) = refl
  same_str-same_tenant none none = refl

  -- `CALL_TENANT_MATCH` gives on the text of a caller and a record what it gives on the host on the
  -- caller and the record themselves, where no string needs an escape.
  pub tenant_match-tenant_match :
      (caller record_value : Value) (caller_at self_at : ℕ) (rest rest' : Bytes)
      → IsWritten number_text caller
      → IsWritten number_text record_value
      → caller_at < no_position
      → self_at < no_position
      → Sees input caller_at (print number_text caller ++ rest)
      → Sees input self_at (print number_text record_value ++ rest')
      → tenant_match input caller_at self_at ≡ Host.tenant_match caller record_value
  unfolding tenant_match Host.tenant_match
  tenant_match-tenant_match caller record_value caller_at self_at rest rest' h h' c c' s s' =
      rw
        (
          lt→==_false caller_at no_position c,
          lt→==_false self_at no_position c',
          same_tenant-found,
          str_at-print caller (codes "tenant") caller_at rest h s,
          str_at-print record_value (codes "tenant") self_at rest' h' s',
        )
        (same_str-same_tenant (Host.str_at caller (codes "tenant"))
          (Host.str_at record_value (codes "tenant")))
