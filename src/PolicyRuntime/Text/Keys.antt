-- ===== src/PolicyRuntime/Text/Keys.antt =====
-- `find_key_in_object` of crates/sealstack-policy-runtime/src/json.rs on the text of an object.
use sealstack.Prelude.{
  ℕ, zero, suc, ◌+◌, ◌≤◌, ◌≡◌, refl, ap, ◌∙◌, inl, inr, true, false, Option, none, some, ◌∷◌, ◌++◌,
  append_assoc, arith, Bool-cases, length, length-append, Sees, Sees-length, Sees-append, Sees-next,
  ok,
}
use sealstack.PolicyRuntime.Json.{
  JsonResult, Round, resume, loop, after_item, key_round, find_key_in_object, stop, again,
}
use sealstack.Bytes.{Bytes, bytes_eq}
use sealstack.PolicyRuntime.Text.{
  quoted, print, print_fields, print_more_fields, IsPlain, IsWritten, FieldsWritten,
}
use sealstack.PolicyRuntime.Text.Scan.{Delimits, byte_is-Sees, byte_is_other, skip_value-print}
use sealstack.PolicyRuntime.Text.Members.{
  Solid, field_text, print-Solid, quoted-Solid, more_fields-Delimits, skip_ws-Solid,
  read_key-quoted, key_round-found, after_item-comma, after_item-closing,
}
use mathlib.Core.Path.{subst}
use sealstack.Json.{Value, Fields, Number, get_field}

module _ (number_text : Number → Bytes) (bytes : Bytes) (key : Bytes) where
  -- Where the value of the key is, if there is one.
  unfoldable pub FindsKey : Option Value → JsonResult (Option ℕ) → Type 0
  FindsKey none r = r ≡ ok none
  FindsKey (some v) r =
      (at : ℕ) × (rest : Bytes) × (r ≡ ok (some at))
      × Delimits rest
      × Sees bytes at (print number_text v ++ rest)

  value_Sees :
      (k : Bytes) (v : Value) (i : ℕ) (rest : Bytes)
      → Sees bytes i (quoted k ++ 58 ∷ (print number_text v ++ rest))
      → Sees bytes (i + (length (quoted k) + 1)) (print number_text v ++ rest)
  value_Sees k v i rest s =
      subst (λ n. Sees bytes n (print number_text v ++ rest)) (omega arith)
        (Sees-next bytes _ 58 _ (Sees-append bytes i (quoted k) _ s))

  key_round-other :
      (k : Bytes) (v : Value) (i : ℕ) (rest : Bytes)
      → IsPlain k
      → IsWritten number_text v
      → bytes_eq k key ≡ false
      → Delimits rest
      → Sees bytes i (quoted k ++ 58 ∷ (print number_text v ++ rest))
      → key_round bytes key i
        ≡ after_item bytes 125
            (i + (length (quoted k) + 1) + length (print number_text v))
            (λ n. n)
            none
  unfolding key_round
  key_round-other k v i rest plain written other d s =
      rw
        (
          read_key-quoted bytes k i _ plain (print-Solid number_text v rest written) s,
          other,
          skip_value-print number_text bytes v (i + (length (quoted k) + 1)) rest written d
              (value_Sees k v i rest s),
        )
        refl

  resume_round :
      {r : Round ℕ (Option ℕ)} (fuel i : ℕ)
      → key_round bytes key i ≡ r
      → loop (key_round bytes key) (suc fuel) i ≡ resume (loop (key_round bytes key) fuel) r
  unfolding loop
  resume_round fuel i e = ap (resume (loop (key_round bytes key) fuel)) e

  FindsKey-nil : (r : JsonResult (Option ℕ)) → r ≡ ok none → FindsKey (get_field Fields.end key) r
  unfolding FindsKey get_field
  FindsKey-nil r e = e

  FindsKey-here :
      (k : Bytes) (v : Value) (fs : Fields) (at : ℕ) (rest : Bytes) (r : JsonResult (Option ℕ))
      → bytes_eq k key ≡ true
      → r ≡ ok (some at)
      → Delimits rest
      → Sees bytes at (print number_text v ++ rest)
      → FindsKey (get_field (Fields.field k v fs) key) r
  unfolding FindsKey get_field
  FindsKey-here k v fs at rest r same e d s = rw same (at, rest, e, d, s)

  FindsKey-skip :
      (k : Bytes) (v : Value) (fs : Fields) {r r' : JsonResult (Option ℕ)}
      → bytes_eq k key ≡ false
      → r ≡ r'
      → FindsKey (get_field fs key) r'
      → FindsKey (get_field (Fields.field k v fs) key) r
  unfolding get_field
  FindsKey-skip k v fs other e h = rw (other, e) h

  after_member : Bytes → Value → ℕ → ℕ
  after_member k v i = i + (length (quoted k) + 1) + length (print number_text v)

  after_member-Sees :
      (k : Bytes) (v : Value) (i : ℕ) (rest : Bytes)
      → Sees bytes i (quoted k ++ 58 ∷ (print number_text v ++ rest))
      → Sees bytes (after_member k v i) rest
  unfolding after_member
  after_member-Sees k v i rest s =
      Sees-append bytes (i + (length (quoted k) + 1)) (print number_text v) rest
        (value_Sees k v i rest s)

  -- The round on the last member, where its key is another.
  last_round :
      (k : Bytes) (v : Value) (i : ℕ) (rest : Bytes)
      → IsPlain k
      → IsWritten number_text v
      → bytes_eq k key ≡ false
      → Sees bytes i (quoted k ++ 58 ∷ (print number_text v ++ 125 ∷ rest))
      → key_round bytes key i ≡ stop (ok none)
  unfolding after_member
  last_round k v i rest plain written other s =
      key_round-other k v i (125 ∷ rest) plain written other refl s
      ∙ after_item-closing bytes 125 (after_member k v i) (λ n. n) none rest refl refl
          (after_member-Sees k v i (125 ∷ rest) s)

  -- The round on a member that others follow.
  next_round :
      (k : Bytes) (v : Value) (i : ℕ) (rest : Bytes)
      → IsPlain k
      → IsWritten number_text v
      → bytes_eq k key ≡ false
      → Solid rest
      → Sees bytes i (quoted k ++ 58 ∷ (print number_text v ++ 44 ∷ rest))
      → key_round bytes key i ≡ again (after_member k v i + 1)
  unfolding after_member
  next_round k v i rest plain written other solid s =
      key_round-other k v i (44 ∷ rest) plain written other refl s
      ∙ after_item-comma bytes 125 (after_member k v i) (λ n. n) none rest solid
          (after_member-Sees k v i (44 ∷ rest) s)

  field_Sees :
      (k : Bytes) (v : Value) (fs : Fields) (i : ℕ) (rest : Bytes)
      → Sees bytes i (field_text number_text k v fs ++ rest)
      → Sees bytes i
          (quoted k ++ 58 ∷ (print number_text v ++ (print_more_fields number_text fs ++ rest)))
  field_Sees k v fs i rest s = simp append_assoc at s

  find_loop-here :
      (k : Bytes) (v : Value) (fs : Fields) (i fuel : ℕ) (rest : Bytes)
      → IsPlain k
      → IsWritten number_text v
      → bytes_eq k key ≡ true
      → Sees bytes i (field_text number_text k v fs ++ 125 ∷ rest)
      → FindsKey (get_field (Fields.field k v fs) key) (loop (key_round bytes key) (suc fuel) i)
  find_loop-here k v fs i fuel rest plain written same s =
      let seen = field_Sees k v fs i (125 ∷ rest) s in
      let behind = print_more_fields number_text fs ++ 125 ∷ rest in
      FindsKey-here k v fs (i + (length (quoted k) + 1)) behind _ same
        (resume_round fuel i (
          key_round-found bytes key k i (print number_text v ++ behind) plain
            (print-Solid number_text v behind written) same seen))
        (more_fields-Delimits number_text fs rest) (value_Sees k v i behind seen)

  -- The loop from a member on, with fuel for the text of it and of those behind it.
  find_loop :
      (k : Bytes) (v : Value) (fs : Fields) (i fuel : ℕ) (rest : Bytes)
      → IsPlain k
      → IsWritten number_text v
      → FieldsWritten number_text fs
      → length (field_text number_text k v fs) ≤ fuel
      → Sees bytes i (field_text number_text k v fs ++ 125 ∷ rest)
      → FindsKey (get_field (Fields.field k v fs) key) (loop (key_round bytes key) fuel i)
  unfolding FieldsWritten print_more_fields
  find_loop k v fs i zero rest plain written ws enough s = absurd (no_text enough)
    where
      no_text : length (field_text number_text k v fs) ≤ 0 → ⊥
      no_text h = omega (
        arith,
        h,
        length-append (quoted k) (58 ∷ (print number_text v ++ print_more_fields number_text fs)),
      )
  find_loop k v Fields.end i (suc fuel) rest plain written ws enough s =
      elim (Bool-cases (bytes_eq k key)) [
        | inl same ↦ find_loop-here k v Fields.end i fuel rest plain written same s
        | inr other ↦
            FindsKey-skip k v Fields.end other
              (resume_round fuel i
                (last_round k v i rest plain written other (field_Sees k v Fields.end i _ s)))
              (FindsKey-nil (ok none) refl)
      ]
  find_loop k v (Fields.field k' v' fs) i (suc fuel) rest plain written (plain', written', ws)
        enough s =
      elim (Bool-cases (bytes_eq k key)) [
        | inl same ↦ find_loop-here k v (Fields.field k' v' fs) i fuel rest plain written same s
        | inr other ↦
            let seen = field_Sees k v (Fields.field k' v' fs) i (125 ∷ rest) s in
            FindsKey-skip k v (Fields.field k' v' fs) other
              (resume_round fuel i
                (next_round k v i _ plain written other (quoted-Solid number_text k' _ _) seen))
              (find_loop k' v' fs (after_member k v i + 1) fuel rest plain' written' ws
                (omega (
                  arith,
                  enough,
                  length-append (quoted k)
                      (58 ∷ (print number_text v ++ 44 ∷ field_text number_text k' v' fs)),
                  length-append (print number_text v) (44 ∷ field_text number_text k' v' fs),
                ))
                (Sees-next bytes (after_member k v i) 44 _ (after_member-Sees k v i _ seen)))
      ]

  -- `find_key_in_object`, at the opening brace of an object.
  pub find_key-print :
      (fs : Fields) (at : ℕ) (rest : Bytes)
      → FieldsWritten number_text fs
      → Sees bytes at (print number_text (Value.object fs) ++ rest)
      → FindsKey (get_field fs key) (find_key_in_object bytes at key)
  unfolding find_key_in_object print print_fields FieldsWritten quoted
  find_key-print Fields.end at rest ws s =
      let s' = Sees-next bytes at 123 _ s in
      rw
        (skip_ws-Solid bytes (at + 1) (125 ∷ rest) s' refl, byte_is-Sees bytes (at + 1) 125 rest s')
        (FindsKey-nil (ok none) refl)
  find_key-print (Fields.field k v fs) at rest (plain, written, ws) s =
      let s' : Sees bytes (at + 1) (field_text number_text k v fs ++ 125 ∷ rest) =
        rw append_assoc at (Sees-next bytes at 123 _ s) in
      rw
        (
          skip_ws-Solid bytes (at + 1) (field_text number_text k v fs ++ 125 ∷ rest) s' refl,
          byte_is_other bytes (at + 1) 34 125 _ s' refl,
        )
        (find_loop k v fs (at + 1) (length bytes + 1) rest plain written ws
          (omega (
            arith,
            Sees-length bytes (at + 1) _ s',
            length-append (field_text number_text k v fs) (125 ∷ rest),
          ))
          s')
