-- ===== src/PolicyRuntime/Loads.antt =====
-- What `load_path` of crates/sealstack-policy-runtime/src/interp.rs loads from the text of a root.
mod Numbers
use sealstack.Prelude.{
  ℕ, ◌+◌, ◌≤◌, ◌<◌, ◌≡◌, refl, ◌∙◌, Bool, true, false, Option, none, some, List, [], ◌∷◌, ◌++◌, ◌-◌,
  ◌⊎◌, take-append_self, ok_or, arith, ◌==◌, length, drop, Sees, ok, err, ◌>>=◌,
}
use sealstack.PolicyRuntime.Json.{
  between, as_i64, as_f64, utf8_number, i64_of_text, invalid, JsonResult, is_ws, starts_with,
  as_bool, find_path,
}
use sealstack.Bytes.{Bytes, IsAscii, is_utf8, is_utf8-IsAscii}
use sealstack.Numbers.{is_digit, parse_i64, f64_to_i64}
use sealstack.PolicyRuntime.Text.{AreNumberBytes, IsNumberText, quoted, print, IsWritten}
use sealstack.PolicyRuntime.Text.Scan.{Delimits, skip_number-text, at_byte-Sees, as_str-quoted}
use sealstack.PolicyRuntime.Text.Members.{skip_ws-Solid}
use sealstack.PolicyRuntime.Text.Find.{FindsValue, OptionWritten, find_path-print}
use sealstack.PolicyRuntime.Interp.{
  Val, prefer_i64, number_at, no_position, value_of_byte, value_at, resolve, value_found,
  load_value,
}
use sealstack.PolicyRuntime.Agree.{
  drop-Sees, Sees-drop, follow_value, lt→==_false, get-OptionWritten,
}
use sealstack.Json.{Value, Number, get}
use sealstack.PolicyRuntime.Loads.Numbers.{loaded_number, value_at-Sees, value_at-number}

module _ (number_text : Number → Bytes) (parse_f64 : Bytes → Option ℕ) (input : Bytes) where
  -- The value that is loaded for a value of the input.
  unfoldable pub Loads : Option Value → JsonResult Val → Type 0
  Loads none r = r ≡ ok Val.null
  Loads (some Value.null) r = r ≡ ok Val.null
  Loads (some (Value.boolean b)) r = r ≡ ok (Val.boolean b)
  Loads (some (Value.number n)) r = r ≡ loaded_number parse_f64 (number_text n)
  Loads (some (Value.string s)) r = r ≡ ok (Val.raw s)
  Loads (some (Value.array vs)) r =
      (at : ℕ) × (rest : Bytes) × (r ≡ ok (Val.array_at at))
      × Sees input at (print number_text (Value.array vs) ++ rest)
  Loads (some (Value.object fs)) r = r ≡ ok Val.null

  Loads-nil : Loads none (ok Val.null)
  unfolding Loads
  Loads-nil = refl

  as_bool-print :
      (b : Bool) (at : ℕ) (rest : Bytes)
      → Sees input at (print number_text (Value.boolean b) ++ rest)
      → as_bool input at ≡ ok b
  unfolding as_bool starts_with print
  as_bool-print true at rest s = rw s.rest_eq refl
  as_bool-print false at rest s = rw s.rest_eq refl

  value_at-print :
      (v : Value) (at : ℕ) (rest : Bytes)
      → IsWritten number_text v
      → Delimits rest
      → Sees input at (print number_text v ++ rest)
      → Loads (some v) (value_at parse_f64 input at)
  unfolding Loads value_of_byte print IsWritten quoted
  value_at-print Value.null at rest h d s = value_at-Sees parse_f64 input at 110 _ refl s
  value_at-print (Value.boolean true) at rest h d s =
      value_at-Sees parse_f64 input at 116 _ refl s ∙ rw (as_bool-print true at rest s) refl
  value_at-print (Value.boolean false) at rest h d s =
      value_at-Sees parse_f64 input at 102 _ refl s ∙ rw (as_bool-print false at rest s) refl
  value_at-print (Value.number n) at rest h d s =
      value_at-number parse_f64 input (number_text n) at rest h d s
  value_at-print (Value.string t) at rest h d s =
      value_at-Sees parse_f64 input at 34 _ refl s ∙ rw (as_str-quoted input t at rest h s) refl
  value_at-print (Value.array vs) at rest h d s =
      (at, rest, value_at-Sees parse_f64 input at 91 _ refl s, s)
  value_at-print (Value.object fs) at rest h d s = value_at-Sees parse_f64 input at 123 _ refl s

  -- Where the walk along a chain of keys ends.
  unfoldable FindsEnd : Option Value → JsonResult (Option ℕ) → Type 0
  FindsEnd none r = r ≡ ok none
  FindsEnd (some v) r =
      (at : ℕ) × (rest : Bytes) × (r ≡ ok (some at))
      × IsWritten number_text v
      × Delimits rest
      × Sees input at (print number_text v ++ rest)

  -- One key of the walk.
  FindsEnd-walk :
      (base : ℕ) (seg : Bytes) (segs : List Bytes) (o : Option Value)
      → base ≤ length input
      → OptionWritten number_text (drop base input) seg o
      → FindsValue number_text (drop base input) seg o (find_path (drop base input) (seg ∷ []))
      → ((w : Value) (at : ℕ) (rest : Bytes)
          → IsWritten number_text w
          → Delimits rest
          → Sees input at (print number_text w ++ rest)
          → FindsEnd (follow_value w segs) (resolve parse_f64 input at segs))
      → FindsEnd
          (elim o [ none ↦ none | some w ↦ follow_value w segs ])
          (resolve parse_f64 input base (seg ∷ segs))
  unfolding resolve FindsEnd
  FindsEnd-walk base seg segs none le h e go_on = rw e refl
  FindsEnd-walk base seg segs (some w) le h (at, rest, e, d, s) go_on =
      rw e (go_on w (base + at) rest h d (drop-Sees input base at _ le s))

  -- Where no key is left, the text of the value has an end.
  abbrev Closed : List Bytes → Bytes → Type 0
  Closed [] rest = Delimits rest
  Closed (seg ∷ segs) rest = Unit

  Closed-Delimits : (segs : List Bytes) (rest : Bytes) → Delimits rest → Closed segs rest
  Closed-Delimits [] rest d = d
  Closed-Delimits (seg ∷ segs) rest d = tt

  resolve-print :
      (v : Value) (segs : List Bytes) (base : ℕ) (rest : Bytes)
      → IsWritten number_text v
      → Closed segs rest
      → Sees input base (print number_text v ++ rest)
      → FindsEnd (follow_value v segs) (resolve parse_f64 input base segs)
  unfolding follow_value resolve FindsEnd
  resolve-print v [] base rest h d s = (base, rest, refl, h, d, s)
  resolve-print v (seg ∷ segs) base rest h d s =
      FindsEnd-walk base seg segs (get v seg) s.within
        (get-OptionWritten number_text input (drop base input) seg v h)
        (find_path-print number_text (drop base input) seg v rest h (Sees-drop input base _ s))
        (λ w at rest' h' d' s'. resolve-print w segs at rest' h' (Closed-Delimits segs rest' d') s')

  FindsEnd-Loads :
      (o : Option Value) (r : JsonResult (Option ℕ))
      → FindsEnd o r
      → Loads o (r >>= value_found parse_f64 input)
  unfolding FindsEnd value_found
  FindsEnd-Loads none r e = rw e (Loads-nil)
  FindsEnd-Loads (some v) r (at, rest, e, h, d, s) = rw e (value_at-print v at rest h d s)

  -- A path of one key at least, from the text of its root: the runtime loads the value that the keys
  -- lead to, null where a key is missing or the value is an object, a position for an array, and an
  -- integer for every number: one that is no `i64` is cut off. The strings and the keys of the root need
  -- no escapes, and the runtime's conversion of a decimal to a float is a parameter.
  pub load_value-print :
      (v : Value) (seg : Bytes) (segs : List Bytes) (root_at : ℕ) (rest : Bytes)
      → IsWritten number_text v
      → root_at < no_position
      → Sees input root_at (print number_text v ++ rest)
      → Loads (follow_value v (seg ∷ segs)) (load_value parse_f64 input root_at (seg ∷ segs))
  unfolding load_value
  load_value-print v seg segs root_at rest h c s =
      rw (lt→==_false root_at no_position c, nonempty)
        (FindsEnd-Loads (follow_value v (seg ∷ segs)) (resolve parse_f64 input root_at (seg ∷ segs))
          (resolve-print v (seg ∷ segs) root_at rest h tt s))
    where
      nonempty : (length (seg ∷ segs) == 0) ≡ false
      nonempty = ground arith
