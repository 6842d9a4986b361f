-- ===== src/PolicyRuntime/Json.antt =====
-- crates/sealstack-policy-runtime/src/json.rs: a reader of JSON text that returns positions in the
-- input. Each `loop` or `while` is `loop` on a step, with one round more than the input has bytes: a
-- step moves forward, and past the end of the input it returns.
pub mod Loops
pub mod Positions
pub mod Bounds
use sealstack.Prelude.{
  ℕ, zero, suc, ◌+◌, ◌-◌, Bool, true, false, not, ◌&&◌, ◌||◌, Option, none, some, List, [], ◌∷◌,
  ◌==◌, if◌then◌else◌, length, get_elem?, take, drop, Result, ok, err, ◌>>=◌, ok_or,
}
use sealstack.Bytes.{Bytes, codes, bytes_eq, is_utf8}
use sealstack.Numbers.{is_digit, parse_i64, f64_to_i64}

-- The code's error is `()`; that a loop here is out of fuel is kept apart from it.
pub data Failure : Type 0 where
  invalid out_of_fuel : Failure

abbrev pub JsonResult : Type 0 → Type 0
JsonResult A = Result Failure A

-- What one round of a loop does: go on from a state, or return.
pub data Round (S A : Type 0) : Type 0 where
  again : S → Round S A
  stop : JsonResult A → Round S A

abbrev pub resume : {S A : Type 0} → (S → JsonResult A) → Round S A → JsonResult A
resume go (again s) = go s
resume go (stop r) = r

unfoldable pub loop : {S A : Type 0} → (S → Round S A) → ℕ → S → JsonResult A
loop round zero s = err out_of_fuel
loop round (suc fuel) s = resume (loop round fuel) (round s)

-- A match on `bytes.get(i)`.
abbrev pub at_byte : {R : Type 0} → Bytes → ℕ → R → (ℕ → R) → R
at_byte bytes i missing found = elim (get_elem? bytes i) [ none ↦ missing | some b ↦ found b ]

-- `bytes.get(i) == Some(&b)`
abbrev pub byte_is : Bytes → ℕ → ℕ → Bool
byte_is bytes i b = at_byte bytes i false (λ c. c == b)

abbrev pub guard : Bool → JsonResult Unit
guard b = if b then ok tt else err invalid

abbrev pub prefix_length : (ℕ → Bool) → Bytes → ℕ
prefix_length p [] = 0
prefix_length p (b ∷ bs) = let rest = prefix_length p bs in if p b then suc rest else 0

abbrev pub is_ws : ℕ → Bool
is_ws b = b == 32 || b == 9 || b == 10 || b == 13

-- Also `skip_ws_fwd` of interp.rs, which is the same loop.
unfoldable pub skip_ws : Bytes → ℕ → ℕ
skip_ws bytes at = at + prefix_length is_ws (drop at bytes)

unfoldable pub starts_with : Bytes → Bytes → Bool
starts_with bytes [] = true
starts_with [] (k ∷ ks) = false
starts_with (b ∷ bs) (k ∷ ks) = b == k && starts_with bs ks

unfoldable pub as_bool : Bytes → ℕ → JsonResult Bool
unfolding starts_with
as_bool bytes at =
    if starts_with (drop at bytes) (codes "true")
    then ok true
    else if starts_with (drop at bytes) (codes "false")
    then ok false
    else err invalid

-- `&bytes[start..i]`
abbrev pub between : Bytes → ℕ → ℕ → Bytes
between bytes start i = take (i - start) (drop start bytes)

abbrev pub str_byte : Bytes → ℕ → ℕ → ℕ → Round ℕ Bytes
str_byte bytes start i b =
    if b == 92
    then (if byte_is bytes (i + 1) 117 then stop (err invalid) else again (i + 2))
    else if b == 34
    then stop (ok (between bytes start i))
    else again (i + 1)

unfoldable pub str_round : Bytes → ℕ → ℕ → Round ℕ Bytes
str_round bytes start i = at_byte bytes i (stop (err invalid)) (str_byte bytes start i)

unfoldable pub as_str : Bytes → ℕ → JsonResult Bytes
unfolding str_round
as_str bytes at = do
  _ ← guard (byte_is bytes at 34)
  loop (str_round bytes (at + 1)) (length bytes + 1) (at + 1)

abbrev pub number_byte : ℕ → Bool
number_byte b = is_digit b || b == 46 || b == 101 || b == 69 || b == 45 || b == 43

unfoldable pub skip_number : Bytes → ℕ → JsonResult ℕ
skip_number bytes at =
    let digits_start = (if byte_is bytes at 45 then at + 1 else at) in
    let i = digits_start + prefix_length number_byte (drop digits_start bytes) in
    if i == digits_start then err invalid else ok i

-- `depth: i32` in offset binary: `zero_depth` stands for 0.
abbrev pub zero_depth : ℕ
zero_depth = 0x8000_0000

pub record Container : Type 0 where
  pub i : ℕ
  pub depth : ℕ
  pub in_str : Bool

unfoldable pub container_byte : ℕ → ℕ → Container → ℕ → Round Container ℕ
container_byte opening closing s b =
    if s.in_str
    then (if b == 92
        then again (record s { i = s.i + 2 })
        else again (record s { i = s.i + 1; in_str = not (b == 34) }))
    else if b == 34
    then again (record s { i = s.i + 1; in_str = true })
    else if b == opening
    then again (record s { i = s.i + 1; depth = s.depth + 1 })
    else if b == closing
    then (if s.depth - 1 == zero_depth
        then stop (ok (s.i + 1))
        else again (record s { i = s.i + 1; depth = s.depth - 1 }))
    else again (record s { i = s.i + 1 })

unfoldable pub container_round : Bytes → ℕ → ℕ → Container → Round Container ℕ
unfolding container_byte
container_round bytes opening closing s = elim (get_elem? bytes s.i) [
  | none ↦ stop (err invalid)
  | some b ↦ container_byte opening closing s b
]

unfoldable pub skip_container : Bytes → ℕ → ℕ → ℕ → JsonResult ℕ
unfolding loop container_round
skip_container bytes at opening closing =
    loop (container_round bytes opening closing) (length bytes + 1)
      (record { i = at; depth = zero_depth; in_str = false })

unfoldable pub skip_keyword : Bytes → ℕ → JsonResult ℕ
unfolding starts_with
skip_keyword bytes at =
    if starts_with (drop at bytes) (codes "true")
    then ok (at + 4)
    else if starts_with (drop at bytes) (codes "false")
    then ok (at + 5)
    else if starts_with (drop at bytes) (codes "null")
    then ok (at + 4)
    else err invalid

unfoldable pub skip_string : Bytes → ℕ → JsonResult ℕ
unfolding as_str
skip_string bytes at = do s ← as_str bytes at; ok (at + 2 + length s)

-- The match of `skip_value` on the byte at `at`.
unfoldable pub skip_from : Bytes → ℕ → ℕ → JsonResult ℕ
unfolding skip_string skip_container skip_keyword skip_number
skip_from bytes at b =
    if b == 34
    then skip_string bytes at
    else if b == 123
    then skip_container bytes at 123 125
    else if b == 91
    then skip_container bytes at 91 93
    else if b == 116 || b == 102 || b == 110
    then skip_keyword bytes at
    else if b == 45 || is_digit b
    then skip_number bytes at
    else err invalid

unfoldable pub skip_value : Bytes → ℕ → JsonResult ℕ
unfolding skip_from
skip_value bytes at = elim (get_elem? bytes at) [
  | none ↦ err invalid
  | some b ↦ skip_from bytes at b
]

-- What follows a member or an element that ends at `i`: the next one, or the end.
unfoldable pub after_item : {S A : Type 0} → Bytes → ℕ → ℕ → (ℕ → S) → A → Round S A
unfolding skip_ws
after_item bytes close i next last =
    let j = skip_ws bytes i in
    if byte_is bytes j 44
    then again (next (skip_ws bytes (j + 1)))
    else if byte_is bytes j close
    then stop (ok last)
    else stop (err invalid)

abbrev pub settle : {S A B : Type 0} → JsonResult B → (B → Round S A) → Round S A
settle (ok b) k = k b
settle (err e) k = stop (err e)

-- `"key" :`, and the position of the value behind it.
unfoldable pub read_key : Bytes → ℕ → JsonResult (Bytes × ℕ)
read_key bytes i = do
  _ ← guard (byte_is bytes i 34)
  k ← as_str bytes i
  let j = skip_ws bytes (i + (2 + length k))
  _ ← guard (byte_is bytes j 58)
  ok (k, skip_ws bytes (j + 1))

unfoldable pub key_round : Bytes → Bytes → ℕ → Round ℕ (Option ℕ)
unfolding read_key skip_value after_item
key_round bytes key i = settle (read_key bytes i) λ (k, j).
    if bytes_eq k key
    then stop (ok (some j))
    else settle (skip_value bytes j) λ end. after_item bytes 125 end (λ n. n) none

unfoldable pub find_key_in_object : Bytes → ℕ → Bytes → JsonResult (Option ℕ)
unfolding loop skip_ws key_round
find_key_in_object bytes at key =
    let i = skip_ws bytes (at + 1) in
    if byte_is bytes i 125 then ok none else loop (key_round bytes key) (length bytes + 1) i

-- The loop of `find_path` over the keys: where it ends, if each of them is there.
unfoldable pub descend : Bytes → ℕ → List Bytes → JsonResult (Option ℕ)
unfolding find_key_in_object
descend bytes cursor [] = ok (some cursor)
descend bytes cursor (key ∷ path) = if not (byte_is bytes cursor 123) then ok none else do
  found ← find_key_in_object bytes cursor key
  elim found [ none ↦ ok none | some value_start ↦ descend bytes value_start path ]

-- The span of the value that a path leads to.
unfoldable pub value_span : Bytes → Option ℕ → JsonResult (Option (ℕ × ℕ))
unfolding skip_value
value_span bytes none = ok none
value_span bytes (some cursor) = do end ← skip_value bytes cursor; ok (some (cursor, end))

unfoldable pub find_path : Bytes → List Bytes → JsonResult (Option (ℕ × ℕ))
unfolding descend skip_ws value_span
find_path bytes path = do found ← descend bytes (skip_ws bytes 0) path; value_span bytes found

module _ {A : Type 0} (bytes : Bytes) (f : ℕ → ℕ → A → Bool × A) where
  -- `f` is the closure and `A` what it captures; it returns whether to go on.
  unfoldable pub element_round : ℕ × A → Round (ℕ × A) A
  unfolding skip_value after_item
  element_round (start, a) = settle (skip_value bytes start) λ i.
      let (more, a') = f start i a in
      if not more then stop (ok a') else after_item bytes 93 i (λ n. (n, a')) a'

  unfoldable pub each_element : ℕ → A → JsonResult A
  unfolding loop skip_ws element_round
  each_element at a = do
    _ ← guard (byte_is bytes at 91)
    let i = skip_ws bytes (at + 1)
    if byte_is bytes i 93 then ok a else loop element_round (length bytes + 1) (i, a)

-- `str::parse::<f64>`, the standard library's conversion of a decimal.
module _ (parse_f64 : Bytes → Option ℕ) where
  unfoldable pub utf8_number : Bytes → JsonResult Bytes
  utf8_number text = if is_utf8 text then ok text else err invalid

  unfoldable pub i64_of_text : Bytes → Option ℕ
  i64_of_text text = elim (parse_i64 text) [
    | some v ↦ some v
    | none ↦ elim (parse_f64 text) [ none ↦ none | some f ↦ some (f64_to_i64 f) ]
  ]

  unfoldable pub as_i64 : Bytes → ℕ → JsonResult ℕ
  unfolding utf8_number i64_of_text skip_number
  as_i64 bytes at = do
    end ← skip_number bytes at
    text ← utf8_number (between bytes at end)
    ok_or (i64_of_text text) invalid

  unfoldable pub as_f64 : Bytes → ℕ → JsonResult ℕ
  unfolding utf8_number skip_number
  as_f64 bytes at = do
    end ← skip_number bytes at
    text ← utf8_number (between bytes at end)
    ok_or (parse_f64 text) invalid
