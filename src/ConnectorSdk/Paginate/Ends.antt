-- ===== src/ConnectorSdk/Paginate/Ends.antt =====
-- `paginate` over an `OffsetPaginator` (crates/sealstack-connector-sdk/src/paginate.rs), round by
-- round.
use mathlib.Core.Path.{subst}
use sealstack.Prelude.{
  suc, ◌⊎◌, inl, inr, none_ne_some, zero, sym, arith, ℕ, ◌+◌, ◌%◌, ◌^◌, ◌≤◌, ◌<◌, ◌≡◌, refl, Option,
  none, some, List, leb, length, Result, ok, err, Bool-cases,
}
use sealstack.Bytes.{Bytes, codes, bytes_eq_refl}
use sealstack.Json.{Value, get}
use sealstack.ConnectorSdk.Paginate.{
  unless_stuck, stuck, paginate, PageError, Stream, after_page, yield_all,
}
use sealstack.ConnectorSdk.Paginate.Offset.{
  new_offset, after_items, after_answer, items_of, total_of, fetch_page, Offset, advance, is_done,
}

-- The loop returns.
abbrev pub Ends : {A : Type 0} → Option (Stream A) → Type 0
Ends {A} o = (r : Stream A) × (o ≡ some r)

yield_all-Ends :
    {A : Type 0} (items : List A) (o : Option (Stream A)) → Ends o → Ends (yield_all items o)
yield_all-Ends items none (r, h) = absurd (none_ne_some h)
yield_all-Ends items (some (later, e)) h = (_, refl)

unless_stuck-Ends :
    {A : Type 0} (o : Option Bytes) (rest : Option (Stream A))
    → Ends rest
    → Ends (unless_stuck o rest)
unless_stuck-Ends none rest h = h
unless_stuck-Ends (some c) rest h = (_, refl)

stuck-none : (prev : Option Bytes) → stuck prev none ≡ none
unfolding stuck
stuck-none none = refl
stuck-none (some p) = refl

stuck-same : (c : Bytes) → stuck (some c) (some c) ≡ some c
unfolding stuck
stuck-same c = rw bytes_eq_refl refl

-- A page that is not the last: its cursor is the next offset, which is no smaller, and still below
-- the total.
abbrev Continues :
    {W A : Type 0}
    → (ℕ → Bytes)
    → ℕ
    → ℕ
    → Offset W × Result PageError (List A × Option Bytes)
    → Type 0
Continues to_string all start (s, err e) = Unit
Continues to_string all start (s, ok (items, none)) = Unit
Continues to_string all start (s, ok (items, some c)) =
    (c ≡ to_string s.next_start)
    × (s.total ≡ some all)
    × (start ≤ s.next_start)
    × (s.next_start < all)

after_page-Ends :
    {W A : Type 0} (to_string : ℕ → Bytes) (all start : ℕ)
    (go : Offset W → Option Bytes → Option (Stream A))
    (r : Offset W × Result PageError (List A × Option Bytes))
    → Continues to_string all start r
    → ((s : Offset W)
        → s.total ≡ some all
        → start ≤ s.next_start
        → s.next_start < all
        → Ends (go s (some (to_string s.next_start))))
    → (fetch : Offset W → Option Bytes → Offset W × Result PageError (List A × Option Bytes))
    → Ends (after_page fetch go r)
after_page-Ends to_string all start go (s, err e) h k fetch = (_, refl)
after_page-Ends to_string all start go (s, ok (items, none)) h k fetch = (_, refl)
after_page-Ends to_string all start go (s, ok (items, some c)) (e, known, later, more) k fetch =
    yield_all-Ends items (go s (some c))
      (subst (λ d. Ends (go s (some d))) (sym e) (k s known later more))

lt_or_eq : (a b : ℕ) → a ≤ b → (a < b) ⊎ (a ≡ b)
lt_or_eq a b h = ground arith

module _ {W A : Type 0} (send : W → ℕ → ℕ → W × Result PageError Value) (as_u64 : Value → Option ℕ)
    (decode : Value → Result PageError A) (to_string : ℕ → Bytes) (items_key : Bytes)
    (limit : ℕ) where
  abbrev pub fetch : Offset W → Option Bytes → Offset W × Result PageError (List A × Option Bytes)
  fetch = fetch_page send as_u64 decode to_string items_key limit

  advance-Continues :
      (all start : ℕ) (w : W) (items : List A)
      → start ≤ all
      → all + length items < 2 ^ 64
      → Continues to_string all start
          (advance send as_u64 decode to_string items_key limit w start (some all) items)
  unfolding advance is_done
  advance-Continues all start w items h small =
      let same : (start + length items) % 2 ^ 64 ≡ start + length items = omega arith in
      elim (Bool-cases (leb all (start + length items))) [
        | inl over ↦ rw (same, over) tt
        | inr more ↦ rw (same, more) (refl, refl, omega arith, ground arith)
      ]

  module _ (all : ℕ)
      (small : (w w' : W) (start : ℕ) (body : Value) (items : List A)
        → send w start limit ≡ (w', ok body)
        → items_of send as_u64 decode to_string items_key limit body ≡ ok items
        → all + length items < 2 ^ 64) where
    after_items-Continues :
        (start : ℕ) (w w' : W) (body : Value) (r : Result PageError (List A))
        → send w start limit ≡ (w', ok body)
        → items_of send as_u64 decode to_string items_key limit body ≡ r
        → start ≤ all
        → Continues to_string all start
            (after_items send as_u64 decode to_string items_key limit w' start (some all) r)
    unfolding after_items
    after_items-Continues start w w' body (err e) sent h more = tt
    after_items-Continues start w w' body (ok items) sent h more =
        advance-Continues all start w' items more (small w w' start body items sent h)

    after_answer-Continues :
        (s : Offset W) (r : W × Result PageError Value)
        → send s.server s.next_start limit ≡ r
        → s.total ≡ some all
        → s.next_start ≤ all
        → Continues to_string all s.next_start
            (after_answer send as_u64 decode to_string items_key limit s r)
    unfolding after_answer total_of
    after_answer-Continues s (w, err e) sent known more = tt
    after_answer-Continues s (w, ok body) sent known more =
        rw known (after_items-Continues s.next_start s.server w body _ sent refl more)

    fetch-Continues :
        (s : Offset W) (cursor : Option Bytes)
        → s.total ≡ some all
        → s.next_start ≤ all
        → Continues to_string all s.next_start (fetch s cursor)
    unfolding fetch_page
    fetch-Continues s cursor known more =
        after_answer-Continues s (send s.server s.next_start limit) refl known more

    -- The same cursor again ends the loop.
    repeat-Ends :
        (fuel : ℕ) (s : Offset W) (c : Bytes)
        → 0 < fuel
        → Ends (paginate fetch fuel s (some c) (some c))
    unfolding paginate
    repeat-Ends zero s c h = absurd (omega arith)
    repeat-Ends (suc fuel) s c h = rw (stuck-same c) (_, refl)

    -- With the cursor that the last page gave.
    paginate_on :
        (fuel : ℕ) (s : Offset W) (prev : Option Bytes)
        → s.total ≡ some all
        → s.next_start < all
        → all + 2 ≤ s.next_start + fuel
        → Ends (paginate fetch fuel s (some (to_string s.next_start)) prev)
    unfolding paginate
    paginate_on zero s prev known more enough = absurd (omega arith)
    paginate_on (suc fuel) s prev known more enough =
        unless_stuck-Ends (stuck prev (some (to_string s.next_start))) _ (
          after_page-Ends to_string all s.next_start
            (λ s' next. paginate fetch fuel s' next (some (to_string s.next_start)))
            (fetch s (some (to_string s.next_start)))
            (fetch-Continues s (some (to_string s.next_start)) known (omega arith))
            (λ s' known' later more'. elim (lt_or_eq s.next_start s'.next_start later) [
              | inl further ↦
                  paginate_on fuel s' (some (to_string s.next_start)) known' more' (omega arith)
              | inr same ↦
                  subst
                    (λ n. Ends (
                      paginate fetch fuel s' (some (to_string s'.next_start)) (some (to_string n))))
                    (sym same) (repeat-Ends fuel s' (to_string s'.next_start) (omega arith))
            ])
            fetch)

    module _ (w : W)
        (tells : (w' : W) (body : Value)
          → send w 0 limit ≡ (w', ok body)
          → (v : Value) × (get body (codes "total") ≡ some v) × (as_u64 v ≡ some all)) where
      told :
          (o : Option Value) {v : Value}
          → o ≡ some v
          → as_u64 v ≡ some all
          → (elim o [ none ↦ none | some x ↦ as_u64 x ]) ≡ some all
      told o e number =
          subst (λ p. (elim p [ none ↦ none | some x ↦ as_u64 x ]) ≡ some all) (sym e) number

      total_of-told :
          (body : Value) {v : Value}
          → get body (codes "total") ≡ some v
          → as_u64 v ≡ some all
          → total_of send as_u64 decode to_string items_key limit none body ≡ some all
      unfolding total_of
      total_of-told body there number = told (get body (codes "total")) there number

      first_answer-Continues :
          (r : W × Result PageError Value)
          → send w 0 limit ≡ r
          → Continues to_string all 0
              (after_answer send as_u64 decode to_string items_key limit (new_offset w) r)
      unfolding after_answer
      first_answer-Continues (w', err e) sent = tt
      first_answer-Continues (w', ok body) sent =
          let (v, there, number) = tells w' body sent in
          rw (total_of-told body there number)
            (after_items-Continues 0 w w' body _ sent refl (omega arith))

      first-Continues : Continues to_string all 0 (fetch (new_offset w) none)
      unfolding fetch_page
      first-Continues = first_answer-Continues (send w 0 limit) refl

      -- The loop over the pages of a new paginator by offset ends within three rounds more than the total,
      -- whatever the server answers, pages without items and errors included, where the first page, if
      -- there is one, tells the total, and the total and the items of any one page together stay below
      -- 2 ^ 64.
      pub paginate-offset-Ends : Ends (paginate fetch (all + 3) (new_offset w) none none)
      unfolding paginate
      paginate-offset-Ends =
          let e : suc (all + 2) ≡ all + 3 = omega arith in
          subst (λ n. Ends (paginate fetch n (new_offset w) none none)) e
            (unless_stuck-Ends (stuck none none) _ (
              after_page-Ends to_string all 0 (λ s' next. paginate fetch (all + 2) s' next none)
                (fetch (new_offset w) none) first-Continues
                (λ s' known' later more'. paginate_on (all + 2) s' none known' more' (omega arith))
                fetch))
