-- ===== src/ConnectorSdk/Paginate/Offset.antt =====
-- crates/sealstack-connector-sdk/src/paginate.rs, `OffsetPaginator`: pages by start and limit. The
-- server is a parameter: `send` gives the body of a request, and may change its state `W`. So are
-- `Value::as_u64`, the decoding of an item, and `u64::to_string`.
use sealstack.Prelude.{
  ℕ, ◌+◌, ◌%◌, ◌^◌, Bool, Option, none, some, List, [], ◌∷◌, if◌then◌else◌, leb, ltb, length,
  Result, ok, err, ◌>>=◌, ok_or,
}
use sealstack.Bytes.{Bytes, codes}
use sealstack.Json.{Value, Items, get, as_array}
use sealstack.ConnectorSdk.Paginate.{PageError, backend}

-- `OffsetPaginator`, its fields that change, and the server.
pub record Offset (W : Type 0) : Type 0 where
  pub server : W
  pub next_start : ℕ
  pub total : Option ℕ

-- `OffsetPaginator::new`, with the server beside it.
abbrev pub new_offset : {W : Type 0} → W → Offset W
new_offset w = record { server = w; next_start = 0; total = none }

module _ {W A : Type 0} (send : W → ℕ → ℕ → W × Result PageError Value) (as_u64 : Value → Option ℕ)
    (decode : Value → Result PageError A) (to_string : ℕ → Bytes) (items_key : Bytes)
    (limit : ℕ) where
  unfoldable pub decode_all : Items → Result PageError (List A)
  decode_all Items.nil = ok []
  decode_all (Items.cons v vs) = do x ← decode v; xs ← decode_all vs; ok (x ∷ xs)

  unfoldable pub items_of : Value → Result PageError (List A)
  unfolding decode_all
  items_of body = do
    v ← ok_or (get body items_key) (backend items_key)
    xs ← ok_or (as_array v) (backend items_key)
    decode_all xs

  unfoldable pub total_of : Option ℕ → Value → Option ℕ
  total_of (some t) body = some t
  total_of none body = elim (get body (codes "total")) [ none ↦ none | some v ↦ as_u64 v ]

  -- No page is left: by the total, or, with none, by a page shorter than the limit.
  unfoldable pub is_done : Option ℕ → ℕ → ℕ → Bool
  is_done (some t) next returned = leb t next
  is_done none next returned = ltb returned limit

  -- The end of `fetch_page`, with the items at hand: `next_start` is a `u64`.
  unfoldable pub advance :
      W → ℕ → Option ℕ → List A → Offset W × Result PageError (List A × Option Bytes)
  unfolding is_done
  advance w start total items =
      let next = (start + length items) % 2 ^ 64 in
      (
        record { server = w; next_start = next; total = total },
        ok (items, if is_done total next (length items) then none else some (to_string next)),
      )

  unfoldable pub after_items :
      W
      → ℕ
      → Option ℕ
      → Result PageError (List A)
      → Offset W × Result PageError (List A × Option Bytes)
  unfolding advance
  after_items w start total (err e) =
      (record { server = w; next_start = start; total = total }, err e)
  after_items w start total (ok items) = advance w start total items

  unfoldable pub after_answer :
      Offset W → W × Result PageError Value → Offset W × Result PageError (List A × Option Bytes)
  unfolding after_items items_of total_of
  after_answer s (w, err e) =
      (record { server = w; next_start = s.next_start; total = s.total }, err e)
  after_answer s (w, ok body) = after_items w s.next_start (total_of s.total body) (items_of body)

  unfoldable pub fetch_page :
      Offset W → Option Bytes → Offset W × Result PageError (List A × Option Bytes)
  unfolding after_answer
  fetch_page s cursor = after_answer s (send s.server s.next_start limit)
