-- ===== src/ConnectorSdk/Paginate.antt =====
-- crates/sealstack-connector-sdk/src/paginate.rs: the loop that drives a paginator, and the
-- paginator by offset. A paginator is a parameter of the loop, `fetch`, with a state for its
-- `&mut self`; the stream is the list of its items and the error that ended it. The loop takes fuel:
-- none is out of fuel.
pub mod Offset
pub mod Ends
use sealstack.Prelude.{
  ℕ, zero, suc, Bool, true, false, Option, none, some, List, [], ◌∷◌, ◌++◌, if◌then◌else◌, Result,
  ok, err,
}
use sealstack.Bytes.{Bytes, bytes_eq}

pub data PageError : Type 0 where
  cursor_loop : Bytes → PageError
  backend : Bytes → PageError

-- The items yielded, and the error that ended the stream, if one did.
abbrev pub Stream : Type 0 → Type 0
Stream A = List A × Option PageError

-- The page's items, then those of the pages after it.
abbrev pub yield_all : {A : Type 0} → List A → Option (Stream A) → Option (Stream A)
yield_all items none = none
yield_all items (some (later, e)) = some (items ++ later, e)

-- The cursor to use is the one used last.
unfoldable pub stuck : Option Bytes → Option Bytes → Option Bytes
stuck (some p) (some c) = if bytes_eq p c then some c else none
stuck _ _ = none

-- A loop that is stuck fails with its cursor.
abbrev pub unless_stuck : {A : Type 0} → Option Bytes → Option (Stream A) → Option (Stream A)
unless_stuck none rest = rest
unless_stuck (some c) rest = some ([], some (cursor_loop c))

module _ {S A : Type 0}
    (fetch : S → Option Bytes → S × Result PageError (List A × Option Bytes)) where
  abbrev after_page :
      (S → Option Bytes → Option (Stream A))
      → S × Result PageError (List A × Option Bytes)
      → Option (Stream A)
  after_page go (s, err e) = some ([], some e)
  after_page go (s, ok (items, none)) = some (items, none)
  after_page go (s, ok (items, some next)) = yield_all items (go s (some next))

  unfoldable pub paginate : ℕ → S → Option Bytes → Option Bytes → Option (Stream A)
  unfolding stuck
  paginate zero s cursor prev = none
  paginate (suc fuel) s cursor prev =
      unless_stuck (stuck prev cursor)
        (after_page (λ s' next. paginate fuel s' next cursor) (fetch s cursor))
