-- ===== src/ConnectorSdk/Auth.antt =====
-- crates/sealstack-connector-sdk/src/auth.rs: credentials. An `Instant` or a `Duration` is a number
-- of nanoseconds. The token endpoint is a parameter, `replies`, by the number of the attempt, and so
-- are the decoders of its bodies; `now` and `later` are the clock before and after a refresh. The
-- sleeps between attempts are left out, and an `Instant` has no bound: the code panics where one does
-- not fit.
use sealstack.Prelude.{
  ℕ, zero, suc, ◌+◌, ◌*◌, Bool, true, false, ◌&&◌, ◌||◌, Option, none, some, ◌++◌, ltb, leb, ◌==◌,
  if◌then◌else◌, length, Result, ok, err, ok_or,
}
use sealstack.Bytes.{Bytes, codes, bytes_eq}
use sealstack.ConnectorSdk.Error.{SealStackError, unauthorized, config, backend}
pub mod Cache

-- `trait Credential`: what it holds is passed from call to call.
pub record Credential (S : Type 0) : Type 0 where
  pub authorization_header : S → Result SealStackError Bytes × S
  pub invalidate : S → S

abbrev pub bearer : Bytes → Bytes
bearer token = codes "Bearer " ++ token

unfoldable pub static_token : Credential Bytes
static_token = record {
  authorization_header = λ token. (ok (bearer token), token);
  invalidate = λ token. token;
}

-- `StaticToken::from_env_result`; none is an unset variable.
unfoldable pub from_env_result : Option Bytes → Result SealStackError Bytes
from_env_result none = err config
from_env_result (some s) = if length s == 0 then err config else ok s

abbrev pub second : ℕ
second = 1_000_000_000

abbrev pub refresh_skew : ℕ
refresh_skew = 60 * second

abbrev pub negative_cache_time : ℕ
negative_cache_time = 5 * second

-- `negative_cache` holds when it expires.
pub record CachedAccess : Type 0 where
  pub access_token : Option Bytes
  pub valid_until : Option ℕ
  pub negative_cache : Option ℕ

-- What the endpoint does: no answer, an answer whose body cannot be read, or a status and a body.
pub data TokenReply : Type 0 where
  no_transport no_body : TokenReply
  answered : ℕ → Bytes → TokenReply

abbrev pub is_success : ℕ → Bool
is_success status = leb 200 status && ltb status 300

-- Whether a refresh that failed must not be tried again.
abbrev pub is_permanent : SealStackError → Bool
is_permanent unauthorized = true
is_permanent config = true
is_permanent _ = false

module _ (parse_token : Bytes → Option (Bytes × ℕ)) (parse_error : Bytes → Option Bytes) where
  -- The match on `er.error`; a body that is no error response counts as `unknown`.
  bad_request : Option Bytes → SealStackError
  bad_request none = backend
  bad_request (some error) =
      if bytes_eq error (codes "invalid_grant")
      then unauthorized
      else if bytes_eq error (codes "invalid_client") || bytes_eq error (codes "invalid_scope")
      then config
      else backend

  unfoldable pub refresh_once : TokenReply → Result SealStackError (Bytes × ℕ)
  unfolding bad_request
  refresh_once no_transport = err backend
  refresh_once no_body = err backend
  refresh_once (answered status body) =
      if is_success status
      then ok_or (parse_token body) backend
      else if status == 400
      then err (bad_request (parse_error body))
      else err backend

  -- The loop over the attempts, `rounds` of them left.
  abbrev retry_unless :
      Result SealStackError (Bytes × ℕ)
      → (SealStackError → Result SealStackError (Bytes × ℕ))
      → Result SealStackError (Bytes × ℕ)
  retry_unless (ok t) again = ok t
  retry_unless (err e) again = if is_permanent e then err e else again e

  unfoldable pub refresh_loop :
      (ℕ → TokenReply) → ℕ → ℕ → SealStackError → Result SealStackError (Bytes × ℕ)
  unfolding refresh_once
  refresh_loop replies zero attempt last_err = err last_err
  refresh_loop replies (suc rounds) attempt last_err =
      retry_unless (refresh_once (replies attempt)) (refresh_loop replies rounds (attempt + 1))

  unfoldable pub refresh_with_retry : (ℕ → TokenReply) → Result SealStackError (Bytes × ℕ)
  unfolding refresh_loop
  refresh_with_retry replies = refresh_loop replies 3 0 backend

  abbrev pub refreshed :
      ℕ
      → CachedAccess
      → Result SealStackError (Bytes × ℕ)
      → Result SealStackError Bytes × CachedAccess
  refreshed later cache (ok (token, expires_in)) = (
    ok (bearer token),
    record cache { access_token = some token; valid_until = some (later + expires_in * second) },
  )
  refreshed later cache (err e) =
      if is_permanent e
      then (err e, cache)
      else (err backend, record cache { negative_cache = some (later + negative_cache_time) })

  -- The positive cache, or a refresh.
  abbrev cached :
      ℕ
      → Option Bytes
      → Option ℕ
      → Result SealStackError Bytes × CachedAccess
      → CachedAccess
      → Result SealStackError Bytes × CachedAccess
  cached now (some token) (some until) fresh cache =
      if ltb (now + refresh_skew) until then (ok (bearer token), cache) else fresh
  cached now _ _ fresh cache = fresh

  -- Behind the negative cache.
  unfoldable pub header_from_cache :
      ℕ → ℕ → (ℕ → TokenReply) → CachedAccess → Result SealStackError Bytes × CachedAccess
  unfolding refresh_with_retry
  header_from_cache now later replies cache =
      cached now cache.access_token cache.valid_until
        (refreshed later cache (refresh_with_retry replies)) cache

  unfoldable pub authorization_header :
      ℕ → ℕ → (ℕ → TokenReply) → CachedAccess → Result SealStackError Bytes × CachedAccess
  unfolding header_from_cache
  authorization_header now later replies cache = elim cache.negative_cache [
    | none ↦ header_from_cache now later replies cache
    | some expires ↦
        if ltb now expires
        then (err backend, cache)
        else header_from_cache now later replies (record cache { negative_cache = none })
  ]

unfoldable pub invalidate : CachedAccess → CachedAccess
invalidate cache = record cache { access_token = none; valid_until = none }
