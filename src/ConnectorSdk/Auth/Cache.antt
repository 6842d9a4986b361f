-- ===== src/ConnectorSdk/Auth/Cache.antt =====
-- The caches of `OAuth2Credential` of crates/sealstack-connector-sdk/src/auth.rs.
use sealstack.Prelude.{
  ℕ, ◌<◌, ◌≡◌, refl, Bool, true, false, Option, none, some, arith, ltb, if◌then◌else◌, lt→ltb,
  Result, ok, err,
}
use sealstack.ConnectorSdk.Auth.{
  bearer, CachedAccess, TokenReply, is_permanent, refresh_with_retry, refreshed, header_from_cache,
  authorization_header, invalidate,
}
use sealstack.Bytes.{Bytes}
use sealstack.ConnectorSdk.Error.{SealStackError, backend}

-- The header of a refresh.
unfoldable pub fresh_header : Result SealStackError (Bytes × ℕ) → Result SealStackError Bytes
fresh_header (ok (token, expires_in)) = ok (bearer token)
fresh_header (err e) = if is_permanent e then err e else err backend

-- The negative cache has not expired.
unfoldable pub is_blocked : ℕ → Option ℕ → Bool
is_blocked now none = false
is_blocked now (some expires) = ltb now expires

module _ (parse_token : Bytes → Option (Bytes × ℕ)) (parse_error : Bytes → Option Bytes)
    (replies : ℕ → TokenReply) where
  refreshed-fresh_header :
      (later : ℕ) (cache : CachedAccess) (r : Result SealStackError (Bytes × ℕ))
      → (refreshed parse_token parse_error later cache r).0 ≡ fresh_header r
  unfolding fresh_header
  refreshed-fresh_header later cache (ok (token, expires_in)) = refl
  refreshed-fresh_header later cache (err e) = ground arith

  abbrev header_or_block : ℕ → ℕ → CachedAccess → Bool → Result SealStackError Bytes × CachedAccess
  header_or_block now later cache blocked =
      if blocked
      then (err backend, cache)
      else refreshed parse_token parse_error later (record cache { negative_cache = none })
          (refresh_with_retry parse_token parse_error replies)

  header_or_block-fresh_header :
      (now later : ℕ) (cache : CachedAccess) (blocked : Bool)
      → (header_or_block now later cache blocked).0 ≡ (
          if blocked
          then err backend
          else fresh_header (refresh_with_retry parse_token parse_error replies))
  header_or_block-fresh_header now later cache true = refl
  header_or_block-fresh_header now later cache false = refreshed-fresh_header later _ _

  -- After `invalidate` the old token is not served again: the result is that of a refresh, or at
  -- once an error while the negative cache has not expired.
  pub authorization_header-invalidate :
      (now later : ℕ) (cache : CachedAccess)
      → (authorization_header parse_token parse_error now later replies (invalidate cache)).0 ≡ (
          if is_blocked now cache.negative_cache
          then err backend
          else fresh_header (refresh_with_retry parse_token parse_error replies))
  unfolding authorization_header header_from_cache invalidate is_blocked
  authorization_header-invalidate now later cache = go cache.negative_cache refl
    where
      go :
          (o : Option ℕ)
          → cache.negative_cache ≡ o
          → (authorization_header parse_token parse_error now later replies (invalidate cache)).0
            ≡ (if is_blocked now o
                then err backend
                else fresh_header (refresh_with_retry parse_token parse_error replies))
      go none e = rw e (refreshed-fresh_header later _ _)
      go (some expires) e = rw e (
          header_or_block-fresh_header now later
            (record { access_token = none; valid_until = none; negative_cache = some expires })
            (ltb now expires))

  -- While the negative cache has not expired, a call fails without asking the endpoint, and changes
  -- nothing.
  negative_cache_holds :
      (now later expires : ℕ) (cache : CachedAccess)
      → cache.negative_cache ≡ some expires
      → now < expires
      → authorization_header parse_token parse_error now later replies cache ≡ (err backend, cache)
  unfolding authorization_header
  negative_cache_holds now later expires cache e lt = rw (e, lt→ltb now expires lt) refl
