-- ===== src/ConnectorSdk/Http.antt =====
-- crates/sealstack-connector-sdk/src/http.rs: requests under the retry policy. The server is a
-- parameter: what it replies to each request, by the number of requests sent before and the header.
-- The loop of `send` takes fuel: none is out of fuel. The client's sleeps are listed, last first.
pub mod Ends
pub mod Sleeps
pub mod Bodies
mod Tests
pub mod Success
use sealstack.Prelude.{
  ℕ, zero, suc, ◌+◌, ◌-◌, ◌*◌, ◌/◌, max, ap, Bool, true, false, ◌&&◌, not, Option, none, some, List,
  [], ◌∷◌, ◌++◌, ltb, leb, ◌==◌, if◌then◌else◌, length, take, Result, ok, err,
}
use sealstack.Bytes.{Bytes}
use sealstack.ConnectorSdk.Error.{
  SealStackError, unauthorized, backend, http_status, retry_exhausted, body_too_large, config,
}
use sealstack.ConnectorSdk.Auth.{Credential, is_success}
use sealstack.ConnectorSdk.Retry.{RetryPolicy, retry_delay_for}

abbrev pub max_body_cap : ℕ
max_body_cap = 500 * 1024 * 1024

abbrev pub default_body_cap : ℕ
default_body_cap = 50 * 1024 * 1024

-- `HttpClient::with_body_cap`, on the cap.
unfoldable pub with_body_cap : ℕ → Result SealStackError ℕ
with_body_cap cap_bytes = if ltb max_body_cap cap_bytes then err config else ok cap_bytes

-- The chunks that arrive, and whether the stream ends after them or breaks.
pub record Body : Type 0 where
  pub chunks : List Bytes
  pub complete : Bool

unfoldable pub read_chunks : ℕ → Bool → List Bytes → Bytes → Result SealStackError Bytes
read_chunks cap complete [] buf = if complete then ok buf else err backend
read_chunks cap complete (chunk ∷ chunks) buf =
    let rest = read_chunks cap complete chunks (buf ++ chunk) in
    if ltb cap (length buf + length chunk) then err (body_too_large cap) else rest

-- `HttpResponse::bytes` and `read_body_capped`, before the conversion to text.
unfoldable pub read_body : ℕ → Body → Result SealStackError Bytes
unfolding read_chunks
read_body cap body = read_chunks cap body.complete body.chunks []

pub record Response : Type 0 where
  pub status : ℕ
  pub retry_after : Option Bytes
  pub body : Body

pub data Reply : Type 0 where
  responded : Response → Reply
  network_error : Reply

pub record Client (S : Type 0) : Type 0 where
  pub attempt : ℕ
  pub invalidated_once : Bool
  pub credential : S
  pub sent : ℕ
  pub sleeps : List ℕ

-- What one round of the loop does.
pub data Round (S : Type 0) : Type 0 where
  again : Client S → Round S
  return : Result SealStackError Response → Client S → Round S

abbrev is_client_error : ℕ → Bool
is_client_error status = leb 400 status && ltb status 500

-- A client error that is not retried.
abbrev pub is_fatal : ℕ → Bool
is_fatal status = is_client_error status && not (status == 408) && not (status == 429)

abbrev pub or_empty : Result SealStackError Bytes → Bytes
or_empty (ok body) = body
or_empty (err e) = []

module _ {S : Type 0} (credential : Credential S) (policy : RetryPolicy) (body_cap : ℕ)
    (trim : Bytes → Bytes) (random : ℕ → ℕ) (server : ℕ → Bytes → Reply) where
  -- The end of a round that failed: give up, or sleep. `s` has counted the attempt.
  unfoldable pub retry : Client S → Option Bytes → Round S
  retry s header =
      if leb policy.max_attempts s.attempt
      then return (err (retry_exhausted s.attempt backend)) s
      else again (record s {
        sleeps = retry_delay_for trim random policy (s.attempt - 1) header ∷ s.sleeps;
      })

  unfoldable pub on_response : Client S → Response → Round S
  unfolding retry read_body
  on_response s resp =
      let counted = record s { attempt = s.attempt + 1 } in
      if is_success resp.status
      then return (ok resp) s
      else if resp.status == 401
      then (if s.invalidated_once
          then return (err unauthorized) s
          else again (record s {
            credential = credential.invalidate s.credential;
            invalidated_once = true;
          }))
      else if is_fatal resp.status
      then return (err (http_status resp.status (or_empty (read_body body_cap resp.body)))) counted
      else retry counted resp.retry_after

  abbrev pub on_reply : Client S → Reply → Round S
  on_reply s (responded resp) = on_response s resp
  on_reply s network_error = retry (record s { attempt = s.attempt + 1 }) none

  abbrev pub with_header : Client S → Result SealStackError Bytes × S → Round S
  with_header s (err e, c) = return (err e) (record s { credential = c })
  with_header s (ok header, c) =
      on_reply (record s { credential = c; sent = s.sent + 1 }) (server s.sent header)

  unfoldable pub send_round : Client S → Round S
  unfolding on_response retry
  send_round s = with_header s (credential.authorization_header s.credential)

  abbrev pub resume :
      (Client S → Option (Result SealStackError Response × Client S))
      → Round S
      → Option (Result SealStackError Response × Client S)
  resume go (again s) = go s
  resume go (return r s) = some (r, s)

  unfoldable pub send_loop : ℕ → Client S → Option (Result SealStackError Response × Client S)
  unfolding send_round
  send_loop zero s = none
  send_loop (suc fuel) s = resume (send_loop fuel) (send_round s)

  abbrev pub started : S → Client S
  started c = record {
    attempt = 0;
    invalidated_once = false;
    credential = c;
    sent = 0;
    sleeps = [];
  }

  unfoldable pub send : ℕ → S → Option (Result SealStackError Response × Client S)
  unfolding send_loop
  send fuel c = send_loop fuel (started c)
