-- ===== src/ConnectorSdk/Http/Success.antt =====
-- Requests of `send` of crates/sealstack-connector-sdk/src/http.rs that fail before one succeeds.
use mathlib.Core.Path.{subst}
use sealstack.Prelude.{
  ℕ, zero, suc, ◌+◌, ◌<◌, ◌≡◌, refl, ap, ◌∙◌, true, false, Option, none, some, ◌++◌, arith, ◌==◌,
  Result, ok,
}
use sealstack.ConnectorSdk.Http.{
  Response, Reply, responded, network_error, Client, Round, again, return, is_fatal, retry,
  on_response, on_reply, send_round, resume, send_loop, started, send,
}
use sealstack.Bytes.{Bytes, codes}
use sealstack.ConnectorSdk.Error.{SealStackError}
use sealstack.ConnectorSdk.Auth.{is_success, static_token}
use sealstack.ConnectorSdk.Retry.{RetryPolicy}

-- A failure that is retried: of the network, or a status that is neither 401 nor a fatal one.
abbrev pub Retryable : Reply → Type 0
Retryable network_error = Unit
Retryable (responded resp) =
    (is_success resp.status ≡ false)
    × ((resp.status == 401) ≡ false)
    × (is_fatal resp.status ≡ false)

module _ (policy : RetryPolicy) (body_cap : ℕ) (trim : Bytes → Bytes) (random : ℕ → ℕ)
    (server : ℕ → Bytes → Reply) where
  abbrev loop_of : ℕ → Client Bytes → Option (Result SealStackError Response × Client Bytes)
  loop_of = send_loop static_token policy body_cap trim random server

  abbrev Delivers : Response → Option (Result SealStackError Response × Client Bytes) → Type 0
  Delivers resp o = (s : Client Bytes) × (o ≡ some (ok resp, s))

  -- A client that has sent a request for each attempt.
  abbrev Counted : ℕ → Client Bytes → Type 0
  Counted t s = (s.attempt ≡ t) × (s.sent ≡ t)

  -- A retried failure leaves the client ready for the next request.
  abbrev GoesOn : ℕ → Round Bytes → Type 0
  GoesOn t (again s) = Counted t s
  GoesOn t (return r s) = ⊥

  retry-GoesOn :
      (s : Client Bytes) (header : Option Bytes) (t : ℕ)
      → Counted t s
      → t < policy.max_attempts
      → GoesOn t (retry static_token policy body_cap trim random server s header)
  unfolding retry
  retry-GoesOn s header t c lt = ground arith

  round-GoesOn :
      (s : Client Bytes) (t : ℕ) (r : Reply)
      → Retryable r
      → Counted t s
      → suc t < policy.max_attempts
      → GoesOn (suc t) (
          on_reply static_token policy body_cap trim random server
            (record s { sent = s.sent + 1 })
            r)
  unfolding on_response
  round-GoesOn s t network_error h c lt =
      retry-GoesOn (record s { sent = s.sent + 1; attempt = s.attempt + 1 }) none (suc t)
        (omega (arith, c.0), omega (arith, c.1)) lt
  round-GoesOn s t (responded resp) (failed, other, mild) c lt =
      rw (failed, other, mild)
        (retry-GoesOn (record s { sent = s.sent + 1; attempt = s.attempt + 1 }) resp.retry_after
          (suc t) (omega (arith, c.0), omega (arith, c.1)) lt)

  resume-Delivers :
      (go : Client Bytes → Option (Result SealStackError Response × Client Bytes)) (resp : Response)
      (t : ℕ) (r : Round Bytes)
      → GoesOn t r
      → ((s : Client Bytes) → Counted t s → Delivers resp (go s))
      → Delivers resp (resume static_token policy body_cap trim random server go r)
  resume-Delivers go resp t (again s) h f = f s h
  resume-Delivers go resp t (return r s) h f = absurd h

  abbrev header_of : Client Bytes → Bytes
  header_of s = codes "Bearer " ++ s.credential

  send_round-static :
      (s : Client Bytes)
      → send_round static_token policy body_cap trim random server s
        ≡ on_reply static_token policy body_cap trim random server
            (record s { sent = s.sent + 1 })
            (server s.sent (header_of s))
  unfolding send_round static_token
  send_round-static s = refl

  last-Delivers :
      (s : Client Bytes) (resp : Response) (fuel : ℕ)
      → server s.sent (header_of s) ≡ responded resp
      → is_success resp.status ≡ true
      → Delivers resp (loop_of (suc fuel) s)
  unfolding send_loop on_response
  last-Delivers s resp fuel answer success =
      (record s { sent = s.sent + 1 }, rw (send_round-static s, answer, success) refl)

  module _ (k : ℕ) (resp : Response)
      (failing : (t : ℕ) → t < k → (header : Bytes) → Retryable (server t header))
      (answer : (header : Bytes) → server k header ≡ responded resp) where
    loop-Delivers :
        (d t : ℕ) (s : Client Bytes)
        → t + d ≡ k
        → k < policy.max_attempts
        → is_success resp.status ≡ true
        → Counted t s
        → Delivers resp (loop_of (suc d) s)
    unfolding send_loop
    loop-Delivers zero t s e lt success c =
        last-Delivers s resp 0
          (ap (λ n. server n (header_of s)) (omega (arith, c.1)) ∙ answer (header_of s)) success
    loop-Delivers (suc d) t s e lt success c = rw (send_round-static s) (
        resume-Delivers (loop_of (suc d)) resp (suc t) _
          (round-GoesOn s t (server s.sent (header_of s))
            (failing s.sent (omega (arith, c.1)) (header_of s)) c (omega arith))
          (λ s' c'. loop-Delivers d (suc t) s' (omega arith) lt success c'))

  -- Where fewer than `max_attempts` requests fail in ways that are retried, and the next one
  -- succeeds, `send` with a static token returns that response.
  pub send_succeeds :
      (token : Bytes) (k : ℕ) (resp : Response)
      → k < policy.max_attempts
      → ((t : ℕ) → t < k → (header : Bytes) → Retryable (server t header))
      → ((header : Bytes) → server k header ≡ responded resp)
      → is_success resp.status ≡ true
      → (s : Client Bytes) × (send static_token policy body_cap trim random server (k + 1) token
          ≡ some (ok resp, s))
  unfolding send
  send_succeeds token k resp lt failing answer success =
      subst
        (λ n.
          Delivers resp (loop_of n (started static_token policy body_cap trim random server token)))
        suc_eq
        (loop-Delivers k resp failing answer k 0
          (started static_token policy body_cap trim random server token) (omega arith) lt success
          (refl, refl))
    where
      suc_eq : suc k ≡ k + 1
      suc_eq = omega arith
