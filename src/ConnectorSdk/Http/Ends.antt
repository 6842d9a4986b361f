-- ===== src/ConnectorSdk/Http/Ends.antt =====
-- The loop of `send` of crates/sealstack-connector-sdk/src/http.rs, round by round.
use sealstack.Prelude.{
  ℕ, zero, suc, ◌+◌, ◌-◌, ◌≤◌, ◌<◌, max, ◌≡◌, refl, Option, none, some, List, [], ◌∷◌, arith,
  if◌then◌else◌, Result, ok, err,
}
use sealstack.ConnectorSdk.Http.{
  Response, Reply, responded, network_error, Client, Round, again, return, retry, on_response,
  on_reply, with_header, send_round, resume, send_loop, started, send,
}
use sealstack.Bytes.{Bytes}
use sealstack.ConnectorSdk.Error.{SealStackError}
use sealstack.ConnectorSdk.Auth.{Credential}
use sealstack.ConnectorSdk.Retry.{RetryPolicy}

abbrev AllWithin : ℕ → List ℕ → Type 0
AllWithin bound [] = Unit
AllWithin bound (d ∷ ds) = (d ≤ bound) × AllWithin bound ds

module _ {S : Type 0} (credential : Credential S) (policy : RetryPolicy) (body_cap : ℕ)
    (trim : Bytes → Bytes) (random : ℕ → ℕ) (server : ℕ → Bytes → Reply) where
  -- The rounds that a client may still go on for.
  abbrev left : Client S → ℕ
  left s = (policy.max_attempts - 1 - s.attempt) + (if s.invalidated_once then 0 else 1)

  -- A round that goes on has one less to go on for, and sends one request at most.
  abbrev Spends : Client S → Round S → Type 0
  Spends s (again s') = (left s' < left s) × (s'.sent ≤ s.sent + 1)
  Spends s (return r s') = s'.sent ≤ s.sent + 1

  abbrev round_of : Client S → Round S
  round_of s = send_round credential policy body_cap trim random server s

  retry-Spends :
      (s s' : Client S) (header : Option Bytes)
      → s'.attempt ≡ s.attempt + 1
      → s'.invalidated_once ≡ s.invalidated_once
      → s'.sent ≡ s.sent + 1
      → Spends s (retry credential policy body_cap trim random server s' header)
  unfolding retry
  retry-Spends s s' header a i e = ground arith

  on_response-Spends :
      (s : Client S) (c : S) (resp : Response)
      → Spends s (
          on_response credential policy body_cap trim random server
            (record s { credential = c; sent = s.sent + 1 })
            resp)
  unfolding on_response
  on_response-Spends s c resp = ground (
    arith,
    retry-Spends s (record s { credential = c; sent = s.sent + 1; attempt = s.attempt + 1 })
        resp.retry_after refl refl refl,
  )

  send_round-Spends : (s : Client S) → Spends s (round_of s)
  unfolding send_round
  send_round-Spends s = go (credential.authorization_header s.credential)
    where
      reply :
          (c : S) (r : Reply)
          → Spends s (
              on_reply credential policy body_cap trim random server
                (record s { credential = c; sent = s.sent + 1 })
                r)
      reply c (responded resp) = on_response-Spends s c resp
      reply c network_error =
          retry-Spends s (record s { credential = c; sent = s.sent + 1; attempt = s.attempt + 1 })
            none refl refl refl

      go :
          (h : Result SealStackError Bytes × S)
          → Spends s (with_header credential policy body_cap trim random server s h)
      go (err e, c) = omega arith
      go (ok header, c) = reply c (server s.sent header)

  -- What the loop returns, after `n` requests at most.
  abbrev ReturnsWithin : ℕ → Option (Result SealStackError Response × Client S) → Type 0
  ReturnsWithin n o =
      (r : Result SealStackError Response) × (s : Client S) × (o ≡ some (r, s)) × (s.sent ≤ n)

  resume-ReturnsWithin :
      (go : Client S → Option (Result SealStackError Response × Client S)) (s : Client S) (n : ℕ)
      (r : Round S)
      → Spends s r
      → s.sent + left s < n
      → ((s' : Client S) → left s' < left s → s'.sent ≤ s.sent + 1 → ReturnsWithin n (go s'))
      → ReturnsWithin n (resume credential policy body_cap trim random server go r)
  resume-ReturnsWithin go s n (again s') (l, e) h f = f s' l e
  resume-ReturnsWithin go s n (return r s') e h f = (r, s', refl, omega arith)

  send_loop-ReturnsWithin :
      (fuel n : ℕ) (s : Client S)
      → left s < fuel
      → s.sent + left s < n
      → ReturnsWithin n (send_loop credential policy body_cap trim random server fuel s)
  unfolding send_loop
  send_loop-ReturnsWithin zero n s l h = elim l [ ]
  send_loop-ReturnsWithin (suc fuel) n s l h =
      resume-ReturnsWithin (send_loop credential policy body_cap trim random server fuel) s n
        (round_of s) (send_round-Spends s) h
        (λ s' l' e. send_loop-ReturnsWithin fuel n s' (omega arith) (omega arith))

  -- `send` returns, whatever the server and the credential do: within two rounds more than
  -- `max_attempts`, and after at most one request more than it, or than one if it is zero.
  pub send_ends :
      (c : S)
      → (r : Result SealStackError Response) × (s : Client S) × (send credential policy body_cap
            trim random server
            (policy.max_attempts + 2)
            c
          ≡ some (r, s))
        × (s.sent ≤ max policy.max_attempts 1 + 1)
  unfolding send
  send_ends c =
      send_loop-ReturnsWithin (policy.max_attempts + 2) (max policy.max_attempts 1 + 1)
        (started credential policy body_cap trim random server c) (omega arith) (omega arith)
