-- ===== src/ConnectorSdk/Http/Sleeps.antt =====
-- The sleeps of `send` of crates/sealstack-connector-sdk/src/http.rs.
use mathlib.Core.Path.{subst}
use sealstack.Prelude.{
  ℕ, zero, suc, ◌+◌, ◌-◌, ◌≤◌, ◌<◌, ◌≡◌, Option, none, some, List, [], ◌∷◌, arith, length, Result,
  ok, err,
}
use sealstack.ConnectorSdk.Http.{
  Response, Reply, responded, network_error, Client, Round, again, return, retry, on_response,
  on_reply, with_header, send_round, resume, send_loop, started, send,
}
use sealstack.Bytes.{Bytes}
use sealstack.ConnectorSdk.Error.{SealStackError}
use sealstack.ConnectorSdk.Auth.{Credential}
use sealstack.ConnectorSdk.Retry.{RetryPolicy, retry_delay_for-le}

abbrev pub AllWithin : ℕ → List ℕ → Type 0
AllWithin bound [] = Unit
AllWithin bound (d ∷ ds) = (d ≤ bound) × AllWithin bound ds

module _ {S : Type 0} (credential : Credential S) (policy : RetryPolicy) (body_cap : ℕ)
    (trim : Bytes → Bytes) (random : ℕ → ℕ) (server : ℕ → Bytes → Reply)
    (in_range : (n : ℕ) → 0 < n → random n < n) where
  -- The sleeps so far: one for each failed attempt at most, and for each but the last of the budget.
  abbrev Rested : Client S → Type 0
  Rested s =
      AllWithin policy.max_delay s.sleeps
      × (length s.sleeps ≤ s.attempt)
      × (length s.sleeps ≤ policy.max_attempts - 1)

  abbrev RestedRound : Round S → Type 0
  RestedRound (again s) = Rested s
  RestedRound (return r s) = Rested s

  retry-Rested :
      (s : Client S) (header : Option Bytes)
      → AllWithin policy.max_delay s.sleeps
      → length s.sleeps + 1 ≤ s.attempt
      → length s.sleeps ≤ policy.max_attempts - 1
      → RestedRound (retry credential policy body_cap trim random server s header)
  unfolding retry
  retry-Rested s header all few fits =
      ground (arith, retry_delay_for-le trim random in_range policy (s.attempt - 1) header)

  on_response-Rested :
      (s : Client S) (resp : Response)
      → Rested s
      → RestedRound (on_response credential policy body_cap trim random server s resp)
  unfolding on_response
  on_response-Rested s resp (all, few, fits) = ground (
    arith,
    retry-Rested (record s { attempt = s.attempt + 1 }) resp.retry_after all (omega arith) fits,
  )

  send_round-Rested :
      (s : Client S)
      → Rested s
      → RestedRound (send_round credential policy body_cap trim random server s)
  unfolding send_round
  send_round-Rested s h = go (credential.authorization_header s.credential)
    where
      reply :
          (c : S) (r : Reply)
          → RestedRound (
              on_reply credential policy body_cap trim random server
                (record s { credential = c; sent = s.sent + 1 })
                r)
      reply c (responded resp) =
          on_response-Rested (record s { credential = c; sent = s.sent + 1 }) resp h
      reply c network_error =
          retry-Rested (record s { credential = c; sent = s.sent + 1; attempt = s.attempt + 1 })
            none h.0 (omega (arith, h.1)) (h.2)

      go :
          (x : Result SealStackError Bytes × S)
          → RestedRound (with_header credential policy body_cap trim random server s x)
      go (err e, c) = h
      go (ok header, c) = reply c (server s.sent header)

  abbrev RestedEnd : Option (Result SealStackError Response × Client S) → Type 0
  RestedEnd none = Unit
  RestedEnd (some (r, s)) = Rested s

  resume-RestedEnd :
      (go : Client S → Option (Result SealStackError Response × Client S)) (r : Round S)
      → RestedRound r
      → ((s : Client S) → Rested s → RestedEnd (go s))
      → RestedEnd (resume credential policy body_cap trim random server go r)
  resume-RestedEnd go (again s) h f = f s h
  resume-RestedEnd go (return r s) h f = h

  send_loop-RestedEnd :
      (fuel : ℕ) (s : Client S)
      → Rested s
      → RestedEnd (send_loop credential policy body_cap trim random server fuel s)
  unfolding send_loop
  send_loop-RestedEnd zero s h = tt
  send_loop-RestedEnd (suc fuel) s h =
      resume-RestedEnd (send_loop credential policy body_cap trim random server fuel)
        (send_round credential policy body_cap trim random server s) (send_round-Rested s h)
        (send_loop-RestedEnd fuel)

  -- When `send` returns it has slept at most `max_attempts - 1` times, and never longer than
  -- `max_delay`, where the random numbers are below their bound.
  pub send-AllWithin :
      (fuel : ℕ) (c : S) (r : Result SealStackError Response) (s : Client S)
      → send credential policy body_cap trim random server fuel c ≡ some (r, s)
      → AllWithin policy.max_delay s.sleeps × (length s.sleeps ≤ policy.max_attempts - 1)
  unfolding send
  send-AllWithin fuel c r s h =
      let (all, few, fits) = subst RestedEnd h (
        send_loop-RestedEnd fuel (started credential policy body_cap trim random server c)
          (tt, omega arith, omega arith)) in
      (all, fits)
