-- ===== src/ConnectorSdk/Http/Tests.antt =====
-- Servers that fail, and credentials that expire.
use sealstack.Prelude.{
  ℕ, zero, suc, ◌+◌, ◌-◌, ◌*◌, ◌≤◌, ◌<◌, max, ◌≡◌, refl, ◌↔◌, true, false, Option, none, some, [],
  ◌∷◌, arith, length, Result, ok, err,
}
use sealstack.ConnectorSdk.Http.{
  default_body_cap, read_body, Response, Reply, responded, Client, send,
}
use sealstack.ConnectorSdk.Http.Ends.{send_ends}
use sealstack.ConnectorSdk.Http.Sleeps.{AllWithin, send-AllWithin}
use sealstack.ConnectorSdk.Http.Success.{Retryable, send_succeeds}
use sealstack.ConnectorSdk.Http.Bodies.{joined, read_body_iff}
use sealstack.ConnectorSdk.Auth.{
  static_token, second, CachedAccess, TokenReply, answered, refresh_with_retry,
  authorization_header, invalidate,
}
use sealstack.ConnectorSdk.Auth.Cache.{fresh_header, is_blocked, authorization_header-invalidate}
use sealstack.ConnectorSdk.Retry.{RetryPolicy, default_policy, retry_delay_for, retry_delay_for-le}
use sealstack.Bytes.{Bytes, codes}
use sealstack.ConnectorSdk.Error.{SealStackError, unauthorized}

abbrev policy : RetryPolicy
policy = default_policy

abbrev no_trim : Bytes → Bytes
no_trim text = text

abbrev least : ℕ → ℕ
least n = 0

least_in_range : (n : ℕ) → 0 < n → least n < n
least_in_range n h = h

abbrev with_status : ℕ → Response
with_status status = record {
  status = status;
  retry_after = none;
  body = record { chunks = codes "no" ∷ []; complete = true };
}

-- Unavailable, and from the second request on fine.
abbrev recovers : ℕ → Bytes → Reply
recovers zero header = responded (with_status 503)
recovers (suc t) header = responded (with_status 200)

-- Never accepts a token.
abbrev refuses : ℕ → Bytes → Reply
refuses t header = responded (with_status 401)

send_ends_example :
    (r : Result SealStackError Response) × (s : Client Bytes) × (send static_token policy
        default_body_cap no_trim least refuses
        (policy.max_attempts + 2)
        (codes "t")
      ≡ some (r, s))
    × (s.sent ≤ max policy.max_attempts 1 + 1)
send_ends_example = send_ends static_token policy default_body_cap no_trim least refuses (codes "t")

recovers_failing : (t : ℕ) → t < 1 → (header : Bytes) → Retryable (recovers t header)
recovers_failing zero lt header = (refl, refl, refl)
recovers_failing (suc t) lt header = absurd (no_less lt)
  where
    no_less : suc t < 1 → ⊥
    no_less h = omega arith

send_succeeds_example :
    (s : Client Bytes) × (send static_token policy default_body_cap no_trim least recovers 2
        (codes "t")
      ≡ some (ok (with_status 200), s))
unfolding default_policy
send_succeeds_example =
    send_succeeds policy default_body_cap no_trim least recovers (codes "t") 1 (with_status 200)
      (omega arith) recovers_failing (λ header. refl) refl

abbrev after_recovery : Client Bytes
after_recovery = record {
  attempt = 1;
  invalidated_once = false;
  credential = codes "t";
  sent = 2;
  sleeps = 0 ∷ [];
}

send-AllWithin_example : AllWithin policy.max_delay (0 ∷ []) × (1 ≤ policy.max_attempts - 1)
unfolding send static_token default_policy retry_delay_for
send-AllWithin_example =
    send-AllWithin static_token policy default_body_cap no_trim least recovers least_in_range 2
      (codes "t") (ok (with_status 200)) after_recovery refl

retry_delay_for-le_example :
    retry_delay_for no_trim least policy 3 (some (codes "3600")) ≤ policy.max_delay
retry_delay_for-le_example =
    retry_delay_for-le no_trim least least_in_range policy 3 (some (codes "3600"))

read_body_iff_example : (read_body 4 (with_status 200).body ≡ ok (codes "no")) ↔ (
    (codes "no" ≡ joined (with_status 200).body.chunks)
    × (length (codes "no") ≤ 4)
    × ((with_status 200).body.complete ≡ true))
read_body_iff_example = read_body_iff 4 (with_status 200).body (codes "no")

-- A server that keeps refusing is asked twice.
refuses_runs :
    send static_token policy default_body_cap no_trim least refuses 7 (codes "t")
    ≡ some (
      err unauthorized,
      record {
        attempt = 0;
        invalidated_once = true;
        credential = codes "t";
        sent = 2;
        sleeps = [];
      },
    )
unfolding send static_token
refuses_runs = refl

abbrev parse_token : Bytes → Option (Bytes × ℕ)
parse_token body = some (body, 3600)

abbrev no_error : Bytes → Option Bytes
no_error body = none

abbrev fresh : ℕ → TokenReply
fresh n = answered 200 (codes "new")

abbrev cache : CachedAccess
cache = record {
  access_token = some (codes "old");
  valid_until = some (1000 * second);
  negative_cache = none;
}

authorization_header-invalidate_example :
    (authorization_header parse_token no_error 0 1 fresh (invalidate cache)).0
    ≡ ok (codes "Bearer new")
unfolding is_blocked fresh_header refresh_with_retry
authorization_header-invalidate_example =
    authorization_header-invalidate parse_token no_error fresh 0 1 cache

authorization_header_runs :
    (authorization_header parse_token no_error 0 1 fresh cache).0 ≡ ok (codes "Bearer old")
unfolding authorization_header
authorization_header_runs = refl
