-- ===== src/ConnectorSdk/Error.antt =====
-- The error of crates/sealstack-common/src/lib.rs, without the texts written for people, the times and
-- the headers; the body of a response stays bytes.
use sealstack.Prelude.{ℕ}
use sealstack.Bytes.{Bytes}

pub data SealStackError : Type 0 where
  not_found unauthorized validation backend policy config rate_limited other : SealStackError
  retry_exhausted : ℕ → SealStackError → SealStackError
  body_too_large : ℕ → SealStackError
  paginator_cursor_loop : Bytes → SealStackError
  http_status : ℕ → Bytes → SealStackError
