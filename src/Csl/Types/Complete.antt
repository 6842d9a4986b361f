-- ===== src/Csl/Types/Complete.antt =====
-- The type checker of crates/sealstack-csl/src/types.rs accepts what it should.
use sealstack.Bytes.{Bytes}
