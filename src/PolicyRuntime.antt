-- ===== src/PolicyRuntime.antt =====
-- crates/sealstack-policy-runtime/src: the WebAssembly side of policy evaluation.
pub mod Json
pub mod Interp
pub mod Text
pub mod Agree
pub mod Loads
pub mod Abi
mod Tests
