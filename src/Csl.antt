-- ===== src/Csl.antt =====
-- The CSL compiler, crates/sealstack-csl: the part of its syntax tree that policies use, and the
-- code generator for policies.
pub mod Ast
pub mod Policy
pub mod Types
