-- ===== src/VectorStore/Filter/Ast.antt =====
-- crates/sealstack-vectorstore/src/filter.rs: the filter node and the parse failures.
use sealstack.Prelude.{ℕ, Option}
use sealstack.Bytes.{Bytes}
use sealstack.Json.{Value, Items}

mutual
  pub data Filter : Type 0 where
    eq ne : Bytes → Value → Filter
    in_set not_in : Bytes → Items → Filter
    range : Bytes → Option ℕ → Option ℕ → Option ℕ → Option ℕ → Filter
    and or : Filters → Filter
    not : Filter → Filter
    all : Filter

  pub data Filters : Type 0 where
    nil : Filters
    cons : Filter → Filters → Filters

-- `BadOperator` holds the operator; its second field is a text for people.
pub data FilterParseError : Type 0 where
  not_object : FilterParseError
  bad_operator unknown_operator : Bytes → FilterParseError
