-- ===== src/Lib.antt =====
-- The part of SealStack that decides who may see what: the policy language from its syntax tree to a
-- verdict, and beside it the filters and the in-process store that searches run on, and the SDK
-- through which connectors hand over permissions and pages.
--
-- A schema's `policy` block is lowered to bytecode (crates/sealstack-csl/src/codegen/policy.rs), which
-- an interpreter (crates/sealstack-policy-ir/src/host.rs) runs for a caller, a record and an action.
--   Csl/Ast.antt         the syntax tree (crates/sealstack-csl/src/ast.rs, span.rs)
--   Csl/Policy.antt      `lower_*`, `build_action_table_and_rules`, `lower_schema_to_ir`
--   Csl/Policy/          `Meaning` says what a predicate means, with no bytecode; `Paths`, `Ops`,
--                        `Leaves`, `Correct`, `Layout`, `Verdict` and `Schema` lead from there to the
--                        verdict of compiled bytecode; `MissingKey` is about paths outside that;
--                        `Bundle` has `emit_policy_bundles` and `patch_runtime`
--   Csl/Types.antt       `check_project` (crates/sealstack-csl/src/types.rs); `Sound`, `Complete` and
--                        `Indexed` are about what it accepts
--   PolicyIr.antt        opcodes, action bits, magic (crates/sealstack-policy-ir/src/lib.rs)
--   PolicyIr/Decode.antt the dispatch on an opcode
--   PolicyIr/Host.antt   `interpret`, `run` and the readers; `Host/Values` has values and errors,
--                        `Host/Reads`, `Host/Progress` and `Host/Steps` the lemmas
-- The same bytecode runs in WebAssembly (crates/sealstack-policy-runtime/src), on the JSON text of the
-- caller and the record, which it reads in place.
--   PolicyRuntime/Json.antt    json.rs, the reader of JSON text; `Json/Loops`, `Json/Positions` and
--                              `Json/Bounds` are about its loops and positions
--   PolicyRuntime/Interp.antt  interp.rs, `evaluate` and `run`; `Interp/Values` has the values and how they
--                              are read, `Interp/Ends`, `Interp/Progress` and `Interp/Paths` the lemmas
--   PolicyRuntime/Abi.antt     lib.rs, the exports
--   PolicyRuntime/Text.antt    the text of a JSON value; what is below it, with `Agree` and `Loads`, sets the
--                              reader beside the values themselves
-- A search filter is parsed and applied to a chunk's metadata, in a store of collections.
--   VectorStore/Filter.antt  crates/sealstack-vectorstore/src/filter.rs
--   VectorStore/Memory.antt  crates/sealstack-vectorstore/src/memory.rs
-- Connectors (crates/sealstack-connector-sdk/src):
--   ConnectorSdk/Principal.antt        principal.rs
--   ConnectorSdk/Paginate.antt         paginate.rs, `paginate`
--   ConnectorSdk/Paginate/Offset.antt  paginate.rs, `OffsetPaginator`
--   ConnectorSdk/Auth.antt             auth.rs; `Auth/Cache` is about the caches of OAuth 2.0
--   ConnectorSdk/Retry.antt            retry.rs, and the delays of http.rs
--   ConnectorSdk/Http.antt             http.rs, `send` and the reading of bodies
--   ConnectorSdk/Error.antt            the error of crates/sealstack-common/src/lib.rs
-- The engine (crates/sealstack-engine/src):
--   Engine/Chunking.antt  ingest.rs, `chunk_body` and the chunkers
--   Engine/Fusion.antt    retrieval.rs, `rrf_fuse`; `Tracks` and `Sound` are about its candidates
--   Engine/Freshness.antt freshness.rs
--   Engine/Retrieval.antt retrieval.rs, `Retriever::search`; `Search` is about its hits
-- Prelude, Bytes, Ieee, Numbers and Json stand for the standard library and for what the program uses of
-- serde_json: byte strings, little-endian words, comparisons of floats by their bits, and the tree of
-- a JSON value.
--
-- A word is a natural number below its bound; a signed word or a float is its bit pattern; a position
-- in WebAssembly's memory is a number below 2 ^ 32. Errors are values of a type for each component,
-- without the texts written for people. A loop is structural, or takes fuel and returns none when out
-- of fuel: `interpret` gives `run` one round more than the bytecode has bytes, which is enough since
-- each round moves forward; `paginate` and `send` take their fuel from the caller, and two rounds more
-- than `max_attempts` are enough for `send`. The loops of the WebAssembly side have an error of their
-- own for that; each takes one round more than the input or the bytecode has bytes, which is enough since
-- each round moves forward.
--
-- Parameters: the runtime's binary and its data segments, the token counter, `trim` and `split`, the
-- equality of JSON values, `f32` arithmetic, the order of a hash map, `str::parse::<f64>` and the sort of
-- the standard library, the text of a JSON number, the server behind a request or a paginator and the
-- decoding of what it sends, the backends of a search, the clock and the random numbers. Not modelled:
-- the parser of the policy language and its generators for other languages, the ingestion of records,
-- the change streams of connectors; and the building of HTTP requests, SQL, third-party services,
-- command line and console, which are input and output.
pub mod Prelude
pub mod Bytes
pub mod Ieee
pub mod Numbers
pub mod Json
pub mod PolicyIr
pub mod PolicyRuntime
pub mod Csl
pub mod VectorStore
pub mod ConnectorSdk
pub mod Engine
