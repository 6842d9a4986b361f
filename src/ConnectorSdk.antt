-- ===== src/ConnectorSdk.antt =====
-- crates/sealstack-connector-sdk: principals on the wire, and paginated requests.
pub mod Principal
pub mod Error
pub mod Auth
pub mod Retry
pub mod Http
pub mod Paginate
mod Tests
