-- ===== src/Kit.antt =====
-- The shared infrastructure of kit/: error values, counters and the clients.
pub mod Errors
pub mod Action
pub mod Observability
pub mod Logger
pub mod Os
pub mod MockClient
pub mod Context
pub mod Gateway
pub mod Codec
pub mod Store
pub mod Bus
