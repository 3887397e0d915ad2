-- ===== src/Core.antt =====
-- pulsar_relay/core: the cache, the idempotency store, and the managers of waiting clients.
pub mod Cache
pub mod Polling
pub mod Connections
pub mod Idempotency
