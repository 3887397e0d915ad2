-- ===== src/Client.antt =====
-- The client library, client/pulsar_relay_client: what it does over an environment that stands for
-- the network, the server and the clock.
pub mod Retry
pub mod Auth
pub mod Publish
pub mod Cursors
pub mod Polling
mod Tests
