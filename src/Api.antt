-- ===== src/Api.antt =====
-- pulsar_relay/api: the request handlers.
pub mod Models
pub mod Relay
pub mod Messages
pub mod Device
pub mod Tokens
pub mod Accounts
pub mod Sessions
pub mod Topics
pub mod Polling
