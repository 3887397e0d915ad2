-- ===== src/Storage.antt =====
-- pulsar_relay/storage: the message storage.
pub mod Memory
