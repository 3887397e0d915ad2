-- ===== src/Auth.antt =====
-- pulsar_relay/auth: the stores of tokens, codes, topics and users.
pub mod Denylist
pub mod Topics
pub mod Users
pub mod Refresh
pub mod OidcState
pub mod DeviceFlow
pub mod Verify
pub mod Jwt
pub mod Access
