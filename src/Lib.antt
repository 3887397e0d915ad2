-- ===== src/Lib.antt =====
-- Verification of the Pulsar relay: a message relay between Galaxy servers and Pulsar daemons, with
-- topics owned by users, WebSocket and long-polling subscribers, and in-memory or Valkey storage.
--
-- The parts and their files. A request to publish (Api/Messages) makes sure of a topic
-- (Auth/Topics, Auth/Users), claims its idempotency key (Core/Idempotency), saves the message
-- (Storage/Memory) and hands it to the subscribers of the channel `owner/topic`: WebSocket
-- connections (Core/Connections) and poll waiters (Core/Polling).
--   Core/Cache        pulsar_relay/core/cache.py: TTLCache
--   Core/Idempotency  pulsar_relay/core/idempotency.py: InMemoryIdempotencyStorage
--   Core/Connections  pulsar_relay/core/connections.py: ConnectionManager
--   Core/Polling      pulsar_relay/core/polling.py: PollWaiter, PollManager
--   Auth/Denylist     pulsar_relay/auth/denylist.py: InMemoryJWTDenylist, seconds_until_exp
--   Auth/Topics       pulsar_relay/auth/topic_storage.py: InMemoryTopicStorage
--   Auth/Users        pulsar_relay/auth/storage.py: InMemoryUserStorage
--   Storage/Memory    pulsar_relay/storage/memory.py: MemoryStorage
--   Auth/Refresh, Auth/Verify
--                     pulsar_relay/auth/refresh.py: InMemoryRefreshTokenStorage,
--                     verify_and_consume and its helpers
--   Auth/DeviceFlow   pulsar_relay/auth/device_flow.py: InMemoryDeviceCodeStorage
--   Auth/OidcState    pulsar_relay/auth/oidc_state.py: InMemoryOIDCStateStorage
--   Api/Models        pulsar_relay/models.py: messages and answers
--   Api/Relay         pulsar_relay/auth/dependencies.py: get_or_create_topic, and the state of the
--                     message endpoints
--   Api/Messages      pulsar_relay/api/messages.py: create_message; create_bulk_messages in
--                     Api/Messages/Bulk
--   Api/Polling       pulsar_relay/api/polling.py: long_poll, get_poll_stats
--   Api/Topics        pulsar_relay/api/topics.py: the handlers over topics
--   Api/Tokens        pulsar_relay/api/auth.py: refresh_token, revoke_refresh_token,
--                     revoke_session
--   Auth/Jwt          pulsar_relay/auth/jwt.py: create_access_token, decode_token
--   Auth/Access       pulsar_relay/auth/dependencies.py: get_token_payload, get_current_user and the
--                     permission checks
--   Api/Accounts      pulsar_relay/api/auth.py: register, update_user, delete_user and the other
--                     endpoints over users
--   Api/Sessions      pulsar_relay/api/auth.py: login, logout, list_sessions
--   Api/Device        pulsar_relay/api/device.py: poll_device_token, deny_device_code
--   Client/Retry      client/pulsar_relay_client/transport.py: _retry_with_backoff
--   Client/Publish    the same file: post_message, post_bulk_messages
--   Client/Cursors    the same file: the cursors and their file
--   Client/Polling    the same file: long_poll
--   Client/Auth       client/pulsar_relay_client/auth.py: RelayAuthManager.get_token and the
--                     authenticators; credentials.py: InMemoryCredentialsStore
--   Prelude, Dict, Clock are shared: Boolean tests, lists, Python's dict and set, and time.
--
-- State is passed explicitly: a method takes the state of its object and returns it changed, under
-- the method's name. A Python dict is the list of its entries in insertion order, a set a list
-- without order. Exceptions are values of Option or of a result type. Times are microseconds, and
-- each reading of the clock is an argument, as are identifiers made by uuid4. An asyncio lock makes
-- the code under it one step; where the code gives up the lock and awaits, what other tasks do in
-- between is an argument of the definition.
--
-- Clients keep access with refresh tokens (Auth/Refresh) that an endpoint rotates (Api/Tokens), and
-- daemons get their first ones by the device flow (Auth/DeviceFlow, Api/Device), which a login
-- (Auth/OidcState) approves.
--
-- A request's bearer is found by its access token, the deny-list and a cache of users that each
-- worker keeps for itself (Auth/Access). The cache holds copies, as it does over the Valkey storage;
-- the in-memory storage hands out the stored object itself, so that there a cached user also shows
-- a change made without an invalidation. A user update that sets a field to null is not modelled.
--
-- A client publishes with one idempotency key for all its attempts (Client/Publish) and polls with a
-- cursor for each topic (Client/Polling). Its environment is a record of functions over a state of
-- the world. Client/Publish/Once and Client/Polling/Service put the relay's own handlers there, with
-- a network that loses requests and answers as a list of fates.
--
-- Loops over collections are structural recursion. The two walks of `revoke_chain` run on fuel: one
-- step more than there are tokens of all users for the walk to the root, and than there are tokens
-- of the user for the walk down. `read_pages`, a reader of pages that is not part of the code, has
-- fuel of its own; its theorem holds for more pages than messages.
--
-- `retry_loop` has fuel for its attempts: with a cap, as much as the cap; without one, more than the
-- attempts that fail.
--
-- Not modelled: the Valkey backends, whose commands run on a server; the web framework, sha256,
-- token signing and OIDC libraries; logging and metrics, which change no state of the relay.
pub mod Prelude
pub mod Dict
pub mod Clock
pub mod Core
pub mod Auth
pub mod Storage
pub mod Api
pub mod Client
