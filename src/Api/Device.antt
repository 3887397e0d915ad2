-- ===== src/Api/Device.antt =====
-- pulsar_relay/api/device.py: `poll_device_token`, the endpoint at which a daemon asks for its
-- tokens, and `deny_device_code`.
pub mod Exchange
pub mod Polls
pub mod Runs
mod Tests
use Prim.Native.String.{◌++◌ as text_append}
use pulsar_relay.Prelude.{
  take-append-drop, drop-nil, last, last-last-append, length-last-le, drop-drop, drop-append,
  is_none, ℕ, zero, suc, ◌+◌, ◌-◌, ◌*◌, ◌/◌, ◌%◌, ◌≤◌, ◌<◌, min, max, String, eq_iff, ◌≡◌, refl,
  sym, ap, ◌∙◌, ◌≢◌, ◌↔◌, ◌⊎◌, inl, inr, Bool, true, false, not, ◌&&◌, ◌||◌, Option, none, some,
  List, [], ◌∷◌, ◌++◌, map, arith, ltb, leb, nat_beq, if◌then◌else◌, nat_beq_iff, Bool-cases,
  Option-cases, length, take, drop, length-append, length-drop, length-take-le, filter_by, Eq, ◌==◌,
  beq_self, nat_eq, string_eq, pair_beq, pair_beq_iff, pair_eq, texts_beq, texts_iff, All,
}
use pulsar_relay.Dict
use pulsar_relay.Clock.{seconds}
use pulsar_relay.Auth.Users
use pulsar_relay.Auth.Users.{User, UserStorage}
use pulsar_relay.Auth.Refresh
use pulsar_relay.Auth.Refresh.{RefreshTokenStorage}
use pulsar_relay.Auth.DeviceFlow
use pulsar_relay.Auth.DeviceFlow.{
  Status, pending, approved, denied, expired, DeviceCode, DeviceCodeStorage,
}

-- The errors of RFC 8628 that the endpoint answers with.
pub data PollError : Type 0 where
  unsupported_grant_type expired_token access_denied slow_down authorization_pending : PollError

pub data PollReply : Type 0 where
  failed : PollError → PollReply
  -- the access token, and the one or two refresh tokens
  granted : String → String → Option String → PollReply

pub record DeviceRelay : Type 0 where
  pub codes : DeviceCodeStorage
  pub users : UserStorage
  pub refresh : RefreshTokenStorage

-- The identifiers and secrets that are drawn for the refresh tokens.
pub record Drawn : Type 0 where
  pub jti : String
  pub secret : String
  pub second_jti : String
  pub second_secret : String

-- What the endpoint calls outside of the storages: sha256 and the signing of access tokens, with the
-- lifetime of a refresh token from the settings.
pub record Services : Type 0 where
  pub hash_device_code : String → String
  pub upper : String → String
  pub hash_secret : String → String
  pub create_access_token : User → String
  pub refresh_ttl : ℕ

abbrev pub grant : String
grant = "urn:ietf:params:oauth:grant-type:device_code"

-- `elapsed < record.interval`
abbrev pub too_early : ℕ → DeviceCode → Bool
too_early now device = elim device.last_polled_at [
  | none ↦ false
  | some last ↦ ltb now (last + seconds device.interval)
]

abbrev pub secondary_hint : Option String → String
secondary_hint none = "secondary"
secondary_hint (some hint) = if hint == "" then "secondary" else text_append hint "-secondary"

module _ (services : Services) where
  unfoldable pub get_device : DeviceRelay → String → Option DeviceCode
  get_device r device_code =
      DeviceFlow.get_by_device_code services.hash_device_code services.upper r.codes device_code

  unfoldable pub update_device : DeviceRelay → DeviceCode → DeviceRelay
  update_device r device = record r {
    codes = DeviceFlow.update services.hash_device_code services.upper r.codes device;
  }

  unfoldable pub consume_device : DeviceRelay → String → DeviceRelay
  consume_device r device_code = record r {
    codes = (DeviceFlow.consume services.hash_device_code services.upper r.codes device_code).0;
  }

  -- The refresh tokens of a device session: a second one, without a parent, for a pair.
  unfoldable pub issue : DeviceRelay → ℕ → Drawn → DeviceCode → User → DeviceRelay × PollReply
  issue r now drawn device user =
      let (refresh, token, wire) =
        Refresh.create services.hash_secret r.refresh drawn.jti drawn.secret now user.user_id
          services.refresh_ttl none device.client_hint in
      let (refresh', token', wire') =
        Refresh.create services.hash_secret refresh drawn.second_jti drawn.second_secret now
          user.user_id services.refresh_ttl none (some (secondary_hint device.client_hint)) in
      if device.pair
      then (
        record r { refresh = refresh' },
        granted (services.create_access_token user) wire (some wire'),
      )
      else (record r { refresh = refresh }, granted (services.create_access_token user) wire none)

  -- The stored user of an approved session; an empty identifier counts as none.
  unfoldable pub user_of : UserStorage → Option String → Option User
  user_of users none = none
  user_of users (some user_id) = if user_id == "" then none else Users.get_user_by_id users user_id

  -- The branch of an approved session. The object of the session keeps the time of the poll.
  unfoldable pub exchange : DeviceRelay → ℕ → Drawn → String → DeviceCode → DeviceRelay × PollReply
  unfolding issue user_of update_device consume_device
  exchange r now drawn device_code device = elim (user_of r.users device.user_id) [
    | none ↦ (update_device r device, failed expired_token)
    | some user ↦ issue (consume_device r device_code) now drawn device user
  ]

  -- A session that is not expired.
  unfoldable pub poll_live : DeviceRelay → ℕ → Drawn → String → DeviceCode → DeviceRelay × PollReply
  unfolding exchange update_device consume_device
  poll_live r now drawn device_code device =
      let polled : DeviceCode = record device { last_polled_at = some now } in
      elim device.status [
        | denied ↦ (consume_device r device_code, failed access_denied)
        | expired ↦ (r, failed expired_token)
        | pending ↦
            if too_early now device
            then (r, failed slow_down)
            else (update_device r polled, failed authorization_pending)
        | approved ↦
            if too_early now device
            then (r, failed slow_down)
            else exchange r now drawn device_code polled
      ]

  unfoldable pub mark_expired : DeviceRelay → DeviceCode → DeviceRelay
  unfolding update_device
  mark_expired r device = elim device.status [
    | expired ↦ r
    | _ ↦ update_device r (record device { status = expired })
  ]

  unfoldable pub poll_session :
      DeviceRelay → ℕ → Drawn → String → DeviceCode → DeviceRelay × PollReply
  unfolding poll_live mark_expired
  poll_session r now drawn device_code device =
      if leb device.expires_at now
      then (mark_expired r device, failed expired_token)
      else poll_live r now drawn device_code device

  unfoldable pub poll_device_token :
      DeviceRelay → ℕ → Drawn → String → String → DeviceRelay × PollReply
  unfolding poll_session get_device
  poll_device_token r now drawn grant_type device_code =
      if not (grant_type == grant)
      then (r, failed unsupported_grant_type)
      else elim (get_device r device_code) [
        | none ↦ (r, failed expired_token)
        | some device ↦ poll_session r now drawn device_code device
      ]

  -- `none` is the 404 for an unknown user code.
  unfoldable pub deny_device_code : DeviceRelay → String → DeviceRelay × Option DeviceCode
  deny_device_code r user_code =
      let (codes, device) =
        DeviceFlow.deny services.hash_device_code services.upper r.codes user_code in
      (record r { codes = codes }, device)
