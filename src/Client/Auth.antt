-- ===== src/Client/Auth.antt =====
-- client/pulsar_relay_client/auth.py: the cache of access tokens of `RelayAuthManager`, and the two
-- authenticators over a store of credentials.
pub mod Cache
pub mod Rotation
use pulsar_relay.Prelude.{
  ℕ, ◌+◌, ◌-◌, String, Bool, true, false, ◌&&◌, Option, none, some, if◌then◌else◌, ltb, leb,
  nat_beq, is_none, ◌==◌, nat_eq, string_eq,
}
use pulsar_relay.Clock.{seconds}

pub record AuthManager : Type 0 where
  pub token : Option String
  pub token_expiry : Option ℕ

abbrev pub init : AuthManager
init = record { token = none; token_expiry = none }

abbrev pub refresh_buffer_seconds : ℕ
refresh_buffer_seconds = 300

abbrev pub expires_late_enough : ℕ → ℕ → Bool
expires_late_enough now expiry = ltb (seconds refresh_buffer_seconds) (expiry - now)

-- The cached token, while it has more than five minutes left.
unfoldable pub valid_token : AuthManager → ℕ → Option String
valid_token m now = elim m.token [
  | none ↦ none
  | some token ↦ elim m.token_expiry [
    | none ↦ none
    | some expiry ↦ if expires_late_enough now expiry then some token else none
  ]
]

unfoldable pub invalidate : AuthManager → AuthManager
invalidate m = record { token = none; token_expiry = none }

-- The clock is read again when the authenticator, `authenticate`, has answered with a token and its
-- lifetime in seconds; `none` is its RelayAuthError.
module _ {ℓ} {S : Type ℓ} (clock : S → ℕ) (authenticate : S → S × Option (String × ℕ)) where
  unfoldable pub remember_token :
      AuthManager → S × Option (String × ℕ) → AuthManager × (S × Option String)
  remember_token m (s, none) = (m, (s, none))
  remember_token m (s, some (access_token, expires_in)) = (
    record { token = some access_token; token_expiry = some (clock s + seconds expires_in) },
    (s, some access_token),
  )

  unfoldable pub get_token : AuthManager → S → AuthManager × (S × Option String)
  unfolding remember_token
  get_token m s = elim (valid_token m (clock s)) [
    | some token ↦ (m, (s, some token))
    | none ↦ remember_token m (authenticate s)
  ]

-- The credentials that a store holds.
pub record Credentials : Type 0 where
  pub relay_url : String
  pub refresh_token : String
  pub issued_at : ℕ

-- `load` of the store in memory: an empty refresh token is none.
pub load : Credentials → Option Credentials
load creds = if creds.refresh_token == "" then none else some creds

-- The body of a successful answer of `/auth/login` or `/auth/token/refresh`.
pub record TokenBody : Type 0 where
  pub access_token : String
  pub expires_in : Option ℕ
  pub refresh_token : Option String

pub data Answer : Type 0 where
  network_error : Answer
  http_status : ℕ → Answer
  success : TokenBody → Answer

pub data AuthError : Type 0 where
  no_refresh_token network_failure refresh_rejected http_failure : AuthError

pub data AuthResult : Type 0 where
  acquired : String → ℕ → AuthResult
  auth_error : AuthError → AuthResult

abbrev pub expires_in_or_hour : Option ℕ → ℕ
expires_in_or_hour none = 3600
expires_in_or_hour (some n) = n

-- `save`, where the answer carries a refresh token.
pub save_rotated : Credentials → String → ℕ → Option String → Credentials
save_rotated creds relay_url now none = creds
save_rotated creds relay_url now (some token) =
    if token == ""
    then creds
    else record { relay_url = relay_url; refresh_token = token; issued_at = now }

-- The part of `RefreshTokenAuthenticator.authenticate` behind the request.
pub after_refresh : Credentials → String → ℕ → Answer → Credentials × AuthResult
unfolding save_rotated
after_refresh creds relay_url now network_error = (creds, auth_error network_failure)
after_refresh creds relay_url now (http_status status) =
    if nat_beq status 401
    then (creds, auth_error refresh_rejected)
    else (creds, auth_error http_failure)
after_refresh creds relay_url now (success body) = (
  save_rotated creds relay_url now body.refresh_token,
  acquired body.access_token (expires_in_or_hour body.expires_in),
)

-- `PasswordAuthenticator.authenticate` behind its request; an HTTP error is a RequestException too.
pub after_login : Option Credentials → String → ℕ → Answer → Option Credentials × AuthResult
unfolding save_rotated
after_login store relay_url now network_error = (store, auth_error network_failure)
after_login store relay_url now (http_status status) = (store, auth_error http_failure)
after_login none relay_url now (success body) =
    (none, acquired body.access_token (expires_in_or_hour body.expires_in))
after_login (some creds) relay_url now (success body) = (
  some (save_rotated creds relay_url now body.refresh_token),
  acquired body.access_token (expires_in_or_hour body.expires_in),
)

module _ {ℓ} {S : Type ℓ} (clock : S → ℕ) (post_refresh : String → S → S × Answer) where
  -- The refresh token in the store is sent to `/auth/token/refresh`, the environment's
  -- `post_refresh`.
  pub refresh_authenticate : String → Credentials × S → (Credentials × S) × AuthResult
  unfolding load after_refresh
  refresh_authenticate relay_url (creds, s) = elim (load creds) [
    | none ↦ ((creds, s), auth_error no_refresh_token)
    | some loaded ↦
        let (s', answer) = post_refresh loaded.refresh_token s in
        let (creds', result) = after_refresh creds relay_url (clock s') answer in
        ((creds', s'), result)
  ]
