-- ===== src/Api/Sessions.antt =====
-- pulsar_relay/api/auth.py: `login`, `logout` and `list_sessions`.
pub mod Barred
pub mod Logout
pub mod Replies
pub mod Login
mod Tests
use pulsar_relay.Prelude.{
  ℕ, String, Bool, true, false, Option, none, some, List, if◌then◌else◌, ◌==◌, string_eq,
}
use pulsar_relay.Auth.Denylist
use pulsar_relay.Auth.Denylist.{Denylist, seconds_until_exp}
use pulsar_relay.Auth.Users
use pulsar_relay.Auth.Users.{User, UserStorage}
use pulsar_relay.Auth.Refresh.{RefreshToken, RefreshTokenStorage, create, list_for_user}
use pulsar_relay.Auth.Jwt.{TokenPayload, Jwt, create_access_token, get_token_expiration_seconds}
use pulsar_relay.Auth.Access.{Access, AccessError, Admission, granted, denied, get_token_payload}

-- A 204, an error of the dependencies, or the RuntimeError of a missing deny-list.
pub data LogoutReply : Type 0 where
  no_content internal_server_error : LogoutReply
  refused : AccessError → LogoutReply

unfoldable pub deny_list :
    ℕ → Access → TokenPayload → Option String → Option Denylist → Access × LogoutReply
deny_list now st payload none denylist = (st, no_content)
deny_list now st payload (some jti) none = (st, internal_server_error)
deny_list now st payload (some jti) (some revoked) = (
  record st { denylist = some (Denylist.add now revoked jti (seconds_until_exp now payload.exp)) },
  no_content,
)

unfoldable pub after_payload : ℕ → Access × Admission TokenPayload → Access × LogoutReply
unfolding deny_list
after_payload now (st, denied e) = (st, refused e)
after_payload now (st, granted payload) = deny_list now st payload payload.jti st.denylist

unfoldable pub logout : Jwt → ℕ → Access → String → Access × LogoutReply
unfolding after_payload
logout jwt now st token = after_payload now (get_token_payload jwt now st token)

-- What `login` answers: a 401, a 403, or the access token, its lifetime and the refresh token.
pub data LoginReply : Type 0 where
  incorrect inactive : LoginReply
  logged_in : String → ℕ → String → LoginReply

-- What `login` draws and calls: pwdlib, sha256, the uuids and the secret, and the lifetime of a
-- refresh token from the settings.
pub record LoginServices : Type 0 where
  pub verify_password : String → String → Bool
  pub hash_secret : String → String
  pub token_uuid : String
  pub jti : String
  pub secret : String
  pub refresh_ttl : ℕ

-- not user.hashed_password or not verify_password(...); an empty hash counts as none.
unfoldable pub password_matches : LoginServices → String → Option String → Bool
password_matches services password none = false
password_matches services password (some hashed) =
    if hashed == "" then false else services.verify_password password hashed

unfoldable pub open_session :
    Jwt → LoginServices → ℕ → RefreshTokenStorage → User → RefreshTokenStorage × LoginReply
open_session jwt services now refresh user =
    let (refresh', token, wire) =
      create services.hash_secret refresh services.jti services.secret now user.user_id
        services.refresh_ttl none (some "password-login") in
    (
      refresh',
      logged_in (create_access_token jwt now services.token_uuid user none)
          (get_token_expiration_seconds jwt) wire,
    )

unfoldable pub login_user :
    Jwt
    → LoginServices
    → ℕ
    → RefreshTokenStorage
    → String
    → Option User
    → RefreshTokenStorage × LoginReply
unfolding open_session password_matches
login_user jwt services now refresh password none = (refresh, incorrect)
login_user jwt services now refresh password (some user) =
    if password_matches services password user.hashed_password
    then (if user.is_active
        then open_session jwt services now refresh user
        else (refresh, inactive))
    else (refresh, incorrect)

unfoldable pub login :
    Jwt
    → LoginServices
    → ℕ
    → UserStorage
    → RefreshTokenStorage
    → String
    → String
    → RefreshTokenStorage × LoginReply
unfolding login_user
login jwt services now users refresh username password =
    login_user jwt services now refresh password (Users.get_user_by_username users username)

unfoldable pub list_sessions : RefreshTokenStorage → User → List RefreshToken
list_sessions refresh current_user = list_for_user refresh current_user.user_id false
