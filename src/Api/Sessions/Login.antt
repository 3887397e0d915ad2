-- ===== src/Api/Sessions/Login.antt =====
-- What the two tokens of a login open.
use mathlib.Core.Path.{subst}
use pulsar_relay.Prelude.{
  ℕ, ◌+◌, ◌<◌, String, ◌≡◌, refl, sym, ◌∙◌, true, false, Option, none, some, arith, leb,
  if◌then◌else◌, ◌==◌, nat_eq, string_eq, pair_eq,
}
use pulsar_relay.Dict
use pulsar_relay.Auth.Denylist
use pulsar_relay.Auth.Denylist.{Denylist}
use pulsar_relay.Auth.Users.{User, UserStorage}
use pulsar_relay.Auth.Refresh.{RefreshToken, RefreshTokenStorage, create, new_token}
use pulsar_relay.Auth.Refresh.Wire.{HasNoDot, verify_and_consume-create}
use pulsar_relay.Auth.Verify.{verify_and_consume, accepted}
use pulsar_relay.Auth.Jwt.{
  TokenPayload, Jwt, expire_at, to_encode, create_access_token, decode_token,
  get_token_expiration_seconds,
}
use pulsar_relay.Auth.Access.{
  Access, granted, verdict_on, check_denylist, after_decode, get_token_payload, if_active,
  after_payload, bearer,
}
use pulsar_relay.Auth.Access.Current.{authorize_stored, IsCurrent, looked_up}
use pulsar_relay.Api.Sessions.Replies.{MayLogIn}
use pulsar_relay.Api.Sessions.{LoginServices, logged_in, open_session, login_user, login}

-- The deny-list, if there is one, does not hold the token.
abbrev pub IsFree : String → Option Denylist → Type 0
IsFree jti none = Unit
IsFree jti (some revoked) = Dict.get revoked jti ≡ none

is_revoked_free :
    (t : ℕ) (revoked : Denylist) (jti : String)
    → Dict.get revoked jti ≡ none
    → (Denylist.is_revoked t revoked jti).1 ≡ false
unfolding Denylist.is_revoked
is_revoked_free t revoked jti free = ground arith

free_granted :
    (t : ℕ) (st : Access) (payload : TokenPayload) (jti : String) (denylist : Option Denylist)
    → st.denylist ≡ denylist
    → IsFree jti denylist
    → (left : Option Denylist) × (check_denylist t st payload (some jti) denylist
        ≡ (record st { denylist = left }, granted payload))
unfolding check_denylist verdict_on
free_granted t st payload jti none same free = (none, rw (sym same) refl)
free_granted t st payload jti (some revoked) same free =
    ((some (Denylist.is_revoked t revoked jti).0), rw (is_revoked_free t revoked jti free) refl)

relisted-IsCurrent :
    (st : Access) (left : Option Denylist)
    → IsCurrent st
    → IsCurrent (record st { denylist = left })
relisted-IsCurrent st left c = record { room = c.room; keyed = c.keyed; mirrors = c.mirrors }

if_active_of : (user : User) → user.is_active ≡ true → if_active user ≡ granted user
unfolding if_active
if_active_of user active = rw active refl

-- A token whose claims are accepted, and that is not on the list, lets its user in.
bearer_granted :
    (jwt : Jwt) (t : ℕ) (st : Access) (token : String) (payload : TokenPayload) (jti : String)
    (user : User)
    → jwt.decode t token ≡ some payload
    → payload.jti ≡ some jti
    → IsFree jti st.denylist
    → IsCurrent st
    → Dict.get st.users.users payload.sub ≡ some user
    → user.is_active ≡ true
    → (bearer jwt t st token).1 ≡ granted user
unfolding bearer after_payload get_token_payload after_decode decode_token
bearer_granted jwt t st token payload jti user decoded has free c stored active =
    let (left, let_in) = free_granted t st payload jti st.denylist refl free in
    let current =
      looked_up t (record st { denylist = left }) payload (relisted-IsCurrent st left c) in
    rw
      (
        decoded,
        subst
            (λ claimed.
              check_denylist t st payload claimed st.denylist
              ≡ (record st { denylist = left }, granted payload))
            (sym has) let_in,
      )
      (current.0
        ∙ (sym (authorize_stored st.users payload.sub user stored) ∙ if_active_of user active))

before_expiry :
    {A : Type 0} (expiry t : ℕ) (over valid : A)
    → t < expiry
    → (if leb expiry t then over else valid) ≡ valid
before_expiry expiry t over valid live = ground arith

-- The login of an active user with the user's password succeeds, and both of its tokens work. The
-- access token lets the user in at every time `t` at which PyJWT accepts the claims that were
-- signed, on every worker that has the user in its storage, mirrors the storage in its cache and has
-- not listed the token. The refresh token, presented at any time `u` before its own expiry with no
-- call on its storage in between, is accepted as one of the user's; its identifier is not empty and
-- holds no '.', and its secret is not empty.
pub login_opens :
    (jwt : Jwt) (services : LoginServices) (now t u : ℕ) (users : UserStorage)
    (refresh : RefreshTokenStorage) (username password : String) (user : User) (st : Access)
    → MayLogIn services users username password user
    → HasNoDot services.jti
    → (services.jti == "") ≡ false
    → (services.secret == "") ≡ false
    → jwt.decode t (create_access_token jwt now services.token_uuid user none)
      ≡ some (
          to_encode user now
            (expire_at jwt.access_token_expire_minutes now none)
            services.token_uuid)
    → u < now + services.refresh_ttl
    → IsFree services.token_uuid st.denylist
    → IsCurrent st
    → Dict.get st.users.users user.user_id ≡ some user
    → (access wire : String) × (refresh' : RefreshTokenStorage) × (token : RefreshToken) × (login
          jwt services now users refresh username password
        ≡ (refresh', logged_in access (get_token_expiration_seconds jwt) wire))
      × ((bearer jwt t st access).1 ≡ granted user)
      × (verify_and_consume services.hash_secret refresh' u wire ≡ some (refresh', accepted token))
      × (token.user_id ≡ user.user_id)
unfolding login login_user open_session create new_token to_encode
login_opens jwt services now t u users refresh username password user st may dots named secret
      decoded live free c stored =
    let (refresh', token, wire) =
      create services.hash_secret refresh services.jti services.secret now user.user_id
        services.refresh_ttl none (some "password-login") in
    (
      create_access_token jwt now services.token_uuid user none,
      wire,
      refresh',
      token,
      rw (may.0, may.1, may.2) refl,
      bearer_granted jwt t st _ _ services.token_uuid user decoded refl free c stored may.2,
      verify_and_consume-create services.hash_secret refresh refresh' services.jti services.secret
            now user.user_id services.refresh_ttl none (some "password-login") token wire u dots
            named secret refl
          ∙ before_expiry (now + services.refresh_ttl) u _ _ live,
      refl,
    )
