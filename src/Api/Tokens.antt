-- ===== src/Api/Tokens.antt =====
-- pulsar_relay/api/auth.py: `refresh_token`, `revoke_refresh_token` and `revoke_session`, the endpoints over refresh
-- tokens.
pub mod Races
mod Tests
use pulsar_relay.Prelude.{
  take-append-drop, drop-nil, last, last-last-append, length-last-le, drop-drop, drop-append,
  is_none, ℕ, zero, suc, ◌+◌, ◌-◌, ◌*◌, ◌/◌, ◌%◌, ◌≤◌, ◌<◌, min, max, String, eq_iff, ◌≡◌, refl,
  sym, ap, ◌∙◌, ◌≢◌, ◌↔◌, ◌⊎◌, inl, inr, Bool, true, false, not, ◌&&◌, ◌||◌, Option, none, some,
  List, [], ◌∷◌, ◌++◌, map, arith, ltb, leb, nat_beq, if◌then◌else◌, nat_beq_iff, Bool-cases,
  Option-cases, length, take, drop, length-append, length-drop, length-take-le, filter_by, Eq, ◌==◌,
  beq_self, nat_eq, string_eq, pair_beq, pair_beq_iff, pair_eq, texts_beq, texts_iff, All,
}
use pulsar_relay.Dict
use pulsar_relay.Auth.Users
use pulsar_relay.Auth.Users.{User, UserStorage}
use pulsar_relay.Auth.Refresh.{
  RefreshToken, RefreshTokenStorage, replay, logout, create, mark_revoked, mark_used,
  try_mark_rotated, revoke_chain,
}
use pulsar_relay.Auth.Verify.{
  verify_and_consume, Verified, accepted, rejected, split_wire_token, secret_matches_record,
}

-- What the endpoints call outside of the storages: sha256, the signing of access tokens, and the
-- lifetime of a refresh token from the settings.
pub record Services : Type 0 where
  pub hash_secret : String → String
  pub create_access_token : User → String
  pub refresh_ttl : ℕ

-- The answer of `refresh_token`: a 401, or the access token and the new refresh token.
pub data RefreshReply : Type 0 where
  unauthorized : RefreshReply
  renewed : String → String → RefreshReply

-- The answer of the endpoints that revoke.
pub data RevokeReply : Type 0 where
  bad_request not_found no_content : RevokeReply

pub data Verification : Type 0 where
  refused : Verification
  -- the token that is to be rotated, and its user
  verified : RefreshToken → User → Verification

-- The token's user, if there and active.
unfoldable pub active_user : UserStorage → String → Option User
active_user users user_id = elim (Users.get_user_by_id users user_id) [
  | none ↦ none
  | some user ↦ if user.is_active then some user else none
]

module _ (services : Services) where
  unfoldable pub check_user :
      UserStorage → RefreshTokenStorage → RefreshToken → RefreshTokenStorage × Verification
  unfolding active_user
  check_user users st old = elim (active_user users old.user_id) [
    | none ↦ (mark_revoked st old.jti logout, refused)
    | some user ↦ (st, verified old user)
  ]

  abbrev pub after_verify :
      UserStorage
      → Option (RefreshTokenStorage × Verified)
      → Option (RefreshTokenStorage × Verification)
  after_verify users none = none
  after_verify users (some (st, rejected e)) = some (st, refused)
  after_verify users (some (st, accepted old)) = some (check_user users st old)

  -- `refresh_token` up to the rotation; `none` where a walk over the chain does not end.
  unfoldable pub begin_refresh :
      UserStorage → RefreshTokenStorage → ℕ → String → Option (RefreshTokenStorage × Verification)
  unfolding check_user
  begin_refresh users st now wire =
      after_verify users (verify_and_consume services.hash_secret st now wire)

  -- The caller owns the rotation: the new token is a child of the old one.
  unfoldable pub renew :
      RefreshTokenStorage
      → String
      → String
      → ℕ
      → RefreshToken
      → User
      → RefreshTokenStorage × RefreshReply
  renew st jti secret now old user =
      let (st', token, wire) =
        create services.hash_secret (mark_used st now old.jti) jti secret now user.user_id
          services.refresh_ttl (some old.jti) old.client_hint in
      (st', renewed (services.create_access_token user) wire)

  -- The caller has lost a race.
  unfoldable pub lose_race :
      RefreshTokenStorage → RefreshToken → Option (RefreshTokenStorage × RefreshReply)
  lose_race st old = elim (revoke_chain st old.jti replay) [
    | none ↦ none
    | some (st', revoked) ↦ some (st', unauthorized)
  ]

  abbrev pub after_rotation :
      String
      → String
      → ℕ
      → RefreshToken
      → User
      → RefreshTokenStorage × Bool
      → Option (RefreshTokenStorage × RefreshReply)
  after_rotation jti secret now old user (st, true) = some (renew st jti secret now old user)
  after_rotation jti secret now old user (st, false) = lose_race st old

  -- `refresh_token` from the rotation on.
  unfoldable pub finish_refresh :
      RefreshTokenStorage
      → String
      → String
      → ℕ
      → RefreshToken
      → User
      → Option (RefreshTokenStorage × RefreshReply)
  unfolding renew lose_race
  finish_refresh st jti secret now old user =
      after_rotation jti secret now old user (try_mark_rotated st old.jti)

  abbrev pub after_begin :
      String
      → String
      → ℕ
      → Option (RefreshTokenStorage × Verification)
      → Option (RefreshTokenStorage × RefreshReply)
  after_begin jti secret now none = none
  after_begin jti secret now (some (st, refused)) = some (st, unauthorized)
  after_begin jti secret now (some (st, verified old user)) =
      finish_refresh st jti secret now old user

  -- One request from start to end.
  unfoldable pub refresh_token :
      UserStorage
      → RefreshTokenStorage
      → String
      → String
      → ℕ
      → String
      → Option (RefreshTokenStorage × RefreshReply)
  unfolding begin_refresh finish_refresh
  refresh_token users st jti secret now wire =
      after_begin jti secret now (begin_refresh users st now wire)

  abbrev pub revoke_known :
      RefreshTokenStorage → String → Bool → Option (RefreshTokenStorage × RevokeReply)
  revoke_known st jti false = some (mark_revoked st jti logout, no_content)
  revoke_known st jti true = elim (revoke_chain st jti logout) [
    | none ↦ none
    | some (st', revoked) ↦ some (st', no_content)
  ]

  -- An unknown token or a wrong secret is answered like a success.
  unfoldable pub revoke_refresh_token :
      RefreshTokenStorage → String → Bool → Option (RefreshTokenStorage × RevokeReply)
  revoke_refresh_token st wire whole_chain = elim (split_wire_token wire) [
    | none ↦ some (st, bad_request)
    | some (jti, secret) ↦ elim (Dict.get st.tokens jti) [
      | none ↦ some (st, no_content)
      | some token ↦
          if secret_matches_record services.hash_secret secret token
          then revoke_known st jti whole_chain
          else some (st, no_content)
    ]
  ]

-- A user revokes one of the user's own sessions.
pub revoke_session : RefreshTokenStorage → String → String → RefreshTokenStorage × RevokeReply
revoke_session st jti user_id = elim (Dict.get st.tokens jti) [
  | none ↦ (st, not_found)
  | some token ↦
      if token.user_id == user_id then (mark_revoked st jti logout, no_content) else (st, not_found)
]
