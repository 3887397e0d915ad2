-- ===== src/Api/Tokens/Tests.antt =====
-- Two refreshes of one token.
use pulsar_relay.Prelude.{◌≡◌, refl, true, false, none, [], ◌∷◌, arith, nat_eq, string_eq, pair_eq}
use pulsar_relay.Dict
use pulsar_relay.Auth.Users.{User}
use pulsar_relay.Auth.Refresh.{RefreshToken, RefreshTokenStorage, try_mark_rotated}
use pulsar_relay.Auth.Refresh.Rotation.{marks_used, run}
use pulsar_relay.Api.Tokens.{Services, renew, finish_refresh}
use pulsar_relay.Dict.{contains}
use pulsar_relay.Auth.Refresh.Roots.{IsRooted, nil-IsRooted, fresh-IsRooted}
use pulsar_relay.Api.Tokens.Races.{is_renewed, state_after, IsRefused, refreshed_once}

abbrev services : Services
services = record {
  hash_secret = λ s. s;
  create_access_token = λ user. user.username;
  refresh_ttl = 1000;
}

abbrev alice : User
alice = record {
  user_id = "u1";
  username = "alice";
  email = none;
  hashed_password = none;
  is_active = true;
  created_at = 0;
  permissions = [];
  owned_topics = [];
  federated_identities = [];
}

abbrev old : RefreshToken
old = record {
  jti = "j1";
  user_id = "u1";
  secret_hash = "s";
  parent_jti = none;
  issued_at = 5;
  expires_at = 105;
  last_used_at = none;
  revoked = false;
  revoked_reason = none;
  client_hint = none;
}

abbrev start : RefreshTokenStorage
start = record { tokens = ("j1", old) ∷ []; user_index = ("u1", "j1" ∷ []) ∷ [] }

first_renewed : is_renewed (finish_refresh services start "j2" "s2" 6 old alice) ≡ true
unfolding finish_refresh renew try_mark_rotated Dict.get
first_renewed = refl

start-IsRooted : IsRooted start.tokens
unfolding Dict.put Dict.get
start-IsRooted = fresh-IsRooted [] "j1" old refl (λ p e. absurd (ground arith)) nil-IsRooted

new_identifier : contains start.tokens "j2" ≡ false
unfolding Dict.get
new_identifier = refl

refreshed_once_example : IsRefused services (
    finish_refresh services
      (run services.hash_secret
        (state_after start (finish_refresh services start "j2" "s2" 6 old alice))
        (marks_used 7 "j2" ∷ []))
      "j3"
      "s3"
      8
      old
      alice)
refreshed_once_example =
    refreshed_once services start "j2" "s2" "j3" "s3" 6 8 old alice alice (marks_used 7 "j2" ∷ [])
      start-IsRooted new_identifier first_renewed (tt, tt)
