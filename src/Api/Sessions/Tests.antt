-- ===== src/Api/Sessions/Tests.antt =====
-- A login and a logout at concrete inputs.
use mathlib.Core.Path.{subst}
use pulsar_relay.Prelude.{
  ℕ, ◌≤◌, String, eq_iff, ◌≡◌, refl, ◌∙◌, sym, ◌⊎◌, inl, inr, ◌&&◌, true, Option, none, some, List,
  [], ◌∷◌, arith, ltb, Bool-cases, if◌then◌else◌, ◌==◌, nat_eq, string_eq, pair_eq,
}
use pulsar_relay.Clock.{seconds}
use pulsar_relay.Dict
use pulsar_relay.Auth.Denylist
use pulsar_relay.Auth.Users
use pulsar_relay.Auth.Users.{User, UserStorage}
use pulsar_relay.Auth.Refresh
use pulsar_relay.Auth.Refresh.{RefreshToken, RefreshTokenStorage}
use pulsar_relay.Auth.Verify.{verify_and_consume, accepted}
use pulsar_relay.Auth.Jwt.{
  TokenPayload, Jwt, IsSound, create_access_token, expire_at, to_encode, decode_token,
  get_token_expiration_seconds,
}
use pulsar_relay.Auth.Access.{
  Access, granted, denied, revoked_token, invalid_token, verdict_on, check_denylist, after_decode,
  get_token_payload, bearer,
}
use pulsar_relay.Auth.Access.Current.{IsCurrent}
use pulsar_relay.Api.Sessions.{
  LoginServices, logged_in, no_content, deny_list, after_payload, logout, password_matches, login,
}
use pulsar_relay.Api.Sessions.Barred.{Call, presents, logs_out, run}
use pulsar_relay.Api.Sessions.Logout.{logged_out_refused}
use pulsar_relay.Api.Sessions.Replies.{MayLogIn, Justified, login-Justified}
use pulsar_relay.Api.Sessions.Login.{login_opens}

abbrev ann : User
ann = record {
  user_id = "u1";
  username = "ann";
  email = none;
  hashed_password = some "secret word";
  is_active = true;
  created_at = 0;
  permissions = [];
  owned_topics = [];
  federated_identities = [];
}

abbrev ann_only : UserStorage
ann_only = record {
  users = ("u1", ann) ∷ [];
  username_index = ("ann", "u1") ∷ [];
  federated_index = [];
}

abbrev worker : Access
worker = record {
  users = ann_only;
  user_cache = record { ttl = seconds 60; max_size = 1000; cache = [] };
  denylist = some [];
}

-- Ten minutes from the second 1 on.
abbrev claims : TokenPayload
claims = record {
  sub = "u1";
  username = "ann";
  permissions = [];
  exp = 601;
  iat = 1;
  jti = some "t1";
}

-- The one token that this relay signs.
decode_one : ℕ → String → Option TokenPayload
decode_one now token = if (token == "signed") && ltb now (seconds 601) then some claims else none

abbrev jwt : Jwt
jwt = record { encode = λ payload. "signed"; decode = decode_one; access_token_expire_minutes = 10 }

decode_one-claims :
    (now : ℕ) (token : String) (p : TokenPayload) → decode_one now token ≡ some p → p ≡ claims
unfolding decode_one
decode_one-claims now token p h = elim (Bool-cases ((token == "signed") && ltb now (seconds 601))) [
  | inl valid ↦ ground (arith)
  | inr invalid ↦ absurd (ground arith)
]

decode_one-expired : (t : ℕ) (token : String) → seconds 601 ≤ t → decode_one t token ≡ none
unfolding decode_one
decode_one-expired t token over = ground arith

jwt-IsSound : IsSound jwt
jwt-IsSound = record {
  same_claims = λ token a b p q first second.
      decode_one-claims a token p first ∙ sym (decode_one-claims b token q second);
  expires = λ token a t p first over.
      decode_one-expired t token
        (subst (λ (q : TokenPayload). seconds q.exp ≤ t) (decode_one-claims a token p first) over);
}

abbrev services : LoginServices
services = record {
  verify_password = λ password hashed. password == hashed;
  hash_secret = λ secret. secret;
  token_uuid = "t1";
  jti = "r1";
  secret = "s";
  refresh_ttl = seconds 3600;
}

-- In the second 5 Ann logs out; the token is presented in the second 6, and once more tried for a
-- logout in the second 7.
abbrev calls : List Call
calls = presents (seconds 6) "signed" ∷ logs_out (seconds 7) "signed" ∷ []

logout_done : (logout jwt (seconds 5) worker "signed").1 ≡ no_content
unfolding logout after_payload deny_list get_token_payload after_decode decode_token decode_one
    check_denylist verdict_on Denylist.is_revoked Dict.get
logout_done = refl

decoded_at_5 : decode_one (seconds 5) "signed" ≡ some claims
unfolding decode_one
decoded_at_5 = refl

logged_out_refused_example :
    ((get_token_payload jwt
        (seconds 8)
        (run jwt (logout jwt (seconds 5) worker "signed").0 calls)
        "signed").1
      ≡ denied revoked_token)
    ⊎ ((get_token_payload jwt
          (seconds 8)
          (run jwt (logout jwt (seconds 5) worker "signed").0 calls)
          "signed").1
        ≡ denied invalid_token)
logged_out_refused_example =
    logged_out_refused jwt (seconds 5) (seconds 8) worker "signed" claims "t1" calls jwt-IsSound
      decoded_at_5 refl logout_done (omega arith, (omega arith, tt)) (inl (omega arith))

ann-MayLogIn : MayLogIn services ann_only "ann" "secret word" ann
unfolding password_matches Users.get_user_by_username Dict.get
ann-MayLogIn = (refl, refl, refl)

worker-IsCurrent : IsCurrent worker
unfolding Dict.get
worker-IsCurrent = record {
  room = omega arith;
  keyed = λ user_id user h. ground (arith, eq_iff "u1" user_id);
  mirrors = λ user_id entry h. absurd (ground arith);
}

ann_stored : Dict.get ann_only.users "u1" ≡ some ann
unfolding Dict.get
ann_stored = refl

decoded_at_2 :
    decode_one (seconds 2) (create_access_token jwt (seconds 1) "t1" ann none)
    ≡ some (to_encode ann (seconds 1) (expire_at 10 (seconds 1) none) "t1")
unfolding decode_one create_access_token to_encode expire_at
decoded_at_2 = refl

not_listed : Dict.get {K = String} {V = ℕ} [] "t1" ≡ none
unfolding Dict.get
not_listed = refl

-- Ann logs in in the second 1. The access token is used in the second 2, and the refresh token in the
-- second 3000, when the access token has expired.
login_opens_example :
    (access wire : String) × (refresh' : RefreshTokenStorage) × (token : RefreshToken) × (login jwt
        services
        (seconds 1)
        ann_only
        Refresh.init
        "ann"
        "secret word"
      ≡ (refresh', logged_in access (get_token_expiration_seconds jwt) wire))
    × ((bearer jwt (seconds 2) worker access).1 ≡ granted ann)
    × (verify_and_consume services.hash_secret refresh' (seconds 3000) wire
        ≡ some (refresh', accepted token))
    × (token.user_id ≡ "u1")
login_opens_example =
    login_opens jwt services (seconds 1) (seconds 2) (seconds 3000) ann_only Refresh.init "ann"
      "secret word" ann worker ann-MayLogIn (refl, (refl, tt)) refl refl decoded_at_2 (omega arith)
      not_listed worker-IsCurrent ann_stored

-- A wrong password.
login-Justified_example :
    Justified services ann_only "ann" "guess"
      (login jwt services 1 ann_only Refresh.init "ann" "guess").1
    × (((login jwt services 1 ann_only Refresh.init "ann" "guess").0 ≡ Refresh.init)
        ⊎ ((user : User) × MayLogIn services ann_only "ann" "guess" user))
login-Justified_example = login-Justified jwt services 1 ann_only Refresh.init "ann" "guess"
