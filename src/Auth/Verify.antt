-- ===== src/Auth/Verify.antt =====
-- pulsar_relay/auth/refresh.py: `split_wire_token`, `secret_matches_record` and
-- `verify_and_consume`, the check of a refresh token that a client presents.
use Prim.Native.Char.{code}
use Prim.Native.String.{◌++◌ as text_append}
use pulsar_relay.Prelude.{
  ℕ, String, Bool, not, ◌||◌, Option, none, some, leb, nat_beq, if◌then◌else◌, ◌==◌, nat_eq,
  string_eq, pair_eq,
}
use pulsar_relay.Dict
use pulsar_relay.Auth.Refresh.{
  RevokedReason, rotated, replay, expired, RefreshToken, RefreshTokenStorage, mark_revoked,
  revoke_chain,
}

-- The code point of '.'.
abbrev pub dot : ℕ
dot = 46

abbrev pub prepend_to : Option (String × String) → String → Option (String × String)
prepend_to none c = none
prepend_to (some (before, after)) c = some (text_append c before, after)

-- wire.partition("."): `none` where there is no '.'.
unfoldable pub partition : String → Option (String × String)
partition String.[] = none
partition (String.◌∷◌ c s) =
    let rest = partition s in
    if nat_beq (code c) dot then some ("", s) else prepend_to rest (String.◌∷◌ c "")

abbrev pub both_present : Option (String × String) → Option (String × String)
both_present none = none
both_present (some (jti, secret)) = if jti == "" || secret == "" then none else some (jti, secret)

-- `none` is the ValueError.
unfoldable pub split_wire_token : String → Option (String × String)
unfolding partition
split_wire_token wire = both_present (partition wire)

-- The hash is sha256, a parameter.
unfoldable pub secret_matches_record : (String → String) → String → RefreshToken → Bool
secret_matches_record hash_secret secret token = hash_secret secret == token.secret_hash

-- The messages of RefreshTokenError.
pub data RefreshError : Type 0 where
  malformed unknown secret_mismatch is_revoked has_expired : RefreshError

pub data Verified : Type 0 where
  accepted : RefreshToken → Verified
  rejected : RefreshError → Verified

abbrev pub after_replay :
    RefreshTokenStorage → Option (RefreshTokenStorage × ℕ) → Option (RefreshTokenStorage × Verified)
after_replay st none = none
after_replay st (some (st', n)) = some (st', rejected is_revoked)

-- A revoked token: one that was rotated is a replay, which revokes the whole chain.
unfoldable pub verify_revoked :
    RefreshTokenStorage → String → Option RevokedReason → Option (RefreshTokenStorage × Verified)
unfolding revoke_chain
verify_revoked st jti (some rotated) = after_replay st (revoke_chain st jti replay)
verify_revoked st jti _ = some (st, rejected is_revoked)

unfoldable pub verify_token :
    (String → String)
    → RefreshTokenStorage
    → ℕ
    → String
    → String
    → RefreshToken
    → Option (RefreshTokenStorage × Verified)
unfolding verify_revoked mark_revoked secret_matches_record
verify_token hash_secret st now jti secret token =
    if not (secret_matches_record hash_secret secret token)
    then some (st, rejected secret_mismatch)
    else if token.revoked
    then verify_revoked st jti token.revoked_reason
    else if leb token.expires_at now
    then some (mark_revoked st jti expired, rejected has_expired)
    else some (st, accepted token)

-- `none` where the revocation of a chain does not end.
unfoldable pub verify_and_consume :
    (String → String) → RefreshTokenStorage → ℕ → String → Option (RefreshTokenStorage × Verified)
unfolding verify_token split_wire_token
verify_and_consume hash_secret st now wire_token = elim (split_wire_token wire_token) [
  | none ↦ some (st, rejected malformed)
  | some (jti, secret) ↦ elim (Dict.get st.tokens jti) [
    | none ↦ some (st, rejected unknown)
    | some token ↦ verify_token hash_secret st now jti secret token
  ]
]
