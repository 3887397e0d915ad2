-- ===== src/Auth/Refresh/Wire.antt =====
-- The wire token: a token that is issued is accepted until it expires.
use Prim.Native.Char.{Char, code}
use Prim.Native.String.{◌++◌ as text_append}
use text.Mathlib.TextLemmas.{cons-append, nil-append}
use pulsar_relay.Prelude.{
  ℕ, ◌+◌, String, ◌≡◌, refl, ◌∙◌, false, Option, some, List, leb, nat_beq, if◌then◌else◌, ◌==◌,
  beq_self, nat_eq, string_eq, pair_eq,
}
use mathlib.Core.Path.{subst}
use pulsar_relay.Dict
use pulsar_relay.Dict
use pulsar_relay.Dict.Laws.{get-put}
use pulsar_relay.Auth.Refresh.{
  RefreshToken, mark_revoked, expired, create, RefreshTokenStorage, new_token, wire_of,
}
use pulsar_relay.Auth.Verify.{
  rejected, has_expired, split_wire_token, verify_token, verify_and_consume, accepted,
  secret_matches_record, dot, prepend_to, partition,
}

-- The text holds no '.'.
abbrev pub HasNoDot : String → Type 0
HasNoDot String.[] = Unit
HasNoDot (String.◌∷◌ c s) = (nat_beq (code c) dot ≡ false) × HasNoDot s

partition_dot : (secret : String) → partition (text_append "." secret) ≡ some ("", secret)
unfolding partition
partition_dot secret = rw (cons-append, nil-append) refl

partition_cons :
    (c : Char) (s : String)
    → nat_beq (code c) dot ≡ false
    → partition (String.◌∷◌ c s) ≡ prepend_to (partition s) (String.◌∷◌ c "")
unfolding partition
partition_cons c s h = rw h refl

append-one : (c : Char) (s : String) → text_append (String.◌∷◌ c "") s ≡ String.◌∷◌ c s
append-one c s = rw (cons-append, nil-append) refl

partition-wire_of :
    (jti secret : String) → HasNoDot jti → partition (wire_of jti secret) ≡ some (jti, secret)
partition-wire_of String.[] secret h = rw nil-append (partition_dot secret)
partition-wire_of (String.◌∷◌ c jti) secret h =
    rw
      (
        cons-append,
        partition_cons c (wire_of jti secret) h.0,
        partition-wire_of jti secret h.1,
        append-one c jti,
      )
      refl

get-put_self :
    (d : List (String × RefreshToken)) (j : String) (token : RefreshToken)
    → Dict.get (Dict.put d j token) j ≡ some token
get-put_self d j token = get-put d j j token ∙ rw (beq_self j) refl

split_wire_token-wire_of :
    (jti secret : String)
    → HasNoDot jti
    → (jti == "") ≡ false
    → (secret == "") ≡ false
    → split_wire_token (wire_of jti secret) ≡ some (jti, secret)
unfolding split_wire_token
split_wire_token-wire_of jti secret h named given =
    rw (partition-wire_of jti secret h, named, given) refl

verify_of_get :
    (hash_secret : String → String) (st : RefreshTokenStorage) (t : ℕ) (jti secret wire : String)
    (token : RefreshToken)
    → split_wire_token wire ≡ some (jti, secret)
    → Dict.get st.tokens jti ≡ some token
    → verify_and_consume hash_secret st t wire ≡ verify_token hash_secret st t jti secret token
unfolding verify_and_consume
verify_of_get hash_secret st t jti secret wire token parsed found =
    rw (parsed, verify_and_consume, found) refl

verify_token-valid :
    (hash_secret : String → String) (st : RefreshTokenStorage) (t : ℕ) (jti secret : String)
    (token : RefreshToken)
    → token.secret_hash ≡ hash_secret secret
    → token.revoked ≡ false
    → verify_token hash_secret st t jti secret token ≡ (
        if leb token.expires_at t
        then some (mark_revoked st jti expired, rejected has_expired)
        else some (st, accepted token))
unfolding verify_token secret_matches_record
verify_token-valid hash_secret st t jti secret token hashed live =
    rw (hashed, beq_self (hash_secret secret), live) refl

-- A token that is issued at `now` and presented at `t`, with no call in between, is accepted exactly
-- if `t` is before its expiry, `now + ttl`, and then nothing changes; later it is marked as expired.
-- Its identifier is not empty and holds no '.', and its secret is not empty.
pub verify_and_consume-create :
    (hash_secret : String → String) (st st' : RefreshTokenStorage) (jti secret : String) (now : ℕ)
    (user_id : String) (ttl : ℕ) (parent_jti client_hint : Option String) (token : RefreshToken)
    (wire : String) (t : ℕ)
    → HasNoDot jti
    → (jti == "") ≡ false
    → (secret == "") ≡ false
    → create hash_secret st jti secret now user_id ttl parent_jti client_hint ≡ (st', token, wire)
    → verify_and_consume hash_secret st' t wire ≡ (
        if leb (now + ttl) t
        then some (mark_revoked st' jti expired, rejected has_expired)
        else some (st', accepted token))
unfolding create new_token
verify_and_consume-create hash_secret st st' jti secret now user_id ttl parent_jti client_hint token
      wire t h named given issued =
    subst
      (λ r. verify_and_consume hash_secret r.0 t r.2 ≡ (
        if leb (now + ttl) t
        then some (mark_revoked r.0 jti expired, rejected has_expired)
        else some (r.0, accepted r.1)))
      issued
      (verify_of_get hash_secret _ t jti secret _ _
          (split_wire_token-wire_of jti secret h named given) (get-put_self st.tokens jti _)
        ∙ verify_token-valid hash_secret _ t jti secret _ refl refl)
