-- ===== src/Auth/Refresh/Rotation.antt =====
-- A token is rotated at most once, and is never accepted again once it is revoked.
use pulsar_relay.Prelude.{
  ℕ, String, eq_iff, ◌≡◌, ◌≢◌, inl, inr, Bool, true, false, Option, none, some, List, [], ◌∷◌,
  arith, Option-cases, nat_eq, string_eq, pair_eq, All,
}
use pulsar_relay.Dict
use pulsar_relay.Dict.Laws.{get-put}
use pulsar_relay.Auth.Refresh.{
  RevokedReason, rotated, replay, expired, RefreshToken, RefreshTokenStorage, new_token, create,
  revoke, mark_revoked, try_mark_rotated, mark_used, revoke_one, revoke_all, revoke_chain, chain_of,
}
use pulsar_relay.Auth.Verify.{verify_and_consume, verify_token, verify_revoked, split_wire_token}

-- The token of this identifier is there and revoked.
abbrev pub is_revoked : List (String × RefreshToken) → String → Bool
is_revoked tokens jti = elim (Dict.get tokens jti) [ none ↦ false | some token ↦ token.revoked ]

revoke_one-keeps :
    (tokens : List (String × RefreshToken)) (jti : String) (reason : RevokedReason) (j : String)
    → is_revoked tokens j ≡ true
    → is_revoked (revoke_one tokens jti reason).0 j ≡ true
unfolding revoke_one revoke
revoke_one-keeps tokens jti reason j h = elim (Option-cases (Dict.get tokens jti)) [
  | inl missing ↦ rw (missing, revoke_one) h
  | inr (token, found) ↦ ground (arith, get-put tokens jti j (revoke token reason), eq_iff jti j)
]

revoke_all-keeps :
    (tokens : List (String × RefreshToken)) (chain : List String) (reason : RevokedReason)
    (j : String)
    → is_revoked tokens j ≡ true
    → is_revoked (revoke_all tokens chain reason).0 j ≡ true
unfolding revoke_all
revoke_all-keeps tokens [] reason j h = h
revoke_all-keeps tokens (jti ∷ chain) reason j h =
    revoke_all-keeps (revoke_one tokens jti reason).0 chain reason j
      (revoke_one-keeps tokens jti reason j h)

-- What a run of the relay does with the tokens.
pub data Call : Type 0 where
  creates : String → String → ℕ → String → ℕ → Option String → Option String → Call
  marks_revoked : String → RevokedReason → Call
  marks_rotated : String → Call
  marks_used : ℕ → String → Call
  revokes_chain : String → RevokedReason → Call
  verifies : ℕ → String → Call

abbrev pub state_or {ℓ} :
    {A : Type ℓ} → RefreshTokenStorage → Option (RefreshTokenStorage × A) → RefreshTokenStorage
state_or st none = st
state_or st (some (st', result)) = st'

module _ (hash_secret : String → String) where
  unfoldable pub step : RefreshTokenStorage → Call → RefreshTokenStorage
  step st (creates jti secret now user_id ttl parent_jti client_hint) =
      (create hash_secret st jti secret now user_id ttl parent_jti client_hint).0
  step st (marks_revoked jti reason) = mark_revoked st jti reason
  step st (marks_rotated jti) = (try_mark_rotated st jti).0
  step st (marks_used now jti) = mark_used st now jti
  step st (revokes_chain jti reason) = state_or st (revoke_chain st jti reason)
  step st (verifies now wire) = state_or st (verify_and_consume hash_secret st now wire)

  unfoldable pub run : RefreshTokenStorage → List Call → RefreshTokenStorage
  unfolding step
  run st [] = st
  run st (c ∷ calls) = run (step st c) calls

-- The call does not create a token of this identifier.
abbrev pub Spares : String → Call → Type 0
Spares jti (creates other secret now user_id ttl parent_jti client_hint) = other ≢ jti
Spares jti _ = Unit

mark_revoked-keeps :
    (st : RefreshTokenStorage) (jti : String) (reason : RevokedReason) (j : String)
    → is_revoked st.tokens j ≡ true
    → is_revoked (mark_revoked st jti reason).tokens j ≡ true
unfolding mark_revoked revoke
mark_revoked-keeps st jti reason j h = elim (Option-cases (Dict.get st.tokens jti)) [
  | inl missing ↦ rw (missing, mark_revoked) h
  | inr (token, found) ↦ ground (arith, get-put st.tokens jti j (revoke token reason), eq_iff jti j)
]

revoke_chain-keeps :
    (st : RefreshTokenStorage) (jti : String) (reason : RevokedReason) (j : String)
    → is_revoked st.tokens j ≡ true
    → is_revoked (state_or st (revoke_chain st jti reason)).tokens j ≡ true
unfolding revoke_chain
revoke_chain-keeps st jti reason j h = elim (Option-cases (Dict.get st.tokens jti)) [
  | inl missing ↦ rw (missing, revoke_chain) h
  | inr (seed, found) ↦ elim (Option-cases (chain_of st seed.user_id jti)) [
    | inl endless ↦ rw (found, revoke_chain, endless) h
    | inr (chain, walked) ↦
        rw (found, revoke_chain, walked) (revoke_all-keeps st.tokens chain reason j h)
  ]
]

try_mark_rotated-keeps :
    (st : RefreshTokenStorage) (jti j : String)
    → is_revoked st.tokens j ≡ true
    → is_revoked (try_mark_rotated st jti).0.tokens j ≡ true
unfolding try_mark_rotated revoke
try_mark_rotated-keeps st jti j h = elim (Option-cases (Dict.get st.tokens jti)) [
  | inl missing ↦ rw (missing, try_mark_rotated) h
  | inr (token, found) ↦
      ground (arith, get-put st.tokens jti j (revoke token rotated), eq_iff jti j)
]

mark_used-keeps :
    (st : RefreshTokenStorage) (now : ℕ) (jti j : String)
    → is_revoked st.tokens j ≡ true
    → is_revoked (mark_used st now jti).tokens j ≡ true
unfolding mark_used
mark_used-keeps st now jti j h = elim (Option-cases (Dict.get st.tokens jti)) [
  | inl missing ↦ rw (missing, mark_used) h
  | inr (token, found) ↦
      ground
        (arith, get-put st.tokens jti j (record token { last_used_at = some now }), eq_iff jti j)
]

verify_revoked-keeps :
    (st : RefreshTokenStorage) (jti : String) (reason : Option RevokedReason) (j : String)
    → is_revoked st.tokens j ≡ true
    → is_revoked (state_or st (verify_revoked st jti reason)).tokens j ≡ true
unfolding verify_revoked
verify_revoked-keeps st jti reason j h = ground (arith, revoke_chain-keeps st jti replay j h)

verify_token-keeps :
    (hash_secret : String → String) (st : RefreshTokenStorage) (now : ℕ) (jti secret : String)
    (token : RefreshToken) (j : String)
    → is_revoked st.tokens j ≡ true
    → is_revoked (state_or st (verify_token hash_secret st now jti secret token)).tokens j ≡ true
unfolding verify_token
verify_token-keeps hash_secret st now jti secret token j h = ground (
  arith,
  verify_revoked-keeps st jti token.revoked_reason j h,
  mark_revoked-keeps st jti expired j h,
)

verify_and_consume-keeps :
    (hash_secret : String → String) (st : RefreshTokenStorage) (now : ℕ) (wire j : String)
    → is_revoked st.tokens j ≡ true
    → is_revoked (state_or st (verify_and_consume hash_secret st now wire)).tokens j ≡ true
unfolding verify_and_consume
verify_and_consume-keeps hash_secret st now wire j h = elim (Option-cases (split_wire_token wire)) [
  | inl garbled ↦ rw (garbled, verify_and_consume) h
  | inr ((jti, secret), parsed) ↦ elim (Option-cases (Dict.get st.tokens jti)) [
    | inl missing ↦ rw (parsed, verify_and_consume, missing) h
    | inr (token, found) ↦
        rw (parsed, verify_and_consume, found)
          (verify_token-keeps hash_secret st now jti secret token j h)
  ]
]

pub step-keeps :
    (hash_secret : String → String) (st : RefreshTokenStorage) (c : Call) (j : String)
    → Spares j c
    → is_revoked st.tokens j ≡ true
    → is_revoked (step hash_secret st c).tokens j ≡ true
unfolding step create
step-keeps hash_secret st (creates jti secret now user_id ttl parent hint) j ne h = ground (
  arith,
  get-put st.tokens jti j (new_token hash_secret jti secret now user_id ttl parent hint),
  eq_iff jti j,
)
step-keeps hash_secret st (marks_revoked jti reason) j s h = mark_revoked-keeps st jti reason j h
step-keeps hash_secret st (marks_rotated jti) j s h = try_mark_rotated-keeps st jti j h
step-keeps hash_secret st (marks_used now jti) j s h = mark_used-keeps st now jti j h
step-keeps hash_secret st (revokes_chain jti reason) j s h = revoke_chain-keeps st jti reason j h
step-keeps hash_secret st (verifies now wire) j s h =
    verify_and_consume-keeps hash_secret st now wire j h

pub run-keeps :
    (hash_secret : String → String) (st : RefreshTokenStorage) (calls : List Call) (j : String)
    → All (Spares j) calls
    → is_revoked st.tokens j ≡ true
    → is_revoked (run hash_secret st calls).tokens j ≡ true
unfolding run
run-keeps hash_secret st [] j s h = h
run-keeps hash_secret st (c ∷ calls) j s h =
    run-keeps hash_secret (step hash_secret st c) calls j s.1 (step-keeps hash_secret st c j s.0 h)

pub revoked_by_rotation :
    (st : RefreshTokenStorage) (jti : String)
    → (try_mark_rotated st jti).1 ≡ true
    → is_revoked (try_mark_rotated st jti).0.tokens jti ≡ true
unfolding try_mark_rotated revoke
revoked_by_rotation st jti h = elim (Option-cases (Dict.get st.tokens jti)) [
  | inl missing ↦ ground arith
  | inr (token, found) ↦
      ground (arith, get-put st.tokens jti jti (revoke token rotated), eq_iff jti jti)
]

pub no_rotation_of_revoked :
    (st : RefreshTokenStorage) (jti : String)
    → is_revoked st.tokens jti ≡ true
    → (try_mark_rotated st jti).1 ≡ false
unfolding try_mark_rotated
no_rotation_of_revoked st jti h = ground arith

-- Of all attempts to rotate a token at most one succeeds: after a successful one, every later one
-- fails, whatever calls are made in between, if none of them creates a token of that identifier
-- again.
pub rotated_once :
    (hash_secret : String → String) (st : RefreshTokenStorage) (jti : String) (calls : List Call)
    → (try_mark_rotated st jti).1 ≡ true
    → All (Spares jti) calls
    → (try_mark_rotated (run hash_secret (try_mark_rotated st jti).0 calls) jti).1 ≡ false
rotated_once hash_secret st jti calls owned spared =
    no_rotation_of_revoked _ jti
      (run-keeps hash_secret _ calls jti spared (revoked_by_rotation st jti owned))
