-- ===== src/Auth/Refresh/Growth.antt =====
-- The tokens stay rooted as the relay runs.
use pulsar_relay.Prelude.{
  ℕ, String, ◌≡◌, refl, inl, inr, true, false, Option, none, some, List, [], ◌∷◌, arith, leb,
  Bool-cases, Option-cases, nat_eq, string_eq, pair_eq,
}
use pulsar_relay.Dict
use pulsar_relay.Dict.{contains}
use pulsar_relay.Auth.Refresh.{
  RevokedReason, rotated, replay, expired, RefreshToken, RefreshTokenStorage, init, new_token,
  create, revoke, mark_revoked, try_mark_rotated, mark_used, revoke_one, revoke_all, revoke_chain,
  chain_of,
}
use pulsar_relay.Auth.Verify.{
  secret_matches_record, after_replay, verify_and_consume, verify_token, verify_revoked,
  split_wire_token,
}
use pulsar_relay.Auth.Refresh.Rotation.{
  Call, creates, marks_revoked, marks_rotated, marks_used, revokes_chain, verifies, state_or, step,
  run,
}
use pulsar_relay.Auth.Refresh.Roots.{IsRooted, nil-IsRooted, replaced-IsRooted, fresh-IsRooted}

parent-revoke :
    (token : RefreshToken) (reason : RevokedReason)
    → (revoke token reason).parent_jti ≡ token.parent_jti
unfolding revoke
parent-revoke token reason = ground arith

revoked-IsRooted :
    (tokens : List (String × RefreshToken)) (jti : String) (token : RefreshToken)
    (reason : RevokedReason)
    → Dict.get tokens jti ≡ some token
    → IsRooted tokens
    → IsRooted (Dict.put tokens jti (revoke token reason))
revoked-IsRooted tokens jti token reason found h =
    replaced-IsRooted tokens jti token (revoke token reason) found (parent-revoke token reason) h

mark_revoked-IsRooted :
    (st : RefreshTokenStorage) (jti : String) (reason : RevokedReason)
    → IsRooted st.tokens
    → IsRooted (mark_revoked st jti reason).tokens
unfolding mark_revoked
mark_revoked-IsRooted st jti reason h = elim (Option-cases (Dict.get st.tokens jti)) [
  | inl missing ↦ rw (missing, mark_revoked) h
  | inr (token, found) ↦
      rw (found, mark_revoked) (revoked-IsRooted st.tokens jti token reason found h)
]

try_mark_rotated-IsRooted :
    (st : RefreshTokenStorage) (jti : String)
    → IsRooted st.tokens
    → IsRooted (try_mark_rotated st jti).0.tokens
unfolding try_mark_rotated
try_mark_rotated-IsRooted st jti h = elim (Option-cases (Dict.get st.tokens jti)) [
  | inl missing ↦ rw (missing, try_mark_rotated) h
  | inr (token, found) ↦ elim (Bool-cases token.revoked) [
    | inl old ↦ rw (found, try_mark_rotated, old) h
    | inr live ↦
        rw (found, try_mark_rotated, live) (replaced-IsRooted st.tokens jti token _ found refl h)
  ]
]

mark_used-IsRooted :
    (st : RefreshTokenStorage) (now : ℕ) (jti : String)
    → IsRooted st.tokens
    → IsRooted (mark_used st now jti).tokens
unfolding mark_used
mark_used-IsRooted st now jti h = elim (Option-cases (Dict.get st.tokens jti)) [
  | inl missing ↦ rw (missing, mark_used) h
  | inr (token, found) ↦
      rw (found, mark_used)
        (replaced-IsRooted st.tokens jti token (record token { last_used_at = some now }) found refl
          h)
]

revoke_one-IsRooted :
    (tokens : List (String × RefreshToken)) (jti : String) (reason : RevokedReason)
    → IsRooted tokens
    → IsRooted (revoke_one tokens jti reason).0
unfolding revoke_one
revoke_one-IsRooted tokens jti reason h = elim (Option-cases (Dict.get tokens jti)) [
  | inl missing ↦ rw (missing, revoke_one) h
  | inr (token, found) ↦ elim (Bool-cases token.revoked) [
    | inl old ↦ rw (found, revoke_one, old) h
    | inr live ↦ rw (found, revoke_one, live) (replaced-IsRooted tokens jti token _ found refl h)
  ]
]

revoke_all-IsRooted :
    (tokens : List (String × RefreshToken)) (chain : List String) (reason : RevokedReason)
    → IsRooted tokens
    → IsRooted (revoke_all tokens chain reason).0
unfolding revoke_all
revoke_all-IsRooted tokens [] reason h = h
revoke_all-IsRooted tokens (jti ∷ chain) reason h =
    revoke_all-IsRooted (revoke_one tokens jti reason).0 chain reason
      (revoke_one-IsRooted tokens jti reason h)

revoke_chain-IsRooted :
    (st : RefreshTokenStorage) (jti : String) (reason : RevokedReason)
    → IsRooted st.tokens
    → IsRooted (state_or st (revoke_chain st jti reason)).tokens
unfolding revoke_chain
revoke_chain-IsRooted st jti reason h = elim (Option-cases (Dict.get st.tokens jti)) [
  | inl missing ↦ rw (missing, revoke_chain) h
  | inr (seed, found) ↦ elim (Option-cases (chain_of st seed.user_id jti)) [
    | inl endless ↦ rw (found, revoke_chain, endless) h
    | inr (chain, walked) ↦
        rw (found, revoke_chain, walked) (revoke_all-IsRooted st.tokens chain reason h)
  ]
]

after_replay-IsRooted :
    (st : RefreshTokenStorage) (result : Option (RefreshTokenStorage × ℕ))
    → IsRooted (state_or st result).tokens
    → IsRooted (state_or st (after_replay st result)).tokens
after_replay-IsRooted st none h = h
after_replay-IsRooted st (some (st', n)) h = h

verify_revoked-IsRooted :
    (st : RefreshTokenStorage) (jti : String) (reason : Option RevokedReason)
    → IsRooted st.tokens
    → IsRooted (state_or st (verify_revoked st jti reason)).tokens
unfolding verify_revoked
verify_revoked-IsRooted st jti none h = h
verify_revoked-IsRooted st jti (some rotated) h =
    after_replay-IsRooted st (revoke_chain st jti replay) (revoke_chain-IsRooted st jti replay h)
verify_revoked-IsRooted st jti (some _) h = h

verify_token-IsRooted :
    (hash_secret : String → String) (st : RefreshTokenStorage) (now : ℕ) (jti secret : String)
    (token : RefreshToken)
    → IsRooted st.tokens
    → IsRooted (state_or st (verify_token hash_secret st now jti secret token)).tokens
unfolding verify_token
verify_token-IsRooted hash_secret st now jti secret token h =
    elim (Bool-cases (secret_matches_record hash_secret secret token)) [
      | inr wrong ↦ rw wrong h
      | inl right ↦ elim (Bool-cases token.revoked) [
        | inl old ↦ rw (right, old) (verify_revoked-IsRooted st jti token.revoked_reason h)
        | inr live ↦ elim (Bool-cases (leb token.expires_at now)) [
          | inl late ↦ rw (right, live, late) (mark_revoked-IsRooted st jti expired h)
          | inr early ↦ rw (right, live, early) h
        ]
      ]
    ]

verify_and_consume-IsRooted :
    (hash_secret : String → String) (st : RefreshTokenStorage) (now : ℕ) (wire : String)
    → IsRooted st.tokens
    → IsRooted (state_or st (verify_and_consume hash_secret st now wire)).tokens
unfolding verify_and_consume
verify_and_consume-IsRooted hash_secret st now wire h =
    elim (Option-cases (split_wire_token wire)) [
      | inl garbled ↦ rw (garbled, verify_and_consume) h
      | inr ((jti, secret), parsed) ↦ elim (Option-cases (Dict.get st.tokens jti)) [
        | inl missing ↦ rw (parsed, verify_and_consume, missing) h
        | inr (token, found) ↦
            rw (parsed, verify_and_consume, found)
              (verify_token-IsRooted hash_secret st now jti secret token h)
      ]
    ]

-- A call that creates a token draws a new identifier for it, and its parent is a stored token.
abbrev pub IsProper : RefreshTokenStorage → Call → Type 0
IsProper st (creates jti secret now user_id ttl none hint) = contains st.tokens jti ≡ false
IsProper st (creates jti secret now user_id ttl (some parent) hint) =
    (contains st.tokens jti ≡ false) × (contains st.tokens parent ≡ true)
IsProper st _ = Unit

create-IsRooted :
    (hash_secret : String → String) (st : RefreshTokenStorage) (jti secret : String) (now : ℕ)
    (user_id : String) (ttl : ℕ) (parent hint : Option String)
    → IsProper st (creates jti secret now user_id ttl parent hint)
    → IsRooted st.tokens
    → IsRooted (create hash_secret st jti secret now user_id ttl parent hint).0.tokens
unfolding create new_token
create-IsRooted hash_secret st jti secret now user_id ttl none hint fresh h =
    fresh-IsRooted st.tokens jti _ fresh (λ p e. ground arith) h
create-IsRooted hash_secret st jti secret now user_id ttl (some parent) hint proper h =
    fresh-IsRooted st.tokens jti _ proper.0 (λ p e. ground (arith, proper.1)) h

pub step-IsRooted :
    (hash_secret : String → String) (st : RefreshTokenStorage) (c : Call)
    → IsProper st c
    → IsRooted st.tokens
    → IsRooted (step hash_secret st c).tokens
unfolding step
step-IsRooted hash_secret st (creates jti secret now user_id ttl parent hint) proper h =
    create-IsRooted hash_secret st jti secret now user_id ttl parent hint proper h
step-IsRooted hash_secret st (marks_revoked jti reason) proper h =
    mark_revoked-IsRooted st jti reason h
step-IsRooted hash_secret st (marks_rotated jti) proper h = try_mark_rotated-IsRooted st jti h
step-IsRooted hash_secret st (marks_used now jti) proper h = mark_used-IsRooted st now jti h
step-IsRooted hash_secret st (revokes_chain jti reason) proper h =
    revoke_chain-IsRooted st jti reason h
step-IsRooted hash_secret st (verifies now wire) proper h =
    verify_and_consume-IsRooted hash_secret st now wire h

abbrev pub AllProper : (String → String) → RefreshTokenStorage → List Call → Type 0
AllProper hash_secret st [] = Unit
AllProper hash_secret st (c ∷ calls) =
    IsProper st c × AllProper hash_secret (step hash_secret st c) calls

pub run_from-IsRooted :
    (hash_secret : String → String) (st : RefreshTokenStorage) (calls : List Call)
    → AllProper hash_secret st calls
    → IsRooted st.tokens
    → IsRooted (run hash_secret st calls).tokens
unfolding run
run_from-IsRooted hash_secret st [] proper h = h
run_from-IsRooted hash_secret st (c ∷ calls) proper h =
    run_from-IsRooted hash_secret (step hash_secret st c) calls proper.1
      (step-IsRooted hash_secret st c proper.0 h)

-- From an empty storage, after any calls: the walk from any identifier to the root of its chain ends
-- within as many steps as there are tokens, and every parent is a stored token, if each token was
-- created under a new identifier and with no parent or a stored one.
pub run-IsRooted :
    (hash_secret : String → String) (calls : List Call)
    → AllProper hash_secret init calls
    → IsRooted (run hash_secret init calls).tokens
unfolding init
run-IsRooted hash_secret calls proper = run_from-IsRooted hash_secret init calls proper nil-IsRooted
