-- ===== src/Api/Tokens/Races.antt =====
-- Two refreshes of the same token.
use mathlib.Core.Path.{subst}
use pulsar_relay.Prelude.{
  ℕ, String, eq_iff, Option-cases, ◌≡◌, refl, sym, ◌∙◌, inl, inr, Bool, true, false, Option, none,
  some, List, [], ◌∷◌, arith, Bool-cases, nat_eq, string_eq, pair_eq,
}
use pulsar_relay.Dict
use pulsar_relay.Dict.{contains}
use pulsar_relay.Dict.Laws.{get-put}
use pulsar_relay.Auth.Users.{User}
use pulsar_relay.Auth.Refresh.{
  RefreshToken, RefreshTokenStorage, replay, rotated, revoke, mark_used, try_mark_rotated,
}
use pulsar_relay.Auth.Refresh.Rotation.{
  Call, creates, marks_rotated, marks_used, marks_revoked, revokes_chain, verifies, run, Spares,
  step, is_revoked, step-keeps, revoked_by_rotation, no_rotation_of_revoked,
}
use pulsar_relay.Auth.Refresh.Roots.{IsRooted}
use pulsar_relay.Auth.Refresh.Chain.{revoke_chain_ends}
use pulsar_relay.Auth.Refresh.Growth.{IsProper, AllProper, step-IsRooted, run_from-IsRooted}
use pulsar_relay.Api.Tokens.{
  Services, RefreshReply, unauthorized, renewed, renew, lose_race, finish_refresh,
}

abbrev pub is_renewed : Option (RefreshTokenStorage × RefreshReply) → Bool
is_renewed none = false
is_renewed (some (st, unauthorized)) = false
is_renewed (some (st, renewed access_token refresh_token)) = true

-- The storage that a request leaves behind.
abbrev pub state_after :
    RefreshTokenStorage → Option (RefreshTokenStorage × RefreshReply) → RefreshTokenStorage
state_after st none = st
state_after st (some (st', reply)) = st'

contains-mark_used :
    (st : RefreshTokenStorage) (now : ℕ) (jti j : String)
    → contains (mark_used st now jti).tokens j ≡ contains st.tokens j
unfolding mark_used
contains-mark_used st now jti j = elim (Option-cases (Dict.get st.tokens jti)) [
  | inl missing ↦ rw (missing, mark_used) refl
  | inr (token, found) ↦
      ground
        (arith, get-put st.tokens jti j (record token { last_used_at = some now }), eq_iff jti j)
]

contains-rotated :
    (st : RefreshTokenStorage) (jti j : String)
    → contains (try_mark_rotated st jti).0.tokens j ≡ contains st.tokens j
unfolding try_mark_rotated
contains-rotated st jti j = elim (Option-cases (Dict.get st.tokens jti)) [
  | inl missing ↦ rw (missing, try_mark_rotated) refl
  | inr (token, found) ↦
      ground (arith, get-put st.tokens jti j (revoke token rotated), eq_iff jti j)
]

stored_of_owned :
    (st : RefreshTokenStorage) (jti : String)
    → (try_mark_rotated st jti).1 ≡ true
    → contains st.tokens jti ≡ true
unfolding try_mark_rotated
stored_of_owned st jti owned = ground arith

rotated-IsRooted :
    (hash_secret : String → String) (st : RefreshTokenStorage) (jti : String)
    → IsRooted st.tokens
    → IsRooted (try_mark_rotated st jti).0.tokens
unfolding step
rotated-IsRooted hash_secret st jti rooted =
    step-IsRooted hash_secret st (marks_rotated jti) tt rooted

-- A new identifier is none of a stored token.
Spares-of_proper :
    (st : RefreshTokenStorage) (c : Call) (jti : String)
    → IsProper st c
    → is_revoked st.tokens jti ≡ true
    → Spares jti c
Spares-of_proper st (creates other secret now user_id ttl none hint) jti proper revoked =
    λ e. ground (arith, eq_iff other jti)
Spares-of_proper st (creates other secret now user_id ttl (some parent) hint) jti proper revoked =
    λ e. ground (arith, proper.0, eq_iff other jti)
Spares-of_proper st (marks_revoked other reason) jti proper revoked = tt
Spares-of_proper st (marks_rotated other) jti proper revoked = tt
Spares-of_proper st (marks_used now other) jti proper revoked = tt
Spares-of_proper st (revokes_chain other reason) jti proper revoked = tt
Spares-of_proper st (verifies now wire) jti proper revoked = tt

module _ (services : Services) where
  -- The loser of a race is answered with a 401, and its revocation of the chain ends.
  abbrev pub IsRefused : Option (RefreshTokenStorage × RefreshReply) → Type 0
  IsRefused left = (st : RefreshTokenStorage) × (left ≡ some (st, unauthorized))

  lose_race-IsRefused :
      (st : RefreshTokenStorage) (old : RefreshToken)
      → IsRooted st.tokens
      → IsRefused (lose_race services st old)
  unfolding lose_race
  lose_race-IsRefused st old rooted =
      let (left, ended) = revoke_chain_ends st old.jti replay rooted in
      (left.0, rw (ended, lose_race) refl)

  lost-lose_race :
      (st : RefreshTokenStorage) (old : RefreshToken)
      → is_renewed (lose_race services st old) ≡ false
  unfolding lose_race
  lost-lose_race st old = ground arith

  renewed_of_rotation :
      (st : RefreshTokenStorage) (jti secret : String) (now : ℕ) (old : RefreshToken) (user : User)
      → is_renewed (finish_refresh services st jti secret now old user)
        ≡ (try_mark_rotated st old.jti).1
  unfolding finish_refresh renew
  renewed_of_rotation st jti secret now old user =
      elim (Bool-cases (try_mark_rotated st old.jti).1) [
        | inl owned ↦ rw owned refl
        | inr lost ↦ rw lost (lost-lose_race (try_mark_rotated st old.jti).0 old)
      ]

  -- A request whose token is revoked already.
  revoked-IsRefused :
      (st : RefreshTokenStorage) (jti secret : String) (now : ℕ) (old : RefreshToken) (user : User)
      → IsRooted st.tokens
      → is_revoked st.tokens old.jti ≡ true
      → IsRefused (finish_refresh services st jti secret now old user)
  unfolding finish_refresh
  revoked-IsRefused st jti secret now old user rooted revoked =
      rw (no_rotation_of_revoked st old.jti revoked) (
        lose_race-IsRefused (try_mark_rotated st old.jti).0 old
          (rotated-IsRooted services.hash_secret st old.jti rooted))

  -- The calls on the storage of a request that owns the rotation.
  abbrev calls_of : String → String → ℕ → RefreshToken → User → List Call
  calls_of jti secret now old user =
      marks_rotated old.jti
      ∷ marks_used now old.jti
      ∷ creates jti secret now user.user_id services.refresh_ttl (some old.jti) old.client_hint
      ∷ []

  state_of_rotation :
      (st : RefreshTokenStorage) (jti secret : String) (now : ℕ) (old : RefreshToken) (user : User)
      → (try_mark_rotated st old.jti).1 ≡ true
      → state_after st (finish_refresh services st jti secret now old user)
        ≡ run services.hash_secret st (calls_of jti secret now old user)
  unfolding finish_refresh renew run step
  state_of_rotation st jti secret now old user owned = rw owned refl

  calls_proper :
      (st : RefreshTokenStorage) (jti secret : String) (now : ℕ) (old : RefreshToken) (user : User)
      → (try_mark_rotated st old.jti).1 ≡ true
      → contains st.tokens jti ≡ false
      → AllProper services.hash_secret st (calls_of jti secret now old user)
  unfolding step
  calls_proper st jti secret now old user owned fresh = (
    tt,
    (
      tt,
      (
        (
          contains-mark_used (try_mark_rotated st old.jti).0 now old.jti jti
              ∙ (contains-rotated st old.jti jti ∙ fresh),
          contains-mark_used (try_mark_rotated st old.jti).0 now old.jti old.jti
              ∙ (contains-rotated st old.jti old.jti ∙ stored_of_owned st old.jti owned),
        ),
        tt,
      ),
    ),
  )

  -- Calls that draw new identifiers spare those that are stored and revoked.
  proper-keeps :
      (st : RefreshTokenStorage) (calls : List Call) (jti : String)
      → AllProper services.hash_secret st calls
      → is_revoked st.tokens jti ≡ true
      → is_revoked (run services.hash_secret st calls).tokens jti ≡ true
  unfolding run
  proper-keeps st [] jti proper revoked = revoked
  proper-keeps st (c ∷ calls) jti proper revoked =
      proper-keeps (step services.hash_secret st c) calls jti proper.1 (
        step-keeps services.hash_secret st c jti (Spares-of_proper st c jti proper.0 revoked)
          revoked)

  calls-revoked :
      (st : RefreshTokenStorage) (jti secret : String) (now : ℕ) (old : RefreshToken) (user : User)
      → (try_mark_rotated st old.jti).1 ≡ true
      → contains st.tokens jti ≡ false
      → is_revoked (run services.hash_secret st (calls_of jti secret now old user)).tokens old.jti
        ≡ true
  unfolding run step
  calls-revoked st jti secret now old user owned fresh =
      let proper = calls_proper st jti secret now old user owned fresh in
      proper-keeps (try_mark_rotated st old.jti).0
        (marks_used now old.jti
          ∷ creates jti secret now user.user_id services.refresh_ttl (some old.jti) old.client_hint
          ∷ [])
        old.jti proper.1 (revoked_by_rotation st old.jti owned)

  -- Of two requests that have both verified the same token, at most one gets new tokens: if one
  -- rotates it, the other, whatever calls are made in between, is answered with a 401, and its
  -- revocation of the token's chain ends. The stored tokens are rooted at first, as they are after
  -- any run from an empty storage, and every token is created under a new identifier, with no
  -- parent or a stored one.
  pub refreshed_once :
      (st : RefreshTokenStorage) (jti secret jti' secret' : String) (now now' : ℕ)
      (old : RefreshToken) (user user' : User) (calls : List Call)
      → IsRooted st.tokens
      → contains st.tokens jti ≡ false
      → is_renewed (finish_refresh services st jti secret now old user) ≡ true
      → AllProper services.hash_secret
          (state_after st (finish_refresh services st jti secret now old user))
          calls
      → IsRefused (
          finish_refresh services
            (run services.hash_secret
              (state_after st (finish_refresh services st jti secret now old user))
              calls)
            jti'
            secret'
            now'
            old
            user')
  refreshed_once st jti secret jti' secret' now now' old user user' calls rooted fresh won proper =
      let owned : (try_mark_rotated st old.jti).1 ≡ true =
        sym (renewed_of_rotation st jti secret now old user) ∙ won in
      let first : state_after st (finish_refresh services st jti secret now old user)
          ≡ run services.hash_secret st (calls_of jti secret now old user) =
        state_of_rotation st jti secret now old user owned in
      let between = state_after st (finish_refresh services st jti secret now old user) in
      let rooted_then : IsRooted between.tokens =
        subst (λ (s : RefreshTokenStorage). IsRooted s.tokens) (sym first)
          (run_from-IsRooted services.hash_secret st (calls_of jti secret now old user)
            (calls_proper st jti secret now old user owned fresh) rooted) in
      let revoked_then : is_revoked between.tokens old.jti ≡ true =
        subst (λ (s : RefreshTokenStorage). is_revoked s.tokens old.jti ≡ true) (sym first)
          (calls-revoked st jti secret now old user owned fresh) in
      revoked-IsRefused _ jti' secret' now' old user'
        (run_from-IsRooted services.hash_secret between calls proper rooted_then)
        (proper-keeps between calls old.jti proper revoked_then)
