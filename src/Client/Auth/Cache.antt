-- ===== src/Client/Auth/Cache.antt =====
-- How long an access token is served from the cache.
use pulsar_relay.Prelude.{
  ℕ, ◌+◌, String, ◌≡◌, refl, inl, inr, Bool-cases, Option-cases, Option, none, some, if◌then◌else◌,
}
use pulsar_relay.Clock.{seconds}
use pulsar_relay.Client.Auth.{
  AuthManager, expires_late_enough, valid_token, invalidate, remember_token, get_token,
}

valid_token_lem :
    (token : String) (expiry now : ℕ)
    → valid_token (record { token = some token; token_expiry = some expiry }) now
      ≡ (if expires_late_enough now expiry then some token else none)
unfolding valid_token
valid_token_lem token expiry now = refl

module _ {ℓ} {S : Type ℓ} (clock : S → ℕ) (authenticate : S → S × Option (String × ℕ)) where
  abbrev pub token_of : S × Option (String × ℕ) → S × Option String
  token_of (s, none) = (s, none)
  token_of (s, some (token, expires_in)) = (s, some token)

  remembered_token :
      (m : AuthManager) (answer : S × Option (String × ℕ))
      → (remember_token clock authenticate m answer).1 ≡ token_of answer
  unfolding remember_token
  remembered_token m (s, none) = refl
  remembered_token m (s, some (token, expires_in)) = refl

  served :
      (token : String) (expiry : ℕ) (s : S)
      → (get_token clock authenticate
          (record { token = some token; token_expiry = some expiry })
          s).1
        ≡ (if expires_late_enough (clock s) expiry
            then (s, some token)
            else token_of (authenticate s))
  unfolding get_token
  served token expiry s = elim (Bool-cases (expires_late_enough (clock s) expiry)) [
    | inl late ↦ rw (valid_token_lem token expiry (clock s), late, get_token) refl
    | inr soon ↦
        rw (valid_token_lem token expiry (clock s), soon, get_token)
          (remembered_token _ (authenticate s))
  ]

  stored :
      (m : AuthManager) (s s1 : S) (token : String) (expires_in : ℕ)
      → valid_token m (clock s) ≡ none
      → authenticate s ≡ (s1, some (token, expires_in))
      → (get_token clock authenticate m s).0
        ≡ record { token = some token; token_expiry = some (clock s1 + seconds expires_in) }
  unfolding get_token remember_token
  stored m s s1 token expires_in cold answered = rw (cold, answered, get_token) refl

  -- A token that the authenticator hands out is served from the cache, with no call of the
  -- authenticator, exactly while more than 300 seconds are left to its expiry; from then on, and
  -- at once after `invalidate`, the authenticator is asked and its token returned.
  pub get_token_serves :
      (m : AuthManager) (s s1 : S) (token : String) (expires_in : ℕ)
      → valid_token m (clock s) ≡ none
      → authenticate s ≡ (s1, some (token, expires_in))
      → ((s2 : S)
          → (get_token clock authenticate (get_token clock authenticate m s).0 s2).1 ≡ (
              if expires_late_enough (clock s2) (clock s1 + seconds expires_in)
              then (s2, some token)
              else token_of (authenticate s2)))
        × ((s2 : S)
            → (get_token clock authenticate (invalidate (get_token clock authenticate m s).0) s2).1
              ≡ token_of (authenticate s2))
  unfolding get_token valid_token invalidate
  get_token_serves m s s1 token expires_in cold answered = (
    λ s2.
        rw (stored m s s1 token expires_in cold answered)
          (served token (clock s1 + seconds expires_in) s2),
    λ s2. remembered_token _ (authenticate s2),
  )

  module _ {κ} (Inv : S → Type κ) (asks : (s : S) → Inv s → Inv (authenticate s).0) where
    remember_token-Inv :
        (m : AuthManager) (answer : S × Option (String × ℕ))
        → Inv answer.0
        → Inv (remember_token clock authenticate m answer).1.0
    unfolding remember_token
    remember_token-Inv m (s, none) inv = inv
    remember_token-Inv m (s, some (token, expires_in)) inv = inv

    pub get_token-Inv :
        (m : AuthManager) (s : S) → Inv s → Inv (get_token clock authenticate m s).1.0
    unfolding get_token
    get_token-Inv m s inv = elim (Option-cases (valid_token m (clock s))) [
      | inl cold ↦ rw (cold, get_token) (remember_token-Inv m (authenticate s) (asks s inv))
      | inr (token, warm) ↦ rw (warm, get_token) inv
    ]

  pub get_token_warm :
      (m : AuthManager) (s : S) (token : String)
      → valid_token m (clock s) ≡ some token
      → get_token clock authenticate m s ≡ (m, (s, some token))
  unfolding get_token
  get_token_warm m s token warm = rw (warm, get_token) refl
