-- ===== src/Client/Auth/Rotation.antt =====
-- The store keeps the refresh token that the relay handed out last.
use pulsar_relay.Prelude.{
  ℕ, String, ◌≡◌, ◌≢◌, refl, none, some, arith, eq_iff, if◌then◌else◌, nat_eq, string_eq, ◌==◌,
  Option-cases, inl, inr, ap, ◌∙◌,
}
use pulsar_relay.Client.Auth.{
  Credentials, load, Answer, network_error, http_status, success, no_refresh_token, auth_error,
  save_rotated, after_refresh, refresh_authenticate,
}

-- The token that an answer leaves in the store.
abbrev pub token_after : String → Answer → String
token_after old network_error = old
token_after old (http_status status) = old
token_after old (success body) = elim body.refresh_token [
  | none ↦ old
  | some new ↦ if new == "" then old else new
]

token-after_refresh :
    (creds : Credentials) (relay_url : String) (now : ℕ) (answer : Answer)
    → (after_refresh creds relay_url now answer).0.refresh_token
      ≡ token_after creds.refresh_token answer
unfolding after_refresh save_rotated
token-after_refresh creds relay_url now network_error = refl
token-after_refresh creds relay_url now (http_status status) = ground arith
token-after_refresh creds relay_url now (success body) = ground arith

token_after_some : (old : String) (answer : Answer) → old ≢ "" → token_after old answer ≢ ""
token_after_some old network_error h = h
token_after_some old (http_status status) h = h
token_after_some old (success body) h = elim (Option-cases body.refresh_token) [
  | inl missing ↦ rw missing h
  | inr (new, sent) ↦ rw sent (ground (arith, eq_iff new ""))
]

module _ {ℓ} {S : Type ℓ} (clock : S → ℕ) (post_refresh : String → S → S × Answer) where
  abbrev pub rotate : String → Credentials × S → Credentials × S
  rotate relay_url st = (refresh_authenticate clock post_refresh relay_url st).0

  load-some : (creds : Credentials) → creds.refresh_token ≢ "" → load creds ≡ some creds
  unfolding load
  load-some creds h = ground (arith, eq_iff creds.refresh_token "")

  load-none : (creds : Credentials) → creds.refresh_token ≡ "" → load creds ≡ none
  unfolding load
  load-none creds h = ground (arith, eq_iff creds.refresh_token "")

  authenticated :
      (relay_url : String) (creds : Credentials) (s : S)
      → creds.refresh_token ≢ ""
      → refresh_authenticate clock post_refresh relay_url (creds, s) ≡ (
          let answered = post_refresh creds.refresh_token s in
          let after = after_refresh creds relay_url (clock answered.0) answered.1 in
          ((after.0, answered.0), after.1))
  unfolding refresh_authenticate
  authenticated relay_url creds s h = rw (load-some creds h, refresh_authenticate) refl

  rotate_lem :
      (relay_url : String) (creds : Credentials) (s : S)
      → creds.refresh_token ≢ ""
      → rotate relay_url (creds, s) ≡ (
        (after_refresh creds relay_url
            (clock (post_refresh creds.refresh_token s).0)
            (post_refresh creds.refresh_token s).1).0,
        (post_refresh creds.refresh_token s).0,
      )
  rotate_lem relay_url creds s h = ap (λ r. r.0) (authenticated relay_url creds s h)

  unauthenticated :
      (relay_url : String) (creds : Credentials) (s : S)
      → creds.refresh_token ≡ ""
      → refresh_authenticate clock post_refresh relay_url (creds, s)
        ≡ ((creds, s), auth_error no_refresh_token)
  unfolding refresh_authenticate
  unauthenticated relay_url creds s h = rw (load-none creds h, refresh_authenticate) refl

  -- With a token in the store, an authentication sends exactly that token, and leaves in the
  -- store the token of the answer where there is one and the old token otherwise (after a network
  -- error, a rejection or an answer without a token). So the next authentication sends the token
  -- handed out last, over the environment as the first one left it. Without a token nothing is
  -- sent, and the error says so.
  pub authenticate_sends_latest :
      (relay_url : String) (creds : Credentials) (s : S)
      → (creds.refresh_token ≡ ""
          → refresh_authenticate clock post_refresh relay_url (creds, s)
            ≡ ((creds, s), auth_error no_refresh_token))
        × (creds.refresh_token ≢ ""
            → ((rotate relay_url (creds, s)).1 ≡ (post_refresh creds.refresh_token s).0)
              × ((rotate relay_url (creds, s)).0.refresh_token
                  ≡ token_after creds.refresh_token (post_refresh creds.refresh_token s).1)
              × ((rotate relay_url (rotate relay_url (creds, s))).1
                  ≡ (post_refresh
                      (token_after creds.refresh_token (post_refresh creds.refresh_token s).1)
                      (post_refresh creds.refresh_token s).0).0))
  authenticate_sends_latest relay_url creds s = (
    λ h. unauthenticated relay_url creds s h,
    λ h.
        let answer = (post_refresh creds.refresh_token s).1 in
        let s' = (post_refresh creds.refresh_token s).0 in
        let creds' = (after_refresh creds relay_url (clock s') answer).0 in
        let kept : creds'.refresh_token ≡ token_after creds.refresh_token answer =
          token-after_refresh creds relay_url (clock s') answer in
        (
          rw (rotate_lem relay_url creds s h) refl,
          rw (rotate_lem relay_url creds s h) kept,
          rw (rotate_lem relay_url creds s h) (
              ap (λ st. st.1)
                (rotate_lem relay_url creds' s' (rw kept (token_after_some _ answer h)))
              ∙ ap (λ t. (post_refresh t s').0) kept),
        ),
  )
