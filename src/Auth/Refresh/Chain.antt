-- ===== src/Auth/Refresh/Chain.antt =====
-- The revocation of a chain: it ends, and revokes the family of the token and no other token.
use pulsar_relay.Prelude.{
  ℕ, suc, String, eq_iff, ◌≡◌, refl, sym, ◌∙◌, inl, inr, Bool, true, false, ◌||◌, Option, none,
  some, List, [], ◌∷◌, arith, Option-cases, length, ◌==◌, nat_eq, string_eq, pair_eq,
}
use pulsar_relay.Dict
use pulsar_relay.Dict.{member}
use pulsar_relay.Dict.Multi.{members}
use pulsar_relay.Dict.Laws.{get-put}
use pulsar_relay.Auth.Refresh.{
  RevokedReason, RefreshToken, RefreshTokenStorage, find_root, children, descend, chain_of, revoke,
  revoke_one, revoke_all, revoke_chain,
}
use pulsar_relay.Auth.Refresh.Roots.{IsRooted}
use pulsar_relay.Auth.Refresh.Descent.{descend-total}
use pulsar_relay.Auth.Refresh.Family.{Closed, descend-Closed, descend-within}

abbrev pub revoked_if : Bool → RevokedReason → Option RefreshToken → Option RefreshToken
revoked_if false reason token = token
revoked_if true reason none = none
revoked_if true reason (some token) = some (revoke token reason)

get-revoke_one :
    (tokens : List (String × RefreshToken)) (k : String) (reason : RevokedReason) (j : String)
    → Dict.get (revoke_one tokens k reason).0 j ≡ revoked_if (k == j) reason (Dict.get tokens j)
unfolding revoke_one revoke
get-revoke_one tokens k reason j = elim (Option-cases (Dict.get tokens k)) [
  | inl missing ↦ ground (arith, eq_iff k j)
  | inr (token, found) ↦ ground (arith, get-put tokens k j (revoke token reason), eq_iff k j)
]

revoked_twice :
    (a b : Bool) (reason : RevokedReason) (token : Option RefreshToken)
    → revoked_if a reason (revoked_if b reason token) ≡ revoked_if (b || a) reason token
unfolding revoke
revoked_twice a b reason token = ground arith

get-revoke_all :
    (tokens : List (String × RefreshToken)) (chain : List String) (reason : RevokedReason)
    (j : String)
    → Dict.get (revoke_all tokens chain reason).0 j
      ≡ revoked_if (member chain j) reason (Dict.get tokens j)
unfolding revoke_all member
get-revoke_all tokens [] reason j = refl
get-revoke_all tokens (k ∷ chain) reason j =
    get-revoke_all (revoke_one tokens k reason).0 chain reason j
    ∙ (rw (get-revoke_one tokens k reason j) refl
        ∙ revoked_twice (member chain j) (k == j) reason (Dict.get tokens j))

-- The children among the tokens of the user.
abbrev pub kids_of : RefreshTokenStorage → String → List (String × List String)
kids_of st user_id = children st.tokens (members st.user_index user_id)

-- The walks from a token of a user: the root, and the chain from it.
walks :
    (st : RefreshTokenStorage) (user_id jti : String)
    → IsRooted st.tokens
    → (root : String) × (chain : List String) × (find_root (suc (length st.tokens)) st.tokens jti
        ≡ some root)
      × (descend
            (suc (length (members st.user_index user_id)))
            (kids_of st user_id)
            (root ∷ [])
            (root ∷ [])
          ≡ some chain)
walks st user_id jti rooted =
    elim (Option-cases (find_root (suc (length st.tokens)) st.tokens jti)) [
      | inl endless ↦ ground (arith, rooted.ends jti)
      | inr (root, found) ↦
          elim (Option-cases (
            descend (suc (length (members st.user_index user_id))) (kids_of st user_id) (root ∷ [])
              (root ∷ []))) [
                | inl endless ↦
                    ground (arith, descend-total st.tokens (members st.user_index user_id) root)
                | inr (chain, walked) ↦ (root, chain, found, walked)
              ]
    ]

revoke_chain_of_walks :
    (st : RefreshTokenStorage) (jti : String) (reason : RevokedReason) (seed : RefreshToken)
    (root : String) (chain : List String)
    → Dict.get st.tokens jti ≡ some seed
    → find_root (suc (length st.tokens)) st.tokens jti ≡ some root
    → descend
        (suc (length (members st.user_index seed.user_id)))
        (kids_of st seed.user_id)
        (root ∷ [])
        (root ∷ [])
      ≡ some chain
    → revoke_chain st jti reason
      ≡ some (
        record st { tokens = (revoke_all st.tokens chain reason).0 },
        (revoke_all st.tokens chain reason).1,
      )
unfolding revoke_chain chain_of
revoke_chain_of_walks st jti reason seed root chain found rooted walked =
    rw (found, revoke_chain, rooted, chain_of, walked) refl

-- In a storage whose tokens are rooted, the revocation of a stored token's chain ends. It revokes
-- exactly the tokens of a list: the root that the walk upwards finds, with every token its children
-- among the user's tokens. A token that was revoked before keeps its reason.
pub revoke_chain_family :
    (st : RefreshTokenStorage) (jti : String) (reason : RevokedReason) (seed : RefreshToken)
    → IsRooted st.tokens
    → Dict.get st.tokens jti ≡ some seed
    → (root : String) × (chain : List String) × (st' : RefreshTokenStorage) × (n : ℕ) × (find_root
          (suc (length st.tokens))
          st.tokens
          jti
        ≡ some root)
      × (revoke_chain st jti reason ≡ some (st', n))
      × (member chain root ≡ true)
      × Closed (kids_of st seed.user_id) chain chain
      × ((j : String)
          → Dict.get st'.tokens j ≡ revoked_if (member chain j) reason (Dict.get st.tokens j))
revoke_chain_family st jti reason seed rooted found =
    let (root, chain, up, down) = walks st seed.user_id jti rooted in
    let (here, closed) = descend-Closed _ (kids_of st seed.user_id) root chain down in
    (
      root,
      chain,
      record st { tokens = (revoke_all st.tokens chain reason).0 },
      (revoke_all st.tokens chain reason).1,
      up,
      revoke_chain_of_walks st jti reason seed root chain found up down,
      here,
      closed,
      get-revoke_all st.tokens chain reason,
    )

-- The revocation of any identifier's chain ends.
pub revoke_chain_ends :
    (st : RefreshTokenStorage) (jti : String) (reason : RevokedReason)
    → IsRooted st.tokens
    → (left : RefreshTokenStorage × ℕ) × (revoke_chain st jti reason ≡ some left)
unfolding revoke_chain
revoke_chain_ends st jti reason rooted = elim (Option-cases (Dict.get st.tokens jti)) [
  | inl missing ↦ ((st, 0), rw (missing, revoke_chain) refl)
  | inr (seed, found) ↦
      let (root, chain, st', n, up, ended, here, closed, gets) =
        revoke_chain_family st jti reason seed rooted found in
      ((st', n), ended)
]

some_injective : {a b : String} → some a ≡ some b → a ≡ b
some_injective e = ground arith

not_member :
    (chain s : List String) (j : String)
    → ((x : String) → member chain x ≡ true → member s x ≡ true)
    → member s j ≡ false
    → member chain j ≡ false
not_member chain s j h outside = ground (arith, h j)

tokens_of_some :
    (st : RefreshTokenStorage) (r : RefreshTokenStorage × ℕ) (st' : RefreshTokenStorage) (n : ℕ)
    → some r ≡ some (st', n)
    → st'.tokens ≡ (r.0).tokens
tokens_of_some st r st' n e = ground arith

-- The revocation of a token's chain leaves every token outside of the family as it is: whatever list
-- `s` holds the root and, with a token, its children among the user's tokens, a token outside of `s`
-- is not changed.
pub revoke_chain_spares :
    (st : RefreshTokenStorage) (jti : String) (reason : RevokedReason) (seed : RefreshToken)
    (root : String) (s : List String) (st' : RefreshTokenStorage) (n : ℕ) (j : String)
    → IsRooted st.tokens
    → Dict.get st.tokens jti ≡ some seed
    → find_root (suc (length st.tokens)) st.tokens jti ≡ some root
    → revoke_chain st jti reason ≡ some (st', n)
    → member s root ≡ true
    → Closed (kids_of st seed.user_id) s s
    → member s j ≡ false
    → Dict.get st'.tokens j ≡ Dict.get st.tokens j
revoke_chain_spares st jti reason seed root s st' n j rooted found up e here closed outside =
    let (root', chain, up', down) = walks st seed.user_id jti rooted in
    let same : root' ≡ root = some_injective (sym up' ∙ up) in
    let within : (x : String) → member chain x ≡ true → member s x ≡ true =
      descend-within _ (kids_of st seed.user_id) root' chain s down (rw same here) closed in
    rw
      (tokens_of_some st _ st' n
        (sym (revoke_chain_of_walks st jti reason seed root' chain found up' down) ∙ e))
      (get-revoke_all st.tokens chain reason j ∙ rw (not_member chain s j within outside) refl)
