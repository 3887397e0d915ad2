-- ===== src/Auth/Refresh.antt =====
-- pulsar_relay/auth/refresh.py: `InMemoryRefreshTokenStorage` and `verify_and_consume`, with the
-- token model of pulsar_relay/auth/models.py.
pub mod Wire
pub mod Rotation
pub mod Roots
pub mod Descent
pub mod Family
pub mod Chain
pub mod Growth
mod Tests
use Prim.Native.Char.{code}
use Prim.Native.String
use Prim.Native.String.{◌++◌ as text_append}
use pulsar_relay.Prelude.{
  take-append-drop, drop-nil, last, last-last-append, length-last-le, drop-drop, drop-append,
  is_none, ℕ, zero, suc, ◌+◌, ◌-◌, ◌*◌, ◌/◌, ◌%◌, ◌≤◌, ◌<◌, min, max, String, eq_iff, ◌≡◌, refl,
  sym, ap, ◌∙◌, ◌≢◌, ◌↔◌, ◌⊎◌, inl, inr, Bool, true, false, not, ◌&&◌, ◌||◌, Option, none, some,
  List, [], ◌∷◌, ◌++◌, map, arith, ltb, leb, nat_beq, if◌then◌else◌, nat_beq_iff, Bool-cases,
  Option-cases, length, take, drop, length-append, length-drop, length-take-le, filter_by, Eq, ◌==◌,
  beq_self, nat_eq, string_eq, pair_beq, pair_beq_iff, pair_eq, texts_beq, texts_iff, All,
}
use pulsar_relay.Dict
use pulsar_relay.Dict.{contains, member, add}
use pulsar_relay.Dict.Multi.{members, file}

pub data RevokedReason : Type 0 where
  rotated logout replay admin expired : RevokedReason

pub record RefreshToken : Type 0 where
  pub jti : String
  pub user_id : String
  pub secret_hash : String
  pub parent_jti : Option String
  pub issued_at : ℕ
  pub expires_at : ℕ
  pub last_used_at : Option ℕ
  pub revoked : Bool
  pub revoked_reason : Option RevokedReason
  pub client_hint : Option String

pub record RefreshTokenStorage : Type 0 where
  pub tokens : List (String × RefreshToken)
  pub user_index : List (String × List String)

pub init : RefreshTokenStorage
init = record { tokens = []; user_index = [] }

-- f"{jti}.{secret}"
abbrev pub wire_of : String → String → String
wire_of jti secret = text_append jti (text_append "." secret)

-- The hash is sha256, a parameter.
unfoldable pub new_token :
    (String → String)
    → String
    → String
    → ℕ
    → String
    → ℕ
    → Option String
    → Option String
    → RefreshToken
new_token hash_secret jti secret now user_id ttl parent_jti client_hint = record {
  jti = jti;
  user_id = user_id;
  secret_hash = hash_secret secret;
  parent_jti = parent_jti;
  issued_at = now;
  expires_at = now + ttl;
  last_used_at = none;
  revoked = false;
  revoked_reason = none;
  client_hint = client_hint;
}

-- `jti` and `secret` are random; the wire token is for the client alone.
unfoldable pub create :
    (String → String)
    → RefreshTokenStorage
    → String
    → String
    → ℕ
    → String
    → ℕ
    → Option String
    → Option String
    → RefreshTokenStorage × RefreshToken × String
unfolding new_token
create hash_secret st jti secret now user_id ttl parent_jti client_hint =
    let token = new_token hash_secret jti secret now user_id ttl parent_jti client_hint in
    (
      record { tokens = Dict.put st.tokens jti token; user_index = file st.user_index user_id jti },
      token,
      wire_of jti secret,
    )

unfoldable pub get_by_jti : RefreshTokenStorage → String → Option RefreshToken
get_by_jti st jti = Dict.get st.tokens jti

-- What `mark_revoked` and the loop of `revoke_chain` do to a token object.
unfoldable pub revoke : RefreshToken → RevokedReason → RefreshToken
revoke token reason =
    if token.revoked then token else record token { revoked = true; revoked_reason = some reason }

unfoldable pub mark_revoked : RefreshTokenStorage → String → RevokedReason → RefreshTokenStorage
unfolding revoke
mark_revoked st jti reason = elim (Dict.get st.tokens jti) [
  | none ↦ st
  | some token ↦ record st { tokens = Dict.put st.tokens jti (revoke token reason) }
]

-- Under the rotation lock: does this caller own the transition?
unfoldable pub try_mark_rotated : RefreshTokenStorage → String → RefreshTokenStorage × Bool
unfolding revoke
try_mark_rotated st jti = elim (Dict.get st.tokens jti) [
  | none ↦ (st, false)
  | some token ↦
      if token.revoked
      then (st, false)
      else (record st { tokens = Dict.put st.tokens jti (revoke token rotated) }, true)
]

unfoldable pub mark_used : RefreshTokenStorage → ℕ → String → RefreshTokenStorage
mark_used st now jti = elim (Dict.get st.tokens jti) [
  | none ↦ st
  | some token ↦ record st {
    tokens = Dict.put st.tokens jti (record token { last_used_at = some now });
  }
]

-- The parent to which the walk upwards goes on.
unfoldable pub parent_of : List (String × RefreshToken) → String → Option String
parent_of tokens jti = elim (Dict.get tokens jti) [ none ↦ none | some token ↦ token.parent_jti ]

-- The walk to the root of the chain; `none` where the fuel runs out.
unfoldable pub find_root : ℕ → List (String × RefreshToken) → String → Option String
unfolding parent_of
find_root zero tokens jti = none
find_root (suc fuel) tokens jti = elim (parent_of tokens jti) [
  | none ↦ some jti
  | some parent ↦ find_root fuel tokens parent
]

-- A token with a parent, present and not empty, is filed as its child.
unfoldable pub add_child :
    List (String × List String) → String → Option String → List (String × List String)
add_child kids jti none = kids
add_child kids jti (some parent) =
    if parent == "" then kids else Dict.put kids parent (jti ∷ members kids parent)

-- The tokens of the user by their parents.
unfoldable pub children : List (String × RefreshToken) → List String → List (String × List String)
unfolding parent_of add_child
children tokens [] = []
children tokens (jti ∷ jtis) = add_child (children tokens jtis) jti (parent_of tokens jti)

-- A child that is new joins the chain and the frontier.
unfoldable pub visit_one : List String → List String → String → List String × List String
visit_one chain frontier jti =
    if member chain jti then (chain, frontier) else (jti ∷ chain, jti ∷ frontier)

unfoldable pub visit : List String → List String → List String → List String × List String
unfolding visit_one
visit chain frontier [] = (chain, frontier)
visit chain frontier (jti ∷ jtis) =
    let (chain', frontier') = visit_one chain frontier jti in visit chain' frontier' jtis

-- The walk downwards; `none` where the fuel runs out.
unfoldable pub descend :
    ℕ → List (String × List String) → List String → List String → Option (List String)
unfolding visit
descend fuel kids chain [] = some chain
descend zero kids chain (jti ∷ frontier) = none
descend (suc fuel) kids chain (jti ∷ frontier) =
    let (chain', frontier') = visit chain frontier (members kids jti) in
    descend fuel kids chain' frontier'

-- The chain of a token of a user, from its root. The walks have more fuel than there are tokens of
-- all users, and of this user.
unfoldable pub chain_of : RefreshTokenStorage → String → String → Option (List String)
unfolding find_root descend children
chain_of st user_id jti = elim (find_root (suc (length st.tokens)) st.tokens jti) [
  | none ↦ none
  | some root ↦
      let jtis = members st.user_index user_id in
      descend (suc (length jtis)) (children st.tokens jtis) (root ∷ []) (root ∷ [])
]

-- One round of the last loop: the tokens, and whether one was newly revoked.
unfoldable pub revoke_one :
    List (String × RefreshToken) → String → RevokedReason → List (String × RefreshToken) × Bool
unfolding revoke
revoke_one tokens jti reason = elim (Dict.get tokens jti) [
  | none ↦ (tokens, false)
  | some token ↦
      if token.revoked then (tokens, false) else (Dict.put tokens jti (revoke token reason), true)
]

unfoldable pub revoke_all :
    List (String × RefreshToken) → List String → RevokedReason → List (String × RefreshToken) × ℕ
unfolding revoke_one
revoke_all tokens [] reason = (tokens, 0)
revoke_all tokens (jti ∷ chain) reason =
    let (tokens', newly) = revoke_one tokens jti reason in
    let (tokens'', n) = revoke_all tokens' chain reason in (tokens'', if newly then n + 1 else n)

-- `none` where a walk does not end within the fuel.
unfoldable pub revoke_chain :
    RefreshTokenStorage → String → RevokedReason → Option (RefreshTokenStorage × ℕ)
unfolding chain_of revoke_all
revoke_chain st jti reason = elim (Dict.get st.tokens jti) [
  | none ↦ some (st, 0)
  | some seed ↦ elim (chain_of st seed.user_id jti) [
    | none ↦ none
    | some chain ↦
        let (tokens', n) = revoke_all st.tokens chain reason in
        some (record st { tokens = tokens' }, n)
  ]
]

-- `get` of the listed tokens, without the missing and, unless asked for, the revoked ones.
unfoldable pub listed : List (String × RefreshToken) → Bool → List String → List RefreshToken
listed tokens include_revoked [] = []
listed tokens include_revoked (jti ∷ jtis) =
    let rest = listed tokens include_revoked jtis in
    elim (Dict.get tokens jti) [
      | none ↦ rest
      | some token ↦ if not include_revoked && token.revoked then rest else token ∷ rest
    ]

unfoldable pub list_for_user : RefreshTokenStorage → String → Bool → List RefreshToken
unfolding listed
list_for_user st user_id include_revoked =
    listed st.tokens include_revoked (members st.user_index user_id)
