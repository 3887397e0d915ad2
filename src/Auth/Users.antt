-- ===== src/Auth/Users.antt =====
-- pulsar_relay/auth/storage.py: `InMemoryUserStorage`, with the user models of
-- pulsar_relay/auth/models.py.
use pulsar_relay.Prelude.{
  ℕ, String, Bool, true, false, not, ◌&&◌, ◌||◌, Option, none, some, List, [], ◌∷◌, ◌++◌, map,
  if◌then◌else◌, length, filter_by, ◌==◌, nat_eq, string_eq, pair_eq,
}
use pulsar_relay.Dict
use pulsar_relay.Dict.{contains, member, add, discard}
use pulsar_relay.Auth.Topics.{Permission}

pub record FederatedIdentity : Type 0 where
  pub issuer : String
  pub sub : String
  pub provider_name : String
  pub email : Option String
  pub linked_at : ℕ

pub record User : Type 0 where
  pub user_id : String
  pub username : String
  pub email : Option String
  pub hashed_password : Option String
  pub is_active : Bool
  pub created_at : ℕ
  pub permissions : List Permission
  pub owned_topics : List String
  pub federated_identities : List FederatedIdentity

pub record UserCreate : Type 0 where
  pub username : String
  pub email : Option String
  pub password : String
  pub permissions : List Permission

pub record UserStorage : Type 0 where
  pub users : List (String × User)
  -- username -> user_id
  pub username_index : List (String × String)
  -- (issuer, sub) -> user_id
  pub federated_index : List ((String × String) × String)

pub init : UserStorage
init = record { users = []; username_index = []; federated_index = [] }

-- What a method returns or raises.
pub data UserError : Type 0 where
  username_exists not_found linked_to_another : UserError

pub data Result {ℓ} (A : Type ℓ) : Type ℓ where
  ok : A → Result A
  raise : UserError → Result A

-- The identifier is the uuid's, and the hash is that of `hash_password`.
unfoldable pub create_user :
    (String → String) → UserStorage → String → ℕ → UserCreate → UserStorage × Result User
create_user hash_password st user_id now user_data =
    let user : User = record {
      user_id = user_id;
      username = user_data.username;
      email = user_data.email;
      hashed_password = some (hash_password user_data.password);
      is_active = true;
      created_at = now;
      permissions = user_data.permissions;
      owned_topics = [];
      federated_identities = [];
    } in
    if contains st.username_index user_data.username then (st, raise username_exists) else (
      record st {
        users = Dict.put st.users user_id user;
        username_index = Dict.put st.username_index user_data.username user_id;
      },
      ok user,
    )

unfoldable pub get_user_by_id : UserStorage → String → Option User
get_user_by_id st user_id = Dict.get st.users user_id

-- An empty identifier counts as none.
unfoldable pub get_user_by_username : UserStorage → String → Option User
get_user_by_username st username = elim (Dict.get st.username_index username) [
  | none ↦ none
  | some user_id ↦ if user_id == "" then none else Dict.get st.users user_id
]

unfoldable pub update_user : UserStorage → User → UserStorage × Result User
update_user st user =
    if contains st.users user.user_id
    then (record st { users = Dict.put st.users user.user_id user }, ok user)
    else (st, raise not_found)

pub unlink_all :
    List ((String × String) × String) → List FederatedIdentity → List ((String × String) × String)
unlink_all index [] = index
unlink_all index (fi ∷ identities) = unlink_all (Dict.remove index (fi.issuer, fi.sub)) identities

unfoldable pub delete_user : UserStorage → String → UserStorage × Bool
delete_user st user_id = elim (Dict.get st.users user_id) [
  | none ↦ (st, false)
  | some user ↦ (
    record {
      users = Dict.remove st.users user_id;
      username_index = Dict.remove st.username_index user.username;
      federated_index = unlink_all st.federated_index user.federated_identities;
    },
    true,
  )
]

pub get_user_by_federated_identity : UserStorage → String → String → Option User
get_user_by_federated_identity st issuer sub = elim (Dict.get st.federated_index (issuer, sub)) [
  | none ↦ none
  | some user_id ↦ Dict.get st.users user_id
]

pub link_all :
    List ((String × String) × String)
    → List FederatedIdentity
    → String
    → List ((String × String) × String)
link_all index [] user_id = index
link_all index (fi ∷ identities) user_id =
    link_all (Dict.put index (fi.issuer, fi.sub) user_id) identities user_id

pub put_user : UserStorage → User → UserStorage × Result User
put_user st user =
    if contains st.username_index user.username then (st, raise username_exists) else (
      record {
        users = Dict.put st.users user.user_id user;
        username_index = Dict.put st.username_index user.username user.user_id;
        federated_index = link_all st.federated_index user.federated_identities user.user_id;
      },
      ok user,
    )

-- any(fi.issuer == identity.issuer and fi.sub == identity.sub for fi in identities)
pub is_linked : List FederatedIdentity → FederatedIdentity → Bool
is_linked [] identity = false
is_linked (fi ∷ identities) identity =
    (fi.issuer == identity.issuer && fi.sub == identity.sub) || is_linked identities identity

linked_elsewhere : Option String → String → Bool
linked_elsewhere none user_id = false
linked_elsewhere (some owner) user_id = not (owner == user_id)

with_identity : User → FederatedIdentity → User
with_identity user identity =
    if is_linked user.federated_identities identity
    then user
    else record user { federated_identities = user.federated_identities ++ identity ∷ [] }

-- The stored user object itself gets the identity.
pub add_federated_identity : UserStorage → String → FederatedIdentity → UserStorage × Result User
unfolding linked_elsewhere with_identity is_linked
add_federated_identity st user_id identity = elim (Dict.get st.users user_id) [
  | none ↦ (st, raise not_found)
  | some user ↦
      if linked_elsewhere (Dict.get st.federated_index (identity.issuer, identity.sub)) user_id
      then (st, raise linked_to_another)
      else (
        record st {
          users = Dict.put st.users user_id (with_identity user identity);
          federated_index = Dict.put st.federated_index (identity.issuer, identity.sub) user_id;
        },
        ok (with_identity user identity),
      )
]

pub list_users : UserStorage → List User
list_users st = map (λ entry. entry.1) st.users

-- `get_stats`: all users, and the active ones.
pub get_stats : UserStorage → ℕ × ℕ
get_stats st = (length st.users, length (filter_by (λ entry. (entry.1).is_active) st.users))
