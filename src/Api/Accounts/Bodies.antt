-- ===== src/Api/Accounts/Bodies.antt =====
-- What the bodies of the endpoints over accounts do to the stored users.
use pulsar_relay.Prelude.{
  ℕ, String, eq_iff, ◌≡◌, ◌⊎◌, inl, inr, true, Option, none, some, List, arith, Bool-cases,
  Option-cases, ◌==◌, nat_eq, string_eq, pair_eq,
}
use pulsar_relay.Dict
use pulsar_relay.Dict.{contains}
use pulsar_relay.Dict.Laws.{get-put, get-remove}
use pulsar_relay.Auth.Users
use pulsar_relay.Auth.Users.{User, UserCreate, UserStorage, Result, ok, raise}
use pulsar_relay.Auth.Access.Current.{IsKeyed}
use pulsar_relay.Api.Accounts.{
  register, get_current_user_info, list_users, update_user, get_user_stats, delete_user, UserUpdate,
  AccountReply, Done, Request, registers, updates, deletes, lists, counts, reads_me, updated,
  after_create, after_update, after_delete, update_found, delete_found, body,
}

-- The uuid of a new user is no stored user's identifier.
abbrev pub Fresh : UserStorage → Request → Type 0
Fresh users (registers user_id user_data) = Dict.get users.users user_id ≡ none
Fresh users _ = Unit

-- What a body leaves: users under their own identifiers, and no other change to a stored user than
-- to the one that it names.
abbrev pub Named : Option String → String → Type 0
Named none user_id = ⊥
Named (some stale) user_id = stale ≡ user_id

pub record Tracks (users : UserStorage) (done : Done) : Type 0 where
  pub keyed : IsKeyed done.0
  pub kept :
      (user_id : String) (user : User)
      → Dict.get users.users user_id ≡ some user
      → Named done.1 user_id ⊎ (Dict.get done.0.users user_id ≡ some user)

unchanged-Tracks :
    (users : UserStorage) (reply : AccountReply) → IsKeyed users → Tracks users (users, none, reply)
unchanged-Tracks users reply k = record { keyed = k; kept = λ user_id user h. inr h }

module _ (hash_password : String → String) (now : ℕ) (users : UserStorage) where
  put-IsKeyed :
      (user : User) (index : List (String × String)) (federated : List ((String × String) × String))
      → IsKeyed users
      → IsKeyed (record {
        users = Dict.put users.users user.user_id user;
        username_index = index;
        federated_index = federated;
      })
  put-IsKeyed user index federated k other stored h = elim (Bool-cases (user.user_id == other)) [
    | inl same ↦
        ground (arith, eq_iff user.user_id other, get-put users.users user.user_id other user)
    | inr differs ↦ k other stored (ground (arith, get-put users.users user.user_id other user))
  ]

  stored-Tracks :
      (user_id : String) (user : User) (reply : AccountReply)
      → user.user_id ≡ user_id
      → IsKeyed users
      → Tracks users
          (record users { users = Dict.put users.users user.user_id user }, some user_id, reply)
  stored-Tracks user_id user reply own k = record {
    keyed = put-IsKeyed user users.username_index users.federated_index k;
    kept = λ other old h. elim (Bool-cases (user.user_id == other)) [
      | inl same ↦ inl (ground (arith, eq_iff user.user_id other))
      | inr differs ↦ inr (ground (arith, get-put users.users user.user_id other user))
    ];
  }

  added-Tracks :
      (user : User) (index : List (String × String)) (federated : List ((String × String) × String))
      (reply : AccountReply)
      → IsKeyed users
      → Dict.get users.users user.user_id ≡ none
      → Tracks users (
        record {
          users = Dict.put users.users user.user_id user;
          username_index = index;
          federated_index = federated;
        },
        none,
        reply,
      )
  added-Tracks user index federated reply k new = record {
    keyed = put-IsKeyed user index federated k;
    kept = λ other old h.
        inr
          (ground (arith, eq_iff user.user_id other, get-put users.users user.user_id other user));
  }

  contains_own :
      (user_id : String) (user : User)
      → user.user_id ≡ user_id
      → Dict.get users.users user_id ≡ some user
      → contains users.users user.user_id ≡ true
  contains_own user_id user own stored = rw own (ground arith)

  create-Tracks :
      (user_id : String) (user_data : UserCreate)
      → IsKeyed users
      → Dict.get users.users user_id ≡ none
      → Tracks users (after_create (Users.create_user hash_password users user_id now user_data))
  unfolding after_create Users.create_user
  create-Tracks user_id user_data k new =
      elim (Bool-cases (contains users.username_index user_data.username)) [
        | inl taken ↦ rw taken (unchanged-Tracks users _ k)
        | inr free ↦ rw free (added-Tracks _ _ users.federated_index _ k new)
      ]

  update-Tracks :
      (user_id : String) (user_update : UserUpdate)
      → IsKeyed users
      → Tracks users (
          update_found hash_password users user_id user_update (Users.get_user_by_id users user_id))
  unfolding update_found after_update updated Users.get_user_by_id Users.update_user
  update-Tracks user_id user_update k = elim (Option-cases (Dict.get users.users user_id)) [
    | inl absent ↦ rw absent (unchanged-Tracks users _ k)
    | inr (user, stored) ↦
        rw stored
          let own = k user_id user stored in
            rw (contains_own user_id user own stored)
              (stored-Tracks user_id (updated hash_password user_update user) _ own k)
  ]

  delete-Tracks :
      (user_id : String)
      → IsKeyed users
      → Tracks users (delete_found users user_id (Users.get_user_by_id users user_id))
  unfolding delete_found after_delete Users.get_user_by_id Users.delete_user
  delete-Tracks user_id k = elim (Option-cases (Dict.get users.users user_id)) [
    | inl absent ↦ rw absent (unchanged-Tracks users _ k)
    | inr (user, stored) ↦ rw stored record {
      keyed = λ other old h. k other old (ground (arith, get-remove users.users user_id other));
      kept = λ other old h. elim (Bool-cases (user_id == other)) [
        | inl same ↦ inl (ground (arith, eq_iff user_id other))
        | inr differs ↦ inr (ground (arith, get-remove users.users user_id other))
      ];
    }
  ]

  pub body-Tracks :
      (request : Request) (current_user : User)
      → IsKeyed users
      → Fresh users request
      → Tracks users (body hash_password now users request current_user)
  unfolding body register get_current_user_info list_users update_user get_user_stats delete_user
  body-Tracks (registers user_id user_data) current_user k f = create-Tracks user_id user_data k f
  body-Tracks (updates user_id user_update) current_user k f = update-Tracks user_id user_update k
  body-Tracks (deletes user_id) current_user k f =
      elim (Bool-cases (user_id == current_user.user_id)) [
        | inl own ↦ rw own (unchanged-Tracks users _ k)
        | inr other ↦ rw other (delete-Tracks user_id k)
      ]
  body-Tracks lists current_user k f = unchanged-Tracks users _ k
  body-Tracks counts current_user k f = unchanged-Tracks users _ k
  body-Tracks reads_me current_user k f = unchanged-Tracks users _ k
