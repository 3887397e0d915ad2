-- ===== src/Api/Accounts.antt =====
-- pulsar_relay/api/auth.py: the endpoints over user accounts (`register`, `get_current_user_info`,
-- `list_users`, `update_user`, `get_user_stats`, `delete_user`).
pub mod Bodies
pub mod Uncached
mod Tests
use pulsar_relay.Prelude.{
  ℕ, String, Bool, true, false, Option, none, some, List, map, if◌then◌else◌, ◌==◌, string_eq,
}
use pulsar_relay.Core.Cache
use pulsar_relay.Core.Cache.{TtlCache}
use pulsar_relay.Auth.Topics.{Permission, admin}
use pulsar_relay.Auth.Users
use pulsar_relay.Auth.Users.{User, UserCreate, UserStorage, Result, ok, raise}
use pulsar_relay.Auth.Jwt.{TokenPayload}
use pulsar_relay.Auth.Access.{
  Access, AccessError, Admission, granted, denied, user_key, get_current_user, require_permission,
}

-- A field that the request leaves out is `none`.
pub record UserUpdate : Type 0 where
  pub email : Option (Option String)
  pub password : Option String
  pub permissions : Option (List Permission)
  pub is_active : Option Bool

pub record UserPublic : Type 0 where
  pub user_id : String
  pub username : String
  pub email : Option String
  pub is_active : Bool
  pub created_at : ℕ
  pub permissions : List Permission
  pub owned_topics : List String

unfoldable pub user_public : User → UserPublic
user_public user = record {
  user_id = user.user_id;
  username = user.username;
  email = user.email;
  is_active = user.is_active;
  created_at = user.created_at;
  permissions = user.permissions;
  owned_topics = user.owned_topics;
}

pub data AccountReply : Type 0 where
  -- the dependencies' answer
  refused : AccessError → AccountReply
  public_user : UserPublic → AccountReply
  public_users : List UserPublic → AccountReply
  stats : ℕ × ℕ → AccountReply
  bad_request not_found no_content internal_server_error : AccountReply

-- What an endpoint does once the bearer is let in: the storage, the user to drop from the cache,
-- and the answer.
abbrev pub Done : Type 0
Done = UserStorage × Option String × AccountReply

-- f(x) where the request gives the field, and what was there where it does not.
abbrev pub given {ℓ} : {A : Type ℓ} → Option A → A → A
given none old = old
given (some new) old = new

abbrev pub rehashed : (String → String) → Option String → Option String → Option String
rehashed hash_password none old = old
rehashed hash_password (some password) old = some (hash_password password)

unfoldable pub updated : (String → String) → UserUpdate → User → User
updated hash_password user_update user = record user {
  email = given user_update.email user.email;
  hashed_password = rehashed hash_password user_update.password user.hashed_password;
  permissions = given user_update.permissions user.permissions;
  is_active = given user_update.is_active user.is_active;
}

unfoldable pub after_create : UserStorage × Result User → Done
after_create (users, raise e) = (users, none, bad_request)
after_create (users, ok user) = (users, none, public_user (user_public user))

unfoldable pub after_update : String → UserStorage × Result User → Done
after_update user_id (users, raise e) = (users, none, bad_request)
after_update user_id (users, ok user) = (users, some user_id, public_user (user_public user))

unfoldable pub after_delete : String → UserStorage × Bool → Done
after_delete user_id (users, false) = (users, none, internal_server_error)
after_delete user_id (users, true) = (users, some user_id, no_content)

unfoldable pub update_found :
    (String → String) → UserStorage → String → UserUpdate → Option User → Done
unfolding after_update updated
update_found hash_password users user_id user_update none = (users, none, not_found)
update_found hash_password users user_id user_update (some user) =
    after_update user_id (Users.update_user users (updated hash_password user_update user))

unfoldable pub delete_found : UserStorage → String → Option User → Done
unfolding after_delete
delete_found users user_id none = (users, none, not_found)
delete_found users user_id (some user) = after_delete user_id (Users.delete_user users user_id)

-- The bodies of the endpoints; the identifier of a new user is the uuid's.
unfoldable pub register : (String → String) → ℕ → UserStorage → String → UserCreate → Done
unfolding after_create
register hash_password now users user_id user_data =
    after_create (Users.create_user hash_password users user_id now user_data)

unfoldable pub get_current_user_info : UserStorage → User → Done
get_current_user_info users current_user = (users, none, public_user (user_public current_user))

unfoldable pub list_users : UserStorage → Done
list_users users = (users, none, public_users (map user_public (Users.list_users users)))

unfoldable pub update_user : (String → String) → UserStorage → String → UserUpdate → Done
unfolding update_found
update_user hash_password users user_id user_update =
    update_found hash_password users user_id user_update (Users.get_user_by_id users user_id)

unfoldable pub get_user_stats : UserStorage → Done
get_user_stats users = (users, none, stats (Users.get_stats users))

unfoldable pub delete_user : UserStorage → String → User → Done
unfolding delete_found
delete_user users user_id current_user =
    if user_id == current_user.user_id
    then (users, none, bad_request)
    else delete_found users user_id (Users.get_user_by_id users user_id)

-- The requests over accounts: `registers` has the uuid of the new user, `updates` and `deletes`
-- the user that they are about.
pub data Request : Type 0 where
  registers : String → UserCreate → Request
  updates : String → UserUpdate → Request
  deletes : String → Request
  lists counts reads_me : Request

unfoldable pub body : (String → String) → ℕ → UserStorage → Request → User → Done
unfolding register get_current_user_info list_users update_user get_user_stats delete_user
body hash_password now users (registers user_id user_data) current_user =
    register hash_password now users user_id user_data
body hash_password now users (updates user_id user_update) current_user =
    update_user hash_password users user_id user_update
body hash_password now users (deletes user_id) current_user = delete_user users user_id current_user
body hash_password now users lists current_user = list_users users
body hash_password now users counts current_user = get_user_stats users
body hash_password now users reads_me current_user = get_current_user_info users current_user

-- All of them but `/me` are the admin's.
unfoldable pub permitted : Request → Admission User → Admission User
unfolding require_permission
permitted reads_me user = user
permitted (registers user_id user_data) user = require_permission admin user
permitted (updates user_id user_update) user = require_permission admin user
permitted (deletes user_id) user = require_permission admin user
permitted lists user = require_permission admin user
permitted counts user = require_permission admin user

abbrev pub invalidate_user : TtlCache User → Option String → TtlCache User
invalidate_user cache none = cache
invalidate_user cache (some user_id) = Cache.invalidate cache (user_key user_id)

unfoldable pub conclude : Access → Done → Access × AccountReply
conclude st (users, stale, reply) =
    (record st { users = users; user_cache = invalidate_user st.user_cache stale }, reply)

unfoldable pub on_admission :
    (String → String) → ℕ → Request → Access × Admission User → Access × AccountReply
unfolding conclude body
on_admission hash_password now request (st, denied e) = (st, refused e)
on_admission hash_password now request (st, granted user) =
    conclude st (body hash_password now st.users request user)

-- One request: the bearer's claims, then the permission, then the body.
unfoldable pub serve :
    (String → String) → ℕ → Access → TokenPayload → Request → Access × AccountReply
unfolding on_admission permitted
serve hash_password now st payload request =
    let (st', user) = get_current_user now st payload in
    on_admission hash_password now request (st', permitted request user)
