-- ===== src/Auth/Access.antt =====
-- pulsar_relay/auth/dependencies.py: who a request's bearer is, and what the bearer may do
-- (`get_token_payload`, `get_current_user`, `require_permission`, `require_any_permission`,
-- `require_topic_access`), with the cache `user_cache` of pulsar_relay/core/cache.py.
pub mod Current
pub mod Entries
pub mod Stale
use Prim.Native.String.{◌++◌ as text_append}
use pulsar_relay.Prelude.{
  ℕ, String, Bool, true, false, ◌||◌, Option, none, some, List, [], ◌∷◌, if◌then◌else◌,
}
use pulsar_relay.Core.Cache
use pulsar_relay.Core.Cache.{TtlCache}
use pulsar_relay.Auth.Denylist.{Denylist, is_revoked}
use pulsar_relay.Auth.Topics.{Permission, permits, TopicStorage, user_can_access}
use pulsar_relay.Auth.Users
use pulsar_relay.Auth.Users.{User, UserStorage}
use pulsar_relay.Auth.Jwt.{TokenPayload, Jwt, decode_token}

-- What the dependencies of one worker read: the storage is shared, the cache is the worker's own.
pub record Access : Type 0 where
  pub users : UserStorage
  pub user_cache : TtlCache User
  -- `none` where no deny-list is installed
  pub denylist : Option Denylist

-- The HTTPExceptions: three 401 and three 403; `internal_error` is an exception of the cache.
pub data AccessError : Type 0 where
  invalid_token revoked_token user_not_found : AccessError
  inactive_user permission_required topic_denied : AccessError
  internal_error : AccessError

pub data Admission {ℓ} (A : Type ℓ) : Type ℓ where
  granted : A → Admission A
  denied : AccessError → Admission A

unfoldable pub verdict_on : TokenPayload → Bool → Admission TokenPayload
verdict_on payload hit = if hit then denied revoked_token else granted payload

unfoldable pub check_denylist :
    ℕ → Access → TokenPayload → Option String → Option Denylist → Access × Admission TokenPayload
unfolding verdict_on
check_denylist now st payload none denylist = (st, granted payload)
check_denylist now st payload (some jti) none = (st, granted payload)
check_denylist now st payload (some jti) (some revoked) = (
  record st { denylist = some (is_revoked now revoked jti).0 },
  verdict_on payload (is_revoked now revoked jti).1,
)

unfoldable pub after_decode : ℕ → Access → Option TokenPayload → Access × Admission TokenPayload
unfolding check_denylist
after_decode now st none = (st, denied invalid_token)
after_decode now st (some payload) = check_denylist now st payload payload.jti st.denylist

unfoldable pub get_token_payload : Jwt → ℕ → Access → String → Access × Admission TokenPayload
unfolding after_decode decode_token
get_token_payload jwt now st token = after_decode now st (decode_token jwt now token)

-- f"user:{user_id}"
unfoldable pub user_key : String → String
user_key user_id = text_append "user:" user_id

unfoldable pub if_active : User → Admission User
if_active user = if user.is_active then granted user else denied inactive_user

unfoldable pub remember : Access → User → Option (TtlCache User) → Access × Admission User
unfolding if_active
remember st user none = (st, denied internal_error)
remember st user (some cache) = (record st { user_cache = cache }, if_active user)

unfoldable pub fetch : ℕ → Access → String → Option User → Access × Admission User
unfolding remember user_key
fetch now st user_id none = (st, denied user_not_found)
fetch now st user_id (some user) =
    remember st user (Cache.set now st.user_cache (user_key user_id) user)

unfoldable pub after_lookup :
    ℕ → Access → String → TtlCache User × Option User → Access × Admission User
unfolding fetch
after_lookup now st user_id (cache, some user) = (record st { user_cache = cache }, if_active user)
after_lookup now st user_id (cache, none) =
    fetch now (record st { user_cache = cache }) user_id (Users.get_user_by_id st.users user_id)

unfoldable pub get_current_user : ℕ → Access → TokenPayload → Access × Admission User
unfolding after_lookup
get_current_user now st payload =
    after_lookup now st payload.sub (Cache.get now st.user_cache (user_key payload.sub))

unfoldable pub after_payload : ℕ → Access × Admission TokenPayload → Access × Admission User
unfolding get_current_user
after_payload now (st, denied e) = (st, denied e)
after_payload now (st, granted payload) = get_current_user now st payload

-- The two dependencies, one after the other.
unfoldable pub bearer : Jwt → ℕ → Access → String → Access × Admission User
unfolding after_payload
bearer jwt now st token = after_payload now (get_token_payload jwt now st token)

-- The checker that `require_permission` returns, on the current user.
unfoldable pub require_permission : Permission → Admission User → Admission User
require_permission permission (denied e) = denied e
require_permission permission (granted user) =
    if permits user.permissions permission then granted user else denied permission_required

-- any(perm in current_user.permissions for perm in permissions)
unfoldable pub permits_any : List Permission → List Permission → Bool
permits_any held [] = false
permits_any held (perm ∷ permissions) = permits held perm || permits_any held permissions

unfoldable pub require_any_permission : List Permission → Admission User → Admission User
unfolding permits_any
require_any_permission permissions (denied e) = denied e
require_any_permission permissions (granted user) =
    if permits_any user.permissions permissions then granted user else denied permission_required

unfoldable pub require_topic_access :
    TopicStorage → String → Permission → Admission User → Admission User
require_topic_access topics topic permission_type (denied e) = denied e
require_topic_access topics topic permission_type (granted user) =
    if user_can_access topics user.user_id topic user.user_id permission_type user.permissions
    then granted user
    else denied topic_denied
