-- ===== src/Api/Accounts/Tests.antt =====
-- Runs of the endpoints over accounts at concrete inputs.
use pulsar_relay.Prelude.{
  String, eq_iff, ◌≡◌, refl, true, false, none, some, List, [], ◌∷◌, arith, nat_eq, string_eq,
  pair_eq,
}
use pulsar_relay.Clock.{seconds}
use pulsar_relay.Dict
use pulsar_relay.Auth.Topics.{admin, permits}
use pulsar_relay.Auth.Users
use pulsar_relay.Auth.Users.{User, UserCreate, UserStorage}
use pulsar_relay.Auth.Jwt.{TokenPayload}
use pulsar_relay.Auth.Access.{if_active, require_permission, Access, get_current_user}
use pulsar_relay.Auth.Access.Current.{authorize, IsCurrent}
use pulsar_relay.Auth.Access.Stale.{Look, seen, look_all, stale_until_ttl}
use pulsar_relay.Api.Accounts.{
  register, get_current_user_info, update_user, body, permitted, update_found, after_update,
  updated, UserUpdate, registers, updates, deletes, reads_me,
}
use pulsar_relay.Api.Accounts.Uncached.{
  uncached, uncached_body, Visit, run, run_uncached, AllFresh, cache_invisible,
}

abbrev root : User
root = record {
  user_id = "u0";
  username = "root";
  email = none;
  hashed_password = some "h";
  is_active = true;
  created_at = 0;
  permissions = admin ∷ [];
  owned_topics = [];
  federated_identities = [];
}

abbrev ann : User
ann = record root { user_id = "u1"; username = "ann"; permissions = [] }

abbrev ann_disabled : User
ann_disabled = record ann { is_active = false }

abbrev both : UserStorage
both = record {
  users = ("u0", root) ∷ ("u1", ann) ∷ [];
  username_index = ("root", "u0") ∷ ("ann", "u1") ∷ [];
  federated_index = [];
}

abbrev after_disabling : UserStorage
after_disabling = record both { users = ("u0", root) ∷ ("u1", ann_disabled) ∷ [] }

abbrev worker : Access
worker = record {
  users = both;
  user_cache = record { ttl = seconds 60; max_size = 1000; cache = [] };
  denylist = some [];
}

abbrev claims_of : String → TokenPayload
claims_of user_id = record {
  sub = user_id;
  username = "";
  permissions = [];
  exp = 1000;
  iat = 0;
  jti = some "j";
}

abbrev disable : UserUpdate
disable = record { email = none; password = none; permissions = none; is_active = some false }

abbrev bob : UserCreate
bob = record { username = "bob"; email = none; password = "password"; permissions = [] }

-- Ann is looked up, disabled, looked up again, and another user is registered and deleted.
abbrev visits : List Visit
visits =
    (1, claims_of "u1", reads_me)
    ∷ (2, claims_of "u0", updates "u1" disable)
    ∷ (3, claims_of "u1", reads_me)
    ∷ (4, claims_of "u0", registers "u2" bob)
    ∷ (5, claims_of "u0", deletes "u2")
    ∷ []

abbrev hash : String → String
hash password = password

worker-IsCurrent : IsCurrent worker
unfolding Dict.get
worker-IsCurrent = record {
  room = omega arith;
  keyed = λ user_id user h. ground (arith, eq_iff "u0" user_id, eq_iff "u1" user_id);
  mirrors = λ user_id entry h. absurd (ground arith);
}

visits-AllFresh : AllFresh hash both visits
unfolding uncached uncached_body body update_user register get_current_user_info permitted authorize
    Users.get_user_by_id Dict.get Dict.put if_active require_permission permits update_found
    after_update updated Users.update_user
visits-AllFresh = (tt, (tt, (tt, (refl, (tt, tt)))))

cache_invisible_example :
    ((run hash worker visits).0.users ≡ (run_uncached hash both visits).0)
    × ((run hash worker visits).1 ≡ (run_uncached hash both visits).1)
cache_invisible_example = cache_invisible hash worker visits worker-IsCurrent visits-AllFresh

-- Another worker has looked Ann up at 1, and she is disabled at 2.
abbrev earlier : List Look
earlier = (1, both, claims_of "u1") ∷ []

abbrev later : List Look
later = (3, after_disabling, claims_of "u1") ∷ []

ann_stored : Users.get_user_by_id after_disabling "u1" ≡ Users.get_user_by_id after_disabling "u1"
ann_stored = refl

stale_until_ttl_example :
    (get_current_user 60000003
      (seen (look_all (look_all worker earlier) later) after_disabling)
      (claims_of "u1")).1
    ≡ authorize after_disabling "u1"
stale_until_ttl_example =
    stale_until_ttl worker 2 60000003 earlier later after_disabling (claims_of "u1") refl
      (omega arith) (omega arith, tt) (ann_stored, tt) (omega arith)
