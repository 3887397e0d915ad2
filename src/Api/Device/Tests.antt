-- ===== src/Api/Device/Tests.antt =====
-- Polls of a daemon.
use pulsar_relay.Prelude.{
  refl, eq_iff, arith, List, ◌≡◌, true, false, none, some, [], ◌∷◌, nat_eq, string_eq, pair_eq,
}
use pulsar_relay.Dict
use pulsar_relay.Auth.Users.{User}
use pulsar_relay.Auth.Users
use pulsar_relay.Auth.DeviceFlow.{
  DeviceCode, DeviceRequest, approved, expired, init, create, build, store, first_free,
  new_device_code, approve, approve_device, deny, deny_device, update, get_by_user_code,
  get_by_device_code,
}
use pulsar_relay.Auth.DeviceFlow.Lifecycle.{status_of, moves}
use pulsar_relay.Api.Device.Runs.{Call, creates, approves, denies, polls, step, run, run-moves}
use pulsar_relay.Api.Device.{
  DeviceRelay, Drawn, Services, grant, get_device, update_device, user_of, mark_expired,
  poll_session, poll_device_token,
}
use pulsar_relay.Api.Device.Exchange.{is_granted, granted_exact, exchanged_once}

abbrev services : Services
services = record {
  hash_device_code = λ s. s;
  upper = λ s. s;
  hash_secret = λ s. s;
  create_access_token = λ user. user.username;
  refresh_ttl = 1000;
}

abbrev drawn : Drawn
drawn = record { jti = "j1"; secret = "s1"; second_jti = "j2"; second_secret = "s2" }

abbrev alice : User
alice = record {
  user_id = "u1";
  username = "alice";
  email = none;
  hashed_password = none;
  is_active = true;
  created_at = 0;
  permissions = [];
  owned_topics = [];
  federated_identities = [];
}

abbrev device : DeviceCode
device = record {
  device_code_hash = "d1";
  user_code = "BCDF-GHJK";
  verification_uri = "https://relay/auth/device";
  verification_uri_complete = "https://relay/auth/device?user_code=BCDF-GHJK";
  issued_at = 0;
  expires_at = 600000000;
  interval = 5;
  last_polled_at = some 1000000;
  status = approved;
  user_id = some "u1";
  client_hint = none;
  pair = true;
}

abbrev start : DeviceRelay
start = record {
  codes = record { records = ("d1", device) ∷ []; user_code_index = ("BCDF-GHJK", "d1") ∷ [] };
  users = record {
    users = ("u1", alice) ∷ [];
    username_index = ("alice", "u1") ∷ [];
    federated_index = [];
  };
  refresh = record { tokens = []; user_index = [] };
}

granted_exact_example :
    is_granted (poll_device_token services start 6000000 drawn grant "d1").1 ≡ true
unfolding get_device get_by_device_code Dict.get user_of Users.get_user_by_id
granted_exact_example = granted_exact services start 6000000 drawn grant "d1"

too_early_poll : is_granted (poll_device_token services start 5999999 drawn grant "d1").1 ≡ false
unfolding get_device get_by_device_code Dict.get user_of Users.get_user_by_id
too_early_poll = granted_exact services start 5999999 drawn grant "d1"

poll_granted : is_granted (poll_device_token services start 6000000 drawn grant "d1").1 ≡ true
unfolding get_device get_by_device_code Dict.get user_of Users.get_user_by_id
poll_granted = granted_exact services start 6000000 drawn grant "d1"

exchanged_once_example :
    is_granted
      (poll_device_token services
        (poll_device_token services start 6000000 drawn grant "d1").0
        20000000
        drawn
        grant
        "d1").1
    ≡ false
exchanged_once_example =
    exchanged_once services start 6000000 drawn grant "d1" 20000000 drawn grant poll_granted

abbrev request : DeviceRequest
request = record {
  verification_uri = "https://relay/auth/device";
  complete = λ s. s;
  ttl = 600000000;
  interval = 5;
  client_hint = none;
  pair = false;
}

abbrev before : List Call
before = creates ("BCDF-GHJK" ∷ []) "d1" 1 request ∷ approves 2 "BCDF-GHJK" "u1" ∷ []

-- A late poll makes the approved session expire.
abbrev after : List Call
after =
    denies "BCDF-GHJK"
    ∷ creates ("LMNP-QRST" ∷ []) "d2" 3 request
    ∷ polls start.users start.refresh 700000000 drawn grant "d1"
    ∷ []

run-moves_example :
    moves
      (status_of (run services init before) "d1")
      (status_of (run services (run services init before) after) "d1")
    ≡ true
run-moves_example =
    run-moves services before after "d1" (tt, ((λ e. ground (arith, eq_iff "d2" "d1")), (tt, tt)))

has_expired : status_of (run services (run services init before) after) "d1" ≡ some expired
unfolding run step create build store first_free new_device_code approve approve_device deny
    deny_device update get_by_user_code init poll_device_token poll_session mark_expired
    update_device get_device get_by_device_code Dict.get Dict.put
has_expired = refl
