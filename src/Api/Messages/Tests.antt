-- ===== src/Api/Messages/Tests.antt =====
-- Requests from start to end.
use pulsar_relay.Prelude.{
  ℕ, ◌≡◌, refl, true, Option, none, some, [], ◌∷◌, arith, nat_eq, string_eq, pair_eq,
}
use pulsar_relay.Dict
use pulsar_relay.Dict.Multi.{file}
use pulsar_relay.Dict.{member}
use pulsar_relay.Core.Idempotency.{Idempotency, try_claim, claim_new}
use pulsar_relay.Auth.Topics.{write, create_topic, new_topic, get_topic}
use pulsar_relay.Auth.Users.{User, update_user}
use pulsar_relay.Api.Messages.{
  remember, after_fan_out, saved, fan_out, finish_message, create_message, claim_key, begin_message,
  proceeds, present, after_settled, after_claim,
}
use pulsar_relay.Api.Relay.{
  own_topic, check_write, after_race, after_create, get_or_create_topic, Relay, World,
}
use pulsar_relay.Api.Models.{replies, Message, Value, MessageResponse}
use pulsar_relay.Api.Messages.{
  finish_message, create_message, fan_out, saved, after_fan_out, remember,
}
use pulsar_relay.Api.Models.{replies}
use pulsar_relay.Storage.Memory.{save_message, buffer, append_bounded, storage_key}
use pulsar_relay.Core.Idempotency.{record_response}
use pulsar_relay.Api.Messages.Retry.{retry_replayed}
use pulsar_relay.Api.Messages.Duplicates.{duplicate_proceeds}

abbrev pub alice : User
alice = record {
  user_id = "u1";
  username = "alice";
  email = none;
  hashed_password = none;
  is_active = true;
  created_at = 0;
  permissions = write ∷ [];
  owned_topics = [];
  federated_identities = [];
}

abbrev pub alice_owner : User
alice_owner = record alice { owned_topics = "jobs" ∷ [] }

-- No topic yet; the pub/sub coordinator takes the messages.
abbrev pub start : Relay ℕ
start = record {
  topics = record { topics = []; owner_index = [] };
  users = record {
    users = ("u1", alice) ∷ [];
    username_index = ("alice", "u1") ∷ [];
    federated_index = [];
  };
  storage = record { messages = []; max_messages = 10 };
  idempotency = some [];
  published = some [];
  manager = none;
  poll_manager = none;
}

abbrev pub world : World
world = record { is_valid = λ d. true; alive = λ w. true; others = λ m. m }

abbrev pub hello : Message ℕ
hello = record { topic = "jobs"; payload = 7; metadata = none }

abbrev pub begun : Relay ℕ
begun = (begin_message world start "t1" 5 hello alice (some "k")).0

abbrev pub claimed : Idempotency Value
claimed = (try_claim 5 [] "u1" "k" 600).0

pub begun_eq :
    begin_message world start "t1" 5 hello alice (some "k") ≡ (begun, proceeds alice_owner)
unfolding begin_message get_or_create_topic own_topic check_write after_race after_create
    after_settled claim_key after_claim present create_topic get_topic new_topic file update_user
    member try_claim claim_new Dict.get Dict.put
begun_eq = refl

pub claimed_eq : begun.idempotency ≡ some claimed
unfolding begin_message get_or_create_topic own_topic check_write after_race after_create
    after_settled claim_key after_claim present create_topic get_topic new_topic file update_user
    member try_claim claim_new Dict.get Dict.put
claimed_eq = refl

pub key_eq : present (some "k") ≡ some "k"
unfolding present
key_eq = refl

abbrev pub answer : MessageResponse
answer = record { message_id = "m1"; topic = "jobs"; timestamp = 6 }

abbrev pub finished : Option (Relay ℕ × MessageResponse)
finished = finish_message world begun "m1" 6 hello alice_owner (some "k")

abbrev pub relay_of : Option (Relay ℕ × MessageResponse) → Relay ℕ
relay_of none = start
relay_of (some (r, response)) = r

pub finished_eq : finished ≡ some (relay_of finished, answer)
unfolding finish_message fan_out saved after_fan_out remember begin_message get_or_create_topic
    own_topic check_write after_race after_create after_settled claim_key after_claim present
    create_topic get_topic new_topic file update_user member try_claim claim_new record_response
    save_message buffer append_bounded storage_key Dict.get Dict.put
finished_eq = refl

-- A second after the answer.
retry_replayed_example :
    create_message world (relay_of finished) "t2" "m2" 1000006 hello alice (some "k")
    ≡ some (relay_of finished, replies answer)
retry_replayed_example =
    retry_replayed world start begun (relay_of finished) "t1" "m1" "t2" "m2" 5 6 1000006 hello alice
      alice_owner (some "k") "k" claimed answer key_eq claimed_eq begun_eq finished_eq (omega arith)

-- A microsecond after the claim.
duplicate_proceeds_example :
    (begin_message world begun "t2" 6 hello alice (some "k")).1 ≡ proceeds alice
duplicate_proceeds_example =
    duplicate_proceeds world start begun "t1" "t2" 5 6 hello alice alice_owner (some "k") "k"
      claimed key_eq claimed_eq begun_eq
