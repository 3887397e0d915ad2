-- ===== src/Api/Topics/Tests.antt =====
-- A topic that is deleted and created again.
use pulsar_relay.Prelude.{ℕ, ◌≡◌, refl, true, none, [], ◌∷◌, arith, nat_eq, string_eq, pair_eq}
use pulsar_relay.Dict
use pulsar_relay.Dict.{member}
use pulsar_relay.Dict.Multi.{file, members, discard_at}
use pulsar_relay.Auth.Topics
use pulsar_relay.Auth.Topics.{write, Topic, TopicCreate, new_topic, permits}
use pulsar_relay.Auth.Users.{User, update_user}
use pulsar_relay.Storage.Memory.{StoredMessage}
use pulsar_relay.Api.Topics.{
  answers, TopicRelay, store_user, record_owner, create_topic, page_of, get_topic_messages,
  forget_owner, delete_topic,
}
use pulsar_relay.Api.Topics.Deletion.{messages_outlive_topic}

abbrev alice : User
alice = record {
  user_id = "u1";
  username = "alice";
  email = none;
  hashed_password = none;
  is_active = true;
  created_at = 0;
  permissions = write ∷ [];
  owned_topics = "jobs" ∷ [];
  federated_identities = [];
}

abbrev alice_without : User
alice_without = record alice { owned_topics = [] }

abbrev jobs : TopicCreate
jobs = record { topic_name = "jobs"; description = none }

abbrev hello : StoredMessage ℕ
hello = record { message_id = "m1"; topic = "jobs"; payload = 7; timestamp = 1; metadata = [] }

abbrev start : TopicRelay ℕ
start = record {
  topics = record {
    topics = (("u1", "jobs"), new_topic "t1" 0 "u1" jobs) ∷ [];
    owner_index = ("u1", "jobs" ∷ []) ∷ [];
  };
  users = record {
    users = ("u1", alice) ∷ [];
    username_index = ("alice", "u1") ∷ [];
    federated_index = [];
  };
  storage = record { messages = ("u1/jobs", hello ∷ []) ∷ []; max_messages = 10 };
}

abbrev deleted : TopicRelay ℕ
deleted = (delete_topic start "jobs" alice).0

delete_start : delete_topic start "jobs" alice ≡ (deleted, answers tt)
unfolding delete_topic forget_owner store_user update_user member permits new_topic Topics.get_topic
    Topics.delete_topic Dict.get Dict.put Dict.remove
delete_start = refl

abbrev recreated : TopicRelay ℕ
recreated = (create_topic deleted "t2" 5 jobs alice_without).0

create_deleted :
    create_topic deleted "t2" 5 jobs alice_without
    ≡ (recreated, answers (new_topic "t2" 5 "u1" jobs))
unfolding delete_topic forget_owner store_user update_user member permits new_topic Topics.get_topic
    Topics.delete_topic Dict.get Dict.put Dict.remove create_topic record_owner Topics.create_topic
    discard_at members Dict.discard file
create_deleted = refl

messages_outlive_topic_example :
    get_topic_messages recreated "jobs" 10 "asc" none alice_without
    ≡ answers (page_of start "u1" "jobs" 10 "asc" none)
messages_outlive_topic_example =
    messages_outlive_topic start deleted recreated "t2" 5 jobs alice alice_without
      (new_topic "t2" 5 "u1" jobs) 10 "asc" none delete_start create_deleted refl refl (omega arith)
