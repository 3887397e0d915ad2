-- ===== src/Api/Relay.antt =====
-- The state behind the handlers, and `get_or_create_topic` of pulsar_relay/auth/dependencies.py.
use Prim.Native.String.{◌++◌ as text_append}
use pulsar_relay.Prelude.{
  ℕ, String, Bool, Option, none, some, List, [], ◌∷◌, ◌++◌, if◌then◌else◌, nat_eq, string_eq,
  pair_eq,
}
use pulsar_relay.Dict.{member}
use pulsar_relay.Core.Connections.{ConnectionManager}
use pulsar_relay.Core.Polling.{PollManager}
use pulsar_relay.Core.Idempotency.{Idempotency}
use pulsar_relay.Auth.Topics.{
  write, Topic, TopicCreate, TopicStorage, create_topic, get_topic, user_can_access,
}
use pulsar_relay.Auth.Users.{User, UserStorage, update_user, ok, raise}
use pulsar_relay.Storage.Memory.{MemoryStorage}
use pulsar_relay.Api.Models.{
  forbidden, server_error, Reply, replies, fails, Value, WebSocketMessage,
}

-- The state behind the handlers. `published` holds what was handed to the pub/sub coordinator, where
-- there is one. Payloads are JSON values of any type.
pub record Relay {ℓ} (P : Type ℓ) : Type ℓ where
  pub topics : TopicStorage
  pub users : UserStorage
  pub storage : MemoryStorage P
  pub idempotency : Option (Idempotency Value)
  pub published : Option (List (String × WebSocketMessage P))
  pub manager : Option ConnectionManager
  pub poll_manager : Option (PollManager (WebSocketMessage P))

-- What depends on code elsewhere: `is_valid` is the validation of `TopicCreate` by pydantic, `alive`
-- tells on which connections a send succeeds, and `others` is what other tasks do to the connection
-- manager while sends are awaited.
pub record World : Type 0 where
  pub is_valid : TopicCreate → Bool
  pub alive : ℕ → Bool
  pub others : ConnectionManager → ConnectionManager

-- A topic that is there needs write access.
unfoldable pub check_write : TopicStorage → Topic → String → User → Reply (Topic × User)
check_write topics topic topic_name user =
    if user_can_access topics user.user_id topic_name user.user_id write user.permissions
    then replies (topic, user)
    else fails forbidden

abbrev pub auto_created : String → User → TopicCreate
auto_created topic_name user = record {
  topic_name = topic_name;
  description = some (text_append "Auto-created topic by " user.username);
}

module _ {ℓ} {P : Type ℓ} (world : World) where
  -- The topic is new: it joins the user's list, and the user is stored.
  unfoldable pub own_topic : Relay P → Topic → String → User → Relay P × Reply (Topic × User)
  own_topic r topic topic_name user =
      if member user.owned_topics topic_name
      then (r, replies (topic, user))
      else (let user' : User = record user {
        owned_topics = user.owned_topics ++ topic_name ∷ [];
      } in
          let (users', result) = update_user r.users user' in
          elim result [
            | ok _ ↦ (record r { users = users' }, replies (topic, user'))
            | raise _ ↦ (record r { users = users' }, fails server_error)
          ])

  -- Another request has created the topic in between.
  unfoldable pub after_race : Relay P → String → User → Relay P × Reply (Topic × User)
  unfolding check_write
  after_race r topic_name user = elim (get_topic r.topics user.user_id topic_name) [
    | none ↦ (r, fails server_error)
    | some topic ↦ (r, check_write r.topics topic topic_name user)
  ]

  unfoldable pub after_create :
      Relay P → String → User → TopicStorage × Option Topic → Relay P × Reply (Topic × User)
  after_create r topic_name user (topics', some topic) =
      own_topic (record r { topics = topics' }) topic topic_name user
  after_create r topic_name user (topics', none) =
      after_race (record r { topics = topics' }) topic_name user

  -- The new topic's identifier and time are those of the uuid and the clock.
  unfoldable pub get_or_create_topic :
      Relay P → String → ℕ → String → User → Relay P × Reply (Topic × User)
  unfolding check_write after_create
  get_or_create_topic r topic_id now topic_name user =
      elim (get_topic r.topics user.user_id topic_name) [
        | some topic ↦ (r, check_write r.topics topic topic_name user)
        | none ↦
            if world.is_valid (auto_created topic_name user)
            then after_create r topic_name user
                (create_topic r.topics topic_id now user.user_id (auto_created topic_name user))
            else (r, fails server_error)
      ]
