-- ===== src/Api/Messages.antt =====
-- pulsar_relay/api/messages.py: `create_message`.
pub mod Access
pub mod Retry
pub mod Duplicates
pub mod Bulk
pub mod Tests
use Prim.Native.String.{◌++◌ as text_append}
use pulsar_relay.Prelude.{
  take-append-drop, drop-nil, last, last-last-append, length-last-le, drop-drop, drop-append,
  is_none, ℕ, zero, suc, ◌+◌, ◌-◌, ◌*◌, ◌/◌, ◌%◌, ◌≤◌, ◌<◌, min, max, String, eq_iff, ◌≡◌, refl,
  sym, ap, ◌∙◌, ◌≢◌, ◌↔◌, ◌⊎◌, inl, inr, Bool, true, false, not, ◌&&◌, ◌||◌, Option, none, some,
  List, [], ◌∷◌, ◌++◌, map, arith, ltb, leb, nat_beq, if◌then◌else◌, nat_beq_iff, Bool-cases,
  Option-cases, length, take, drop, length-append, length-drop, length-take-le, filter_by, Eq, ◌==◌,
  beq_self, nat_eq, string_eq, pair_beq, pair_beq_iff, pair_eq, texts_beq, texts_iff, All,
}
use pulsar_relay.Dict
use pulsar_relay.Dict.{contains, member, add, discard}
use pulsar_relay.Core.Connections
use pulsar_relay.Core.Connections.{ConnectionManager}
use pulsar_relay.Core.Polling
use pulsar_relay.Core.Polling.{PollManager}
use pulsar_relay.Core.Idempotency.{
  Body, Idempotency, try_claim, record_response, default_idempotency_ttl_seconds,
}
use pulsar_relay.Auth.Topics.{
  Permission, write, Topic, TopicCreate, TopicStorage, create_topic, get_topic, user_can_access,
}
use pulsar_relay.Auth.Users.{User, UserStorage, update_user, ok, raise}
use pulsar_relay.Storage.Memory.{MemoryStorage, save_message, storage_key}
use pulsar_relay.Api.Models.{
  HttpError, server_error, Reply, replies, fails, Value, MessageResponse, Message, WebSocketMessage,
  model_dump, model_validate,
}
use pulsar_relay.Api.Relay.{Relay, World, get_or_create_topic}

-- f"{owner_id}/{message.topic}"
abbrev pub channel_of : String → String → String
channel_of owner_id topic = text_append owner_id (text_append "/" topic)

-- The header, if it is there and not empty.
unfoldable pub present : Option String → Option String
present none = none
present (some key) = if key == "" then none else some key

pub data Outcome : Type 0 where
  -- an HTTP error
  refused : HttpError → Outcome
  -- the cached response
  replayed : MessageResponse → Outcome
  -- the message is to be written
  proceeds : User → Outcome

abbrev pub outcome_of_cached : Option MessageResponse → Outcome
outcome_of_cached none = refused server_error
outcome_of_cached (some response) = replayed response

module _ {ℓ} {P : Type ℓ} (world : World) where
  -- `if cached:` passes over the empty body.
  after_claim : Relay P → User → Idempotency Value × Option (Body Value) → Relay P × Outcome
  after_claim r user (entries, none) = (record r { idempotency = some entries }, proceeds user)
  after_claim r user (entries, some []) = (record r { idempotency = some entries }, proceeds user)
  after_claim r user (entries, some (field ∷ fields)) =
      (record r { idempotency = some entries }, outcome_of_cached (model_validate (field ∷ fields)))

  pub claim_key : Relay P → ℕ → User → Option String → Relay P × Outcome
  unfolding after_claim
  claim_key r now user none = (r, proceeds user)
  claim_key r now user (some key) = elim r.idempotency [
    | none ↦ (r, proceeds user)
    | some entries ↦
        after_claim r user (try_claim now entries user.user_id key default_idempotency_ttl_seconds)
  ]

  pub after_settled : ℕ → Option String → Relay P × Reply (Topic × User) → Relay P × Outcome
  after_settled now key (r, fails e) = (r, refused e)
  after_settled now key (r, replies (topic, user)) = claim_key r now user key

  -- The handler up to the write.
  pub begin_message : Relay P → String → ℕ → Message P → User → Option String → Relay P × Outcome
  unfolding after_settled
  begin_message r topic_id now message user idem_key =
      after_settled now (present idem_key)
        (get_or_create_topic world r topic_id now message.topic user)

  -- `manager.broadcast`, if there is a manager; `none` is its KeyError.
  broadcast_local : Relay P → String → Option (Relay P)
  broadcast_local r channel = elim r.manager [
    | none ↦ some r
    | some m ↦ elim (Connections.broadcast world.alive world.others m channel) [
      | none ↦ none
      | some (m', delivered) ↦ some (record r { manager = some m' })
    ]
  ]

  broadcast_polls : Relay P → String → WebSocketMessage P → Relay P
  broadcast_polls r channel message = elim r.poll_manager [
    | none ↦ r
    | some pm ↦ record r { poll_manager = some (Polling.broadcast_to_topic pm channel message).0 }
  ]

  pub fan_out : Relay P → String → WebSocketMessage P → Option (Relay P)
  unfolding broadcast_local broadcast_polls
  fan_out r channel message = elim r.published [
    | some log ↦ some (record r { published = some (log ++ (channel, message) ∷ []) })
    | none ↦ elim (broadcast_local r channel) [
      | none ↦ none
      | some r' ↦ some (broadcast_polls r' channel message)
    ]
  ]

  remember : Relay P → ℕ → String → Option String → MessageResponse → Relay P
  remember r now owner_id none response = r
  remember r now owner_id (some key) response = elim r.idempotency [
    | none ↦ r
    | some entries ↦ record r {
      idempotency = some (
          record_response now entries owner_id key (model_dump response)
            default_idempotency_ttl_seconds);
    }
  ]

  saved : Relay P → String → ℕ → Message P → User → Relay P
  saved r message_id now message user = record r {
    storage =
        save_message r.storage message_id user.user_id message.topic message.payload now
          message.metadata;
  }

  after_fan_out :
      ℕ
      → User
      → Option String
      → MessageResponse
      → Option (Relay P)
      → Option (Relay P × MessageResponse)
  unfolding remember
  after_fan_out now user key response none = none
  after_fan_out now user key response (some r) =
      some (remember r now user.user_id key response, response)

  -- The handler from the write on: it saves, publishes and records the response. The identifier is
  -- the storage's uuid; `none` is an exception of the broadcast.
  pub finish_message :
      Relay P → String → ℕ → Message P → User → Option String → Option (Relay P × MessageResponse)
  unfolding after_fan_out saved
  finish_message r message_id now message user idem_key =
      let response : MessageResponse = record {
        message_id = message_id;
        topic = message.topic;
        timestamp = now;
      } in
      after_fan_out now user (present idem_key) response (
        fan_out (saved r message_id now message user) (channel_of user.user_id message.topic)
          (record {
            message_id = message_id;
            topic = message.topic;
            payload = message.payload;
            timestamp = now;
            metadata = message.metadata;
          }))

  abbrev pub reply_of :
      Option (Relay P × MessageResponse) → Option (Relay P × Reply MessageResponse)
  reply_of none = none
  reply_of (some (r, response)) = some (r, replies response)

  conclude :
      String
      → ℕ
      → Message P
      → Option String
      → Relay P × Outcome
      → Option (Relay P × Reply MessageResponse)
  conclude message_id now message idem_key (r, refused e) = some (r, fails e)
  conclude message_id now message idem_key (r, replayed response) = some (r, replies response)
  conclude message_id now message idem_key (r, proceeds user) =
      reply_of (finish_message r message_id now message user idem_key)

  -- One request from start to end.
  pub create_message :
      Relay P
      → String
      → String
      → ℕ
      → Message P
      → User
      → Option String
      → Option (Relay P × Reply MessageResponse)
  unfolding conclude
  create_message r topic_id message_id now message user idem_key =
      conclude message_id now message idem_key (begin_message r topic_id now message user idem_key)
