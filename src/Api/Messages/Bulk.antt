-- ===== src/Api/Messages/Bulk.antt =====
-- pulsar_relay/api/messages.py: `create_bulk_messages`.
pub mod Accounts
pub mod Refusal
pub mod Replay
mod Tests
use pulsar_relay.Prelude.{
  ℕ, suc, ◌+◌, String, Bool, true, false, Option, none, some, List, [], ◌∷◌, ◌++◌, map, length,
  nat_eq, string_eq, pair_eq,
}
use pulsar_relay.Dict.{add}
use pulsar_relay.Core.Connections
use pulsar_relay.Core.Idempotency.{
  Body, Idempotency, try_claim, record_response, default_idempotency_ttl_seconds,
}
use pulsar_relay.Auth.Topics.{Topic}
use pulsar_relay.Auth.Users.{User}
use pulsar_relay.Api.Models.{
  HttpError, forbidden, server_error, Reply, replies, fails, Value, Message, WebSocketMessage,
  BulkMessageResult, BulkMessageResponse, bulk_dump, bulk_validate,
}
use pulsar_relay.Api.Relay.{Relay, World, get_or_create_topic}
use pulsar_relay.Api.Messages.{channel_of, present, fan_out, saved}

-- What a request draws: the identifiers of the topics that it creates, and for each message of the
-- list an identifier and a time. `arrange` is the order in which a set of topics is iterated, and
-- `str_error` the text of the exception of a broadcast to a channel.
pub record Draws : Type 0 where
  pub now : ℕ
  pub topic_id : String → String
  pub message_id : ℕ → String
  pub time : ℕ → ℕ
  pub arrange : List String → List String
  pub str_error : String → String

-- {msg.topic for msg in payload.messages}
abbrev pub topic_set {ℓ} : {P : Type ℓ} → List (Message P) → List String
topic_set [] = []
topic_set (message ∷ messages) = add (topic_set messages) message.topic

-- Where a request with a key stands after its claim.
pub data BulkOutcome : Type 0 where
  bulk_refused : HttpError → BulkOutcome
  bulk_replayed : BulkMessageResponse → BulkOutcome
  bulk_proceeds : BulkOutcome

abbrev pub bulk_outcome_of_cached : Option BulkMessageResponse → BulkOutcome
bulk_outcome_of_cached none = bulk_refused server_error
bulk_outcome_of_cached (some response) = bulk_replayed response

-- The results of the messages, and the counters `accepted` and `rejected`.
pub record Tally : Type 0 where
  pub results : List BulkMessageResult
  pub accepted : ℕ
  pub rejected : ℕ

abbrev pub accept : String → String → Tally → Tally
accept message_id topic t = record t {
  results =
      t.results
      ++ (record { message_id = some message_id; topic = topic; status = "accepted"; error = none })
        ∷ [];
  accepted = t.accepted + 1;
}

abbrev pub reject : String → String → Tally → Tally
reject topic error t = record t {
  results =
      t.results
      ++ (record { message_id = none; topic = topic; status = "rejected"; error = some error })
        ∷ [];
  rejected = t.rejected + 1;
}

abbrev pub bulk_response : ℕ → Tally → BulkMessageResponse
bulk_response total t = record {
  results = t.results;
  summary = ("total", total) ∷ ("accepted", t.accepted) ∷ ("rejected", t.rejected) ∷ [];
}

abbrev pub no_tally : Tally
no_tally = record { results = []; accepted = 0; rejected = 0 }

module _ {ℓ} {P : Type ℓ} (world : World) where
  after_bulk_claim : Relay P → Idempotency Value × Option (Body Value) → Relay P × BulkOutcome
  after_bulk_claim r (entries, none) = (record r { idempotency = some entries }, bulk_proceeds)
  after_bulk_claim r (entries, some []) = (record r { idempotency = some entries }, bulk_proceeds)
  after_bulk_claim r (entries, some (field ∷ fields)) = (
    record r { idempotency = some entries },
    bulk_outcome_of_cached (bulk_validate (field ∷ fields)),
  )

  pub claim_bulk_key : Relay P → ℕ → User → Option String → Relay P × BulkOutcome
  unfolding after_bulk_claim
  claim_bulk_key r now user none = (r, bulk_proceeds)
  claim_bulk_key r now user (some key) = elim r.idempotency [
    | none ↦ (r, bulk_proceeds)
    | some entries ↦
        after_bulk_claim r (try_claim now entries user.user_id key default_idempotency_ttl_seconds)
  ]

  after_visit :
      User → String → List String → Relay P × Reply (Topic × User) → Relay P × User × List String
  after_visit user topic denied (r, replies (found, user')) = (r, user', denied)
  after_visit user topic denied (r, fails e) = (r, user, add denied topic)

  -- One round of the loop that looks at the topics: the user object changes as it owns more of
  -- them, and a topic with an HTTPException is denied.
  pub visit_topic : Draws → String → Relay P × User × List String → Relay P × User × List String
  unfolding after_visit
  visit_topic d topic (r, user, denied) =
      after_visit user topic denied
        (get_or_create_topic world r (d.topic_id topic) d.now topic user)

  pub visit_topics :
      Draws → List String → Relay P × User × List String → Relay P × User × List String
  visit_topics d [] st = st
  visit_topics d (topic ∷ topics) st = visit_topics d topics (visit_topic d topic st)

  -- An exception of the broadcast leaves the message saved, and the manager as far as its clean-up
  -- came.
  pub broadcast_failed : Relay P → String → Relay P
  broadcast_failed r channel = elim r.manager [
    | none ↦ r
    | some m ↦ record r {
      manager = some (Connections.broadcast_left world.alive world.others m channel);
    }
  ]

  -- What the broadcast leaves: the next result, or the exception's.
  after_write : Draws → String → ℕ → String → Tally → Relay P → Option (Relay P) → Relay P × Tally
  unfolding broadcast_failed
  after_write d channel i topic t stored (some r) = (r, accept (d.message_id i) topic t)
  after_write d channel i topic t stored none =
      (broadcast_failed stored channel, reject topic (d.str_error channel) t)

  abbrev pub ws_message : Draws → ℕ → Message P → WebSocketMessage P
  ws_message d i message = record {
    message_id = d.message_id i;
    topic = message.topic;
    payload = message.payload;
    timestamp = d.time i;
    metadata = message.metadata;
  }

  -- One round of the loop that writes.
  pub write_message : Draws → User → ℕ → Message P → Relay P × Tally → Relay P × Tally
  unfolding after_write saved
  write_message d user i message (r, t) =
      let channel = channel_of user.user_id message.topic in
      let stored = saved world r (d.message_id i) (d.time i) message user in
      after_write d channel i message.topic t stored
        (fan_out world stored channel (ws_message d i message))

  pub write_messages : Draws → User → ℕ → List (Message P) → Relay P × Tally → Relay P × Tally
  write_messages d user i [] st = st
  write_messages d user i (message ∷ messages) st =
      write_messages d user (suc i) messages (write_message d user i message st)

  bulk_remember : Relay P → ℕ → String → Option String → BulkMessageResponse → Relay P
  bulk_remember r now owner_id none response = r
  bulk_remember r now owner_id (some key) response = elim r.idempotency [
    | none ↦ r
    | some entries ↦ record r {
      idempotency = some (
          record_response now entries owner_id key (bulk_dump response)
            default_idempotency_ttl_seconds);
    }
  ]

  -- The messages are written under the owner's identifier, and the response recorded.
  pub write_bulk :
      Draws
      → ℕ
      → List (Message P)
      → Option String
      → Relay P
      → User
      → Relay P × Reply BulkMessageResponse
  unfolding bulk_remember
  write_bulk d now messages key r user =
      let (r', tally) = write_messages d user 0 messages (r, no_tally) in
      let response = bulk_response (length messages) tally in
      (bulk_remember r' now user.user_id key response, replies response)

  -- The part behind the claim: all topics are looked at first, and one that is denied refuses the
  -- request as a whole.
  pub admit_bulk :
      Draws
      → ℕ
      → List (Message P)
      → Option String
      → User
      → Relay P × User × List String
      → Relay P × Reply BulkMessageResponse
  admit_bulk d now messages key user (r, user', []) = write_bulk d now messages key r user
  admit_bulk d now messages key user (r, user', topic ∷ denied) = (r, fails forbidden)

  after_bulk_outcome :
      Draws
      → ℕ
      → List (Message P)
      → User
      → Option String
      → Relay P × BulkOutcome
      → Relay P × Reply BulkMessageResponse
  after_bulk_outcome d now messages user key (r, bulk_refused e) = (r, fails e)
  after_bulk_outcome d now messages user key (r, bulk_replayed response) = (r, replies response)
  after_bulk_outcome d now messages user key (r, bulk_proceeds) =
      admit_bulk d now messages key user
        (visit_topics d (d.arrange (topic_set messages)) (r, user, []))

  -- One request from start to end; `now` is the time of the record at its end.
  pub create_bulk_messages :
      Relay P
      → Draws
      → ℕ
      → List (Message P)
      → User
      → Option String
      → Relay P × Reply BulkMessageResponse
  unfolding after_bulk_outcome
  create_bulk_messages r d now messages user idem_key =
      after_bulk_outcome d now messages user (present idem_key)
        (claim_bulk_key r d.now user (present idem_key))
