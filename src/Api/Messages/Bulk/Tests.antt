-- ===== src/Api/Messages/Bulk/Tests.antt =====
-- Bulk requests.
use pulsar_relay.Prelude.{
  ℕ, ◌+◌, String, ◌≡◌, refl, true, false, none, some, List, [], ◌∷◌, arith, nat_eq, string_eq,
  pair_eq,
}
use pulsar_relay.Dict
use pulsar_relay.Dict.{member, add}
use pulsar_relay.Core.Idempotency.{record_response}
use pulsar_relay.Auth.Topics.{get_topic}
use pulsar_relay.Storage.Memory.{save_message, buffer, append_bounded, storage_key}
use pulsar_relay.Api.Models.{
  forbidden, Reply, replies, fails, Message, BulkMessageResult, BulkMessageResponse,
}
use pulsar_relay.Api.Relay.{Relay, World, get_or_create_topic}
use pulsar_relay.Api.Messages.{present, fan_out, saved}
use pulsar_relay.Api.Messages.Tests.{alice, start, world, hello, key_eq}
use pulsar_relay.Api.Messages.Bulk.{
  Draws, write_message, write_messages, write_bulk, admit_bulk, visit_topic, visit_topics,
  claim_bulk_key, after_bulk_outcome, create_bulk_messages, after_write, after_visit, bulk_remember,
}
use pulsar_relay.Api.Messages.Bulk.Refusal.{refused_writes_nothing}
use pulsar_relay.Api.Messages.Bulk.Replay.{bulk_retry_replayed}

abbrev draws : ℕ → Draws
draws now = record {
  now = now;
  topic_id = λ topic. topic;
  message_id = λ i. "m";
  time = λ i. now + i;
  arrange = λ topics. topics;
  str_error = λ channel. channel;
}

abbrev two : List (Message ℕ)
two = hello ∷ record { topic = "logs"; payload = 8; metadata = none } ∷ []

-- A validation of new topics that accepts none.
abbrev strict : World
strict = record { is_valid = λ d. false; alive = λ w. true; others = λ m. m }

abbrev refused_bulk : Relay ℕ × Reply BulkMessageResponse
refused_bulk = create_bulk_messages strict start (draws 5) 9 two alice none

refused_eq : refused_bulk ≡ (refused_bulk.0, fails forbidden)
unfolding create_bulk_messages after_bulk_outcome claim_bulk_key admit_bulk visit_topics visit_topic
    after_visit get_or_create_topic get_topic present Dict.get member add
refused_eq = refl

refused_writes_nothing_example :
    (refused_bulk.0.storage ≡ start.storage)
    × (refused_bulk.0.published ≡ some [])
    × (refused_bulk.0.manager ≡ none)
    × (refused_bulk.0.poll_manager ≡ none)
refused_writes_nothing_example =
    refused_writes_nothing strict start refused_bulk.0 (draws 5) 9 two alice none forbidden
      refused_eq

abbrev written : Relay ℕ × Reply BulkMessageResponse
written = write_bulk world (draws 5) 9 two (some "k") start alice

abbrev result : String → BulkMessageResult
result topic = record { message_id = some "m"; topic = topic; status = "accepted"; error = none }

abbrev answer : BulkMessageResponse
answer = record {
  results = result "jobs" ∷ result "logs" ∷ [];
  summary = ("total", 2) ∷ ("accepted", 2) ∷ ("rejected", 0) ∷ [];
}

written_eq :
    write_bulk world (draws 5) 9 two (present (some "k")) start alice ≡ (written.0, replies answer)
unfolding write_bulk write_messages write_message after_write bulk_remember fan_out saved
    save_message buffer append_bounded storage_key record_response present Dict.get Dict.put
written_eq = refl

-- Another body under the same key gets the same answer.
bulk_retry_replayed_example :
    create_bulk_messages world written.0 (draws 1000009) 12 (hello ∷ []) alice (some "k")
    ≡ (written.0, replies answer)
bulk_retry_replayed_example =
    bulk_retry_replayed world start written.0 (draws 5) (draws 1000009) 9 12 two (hello ∷ []) alice
      (some "k") "k" [] answer key_eq refl written_eq (omega arith)
