-- ===== src/Client/Polling/Service.antt =====
-- The relay's endpoint as the client's environment.
use pulsar_relay.Prelude.{
  ℕ, String, ◌≡◌, refl, ap, ◌∙◌, Bool, true, Option, none, some, List, [], ◌∷◌, ◌++◌, arith, inl,
  inr, ◌⊎◌, nat_eq, string_eq, pair_eq, beq_self,
}
use pulsar_relay.Dict
use pulsar_relay.Dict.{contains}
use pulsar_relay.Core.Polling.{PollManager}
use pulsar_relay.Auth.Topics.{TopicStorage}
use pulsar_relay.Auth.Users.{User}
use pulsar_relay.Storage.Memory.{MemoryStorage}
use pulsar_relay.Api.Models.{WebSocketMessage}
use pulsar_relay.Api.Polling.{
  PollRequest, is_valid_request, PollError, unprocessable, bad_request, forbidden,
  too_many_requests, PollResponse, Polled, stored, live, stored_as, live_as, denied_topics, backlog,
  catch_up, cursors,
}
use pulsar_relay.Api.Polling as Endpoint
use pulsar_relay.Client.Cursors.{Cursors, get_last_message_id}
use pulsar_relay.Client.Polling.{
  PollData, Received, PollAnswer, response, PollResult, received, failed, auth_failed,
  PollEnvironment, poll_data, tracked_since, tracked_from, since_or_none,
}

abbrev pub status_of : PollError → ℕ
status_of unprocessable = 422
status_of bad_request = 400
status_of forbidden = 403
status_of too_many_requests = 429

abbrev pub as_request : PollData → PollRequest
as_request q = record { topics = q.topics; since = q.since; timeout = q.timeout }

-- The cursors that the client sends for one topic.
abbrev pub since_of : String → Option String → Option (List (String × String))
since_of topic none = none
since_of topic (some id) = some ((topic, id) ∷ [])

pub since_of_cursor :
    (topic : String) (o : Option String)
    → since_or_none (elim o [ none ↦ [] | some id ↦ Dict.put [] topic id ]) ≡ since_of topic o
unfolding Dict.put
since_of_cursor topic none = refl
since_of_cursor topic (some id) = refl

pub valid_poll :
    (c : Cursors) (topic : String) (timeout : ℕ)
    → is_valid_request (as_request (poll_data c (topic ∷ []) timeout)) ≡ true
unfolding poll_data is_valid_request
valid_poll c topic timeout = ground arith

pub cursor_of :
    (c : Cursors) (topic id : String) (timeout : ℕ)
    → get_last_message_id c topic ≡ some id
    → (poll_data c (topic ∷ []) timeout).since ≡ some ((topic, id) ∷ [])
unfolding poll_data tracked_since tracked_from
cursor_of c topic id timeout at =
    since_of_cursor topic (get_last_message_id c topic) ∙ ap (since_of topic) at

pub get_one : (topic id : String) → Dict.get ((topic, id) ∷ []) topic ≡ some id
unfolding Dict.get
get_one topic id = rw (beq_self topic) refl

module _ {ℓ} {P : Type ℓ} where
  -- A message of the endpoint's answer, as JSON.
  abbrev pub as_json : Polled P (WebSocketMessage P) → Received (Polled P (WebSocketMessage P))
  as_json (stored topic message) = record {
    topic = some topic;
    message_id = some message.message_id;
    body = stored topic message;
  }
  as_json (live message) = record {
    topic = some message.topic;
    message_id = some message.message_id;
    body = live message;
  }

  abbrev pub all_json :
      List (Polled P (WebSocketMessage P)) → List (Received (Polled P (WebSocketMessage P)))
  all_json [] = []
  all_json (message ∷ messages) = as_json message ∷ all_json messages

  abbrev pub http :
      PollManager (WebSocketMessage P) × (PollError ⊎ PollResponse P (WebSocketMessage P))
      → PollManager (WebSocketMessage P) × PollAnswer (Polled P (WebSocketMessage P))
  http (pm, inl e) = (pm, response (status_of e) [])
  http (pm, inr answer) = (pm, response 200 (all_json answer.messages))

  -- The endpoint, over a message storage that nobody writes to meanwhile; the state is the poll
  -- manager.
  abbrev pub endpoint_env :
      TopicStorage
      → MemoryStorage P
      → User
      → String
      → Bool
      → PollEnvironment (PollManager (WebSocketMessage P)) (Polled P (WebSocketMessage P))
  endpoint_env topics st user client_id writes = record {
    clock = λ pm. 0;
    authenticate = λ pm. (pm, none);
    post = λ token q pm.
        http (Endpoint.long_poll topics st pm client_id 0 user (as_request q) (λ m. m));
    writes = writes;
  }

  -- A consumer: it polls one topic until a poll hands it nothing, and keeps what it was handed.
  abbrev pub collected :
      PollResult (Polled P (WebSocketMessage P)) → List (Received (Polled P (WebSocketMessage P)))
  collected (received messages) = messages
  collected failed = []
  collected auth_failed = []

  abbrev pub unless_none :
      List (Received (Polled P (WebSocketMessage P)))
      → List (Received (Polled P (WebSocketMessage P)))
      → List (Received (Polled P (WebSocketMessage P)))
  unless_none [] rest = []
  unless_none (message ∷ messages) rest = (message ∷ messages) ++ rest
