-- ===== src/Client/Polling.antt =====
-- client/pulsar_relay_client/transport.py: `long_poll`.
pub mod Tracking
pub mod Pages
pub mod Service
mod Tests
pub mod Reading
use pulsar_relay.Prelude.{
  ℕ, ◌+◌, String, Bool, true, false, not, ◌&&◌, Option, none, some, List, [], ◌∷◌, min, max, leb,
  nat_beq, if◌then◌else◌, ◌==◌, nat_eq, string_eq, pair_eq,
}
use pulsar_relay.Dict
use pulsar_relay.Client.Auth.{AuthManager, invalidate, get_token}
use pulsar_relay.Client.Cursors.{Cursors, get_last_message_id, set_last_message_id}

-- `poll_data`, and the timeout of the HTTP request.
pub record PollData : Type 0 where
  pub topics : List String
  pub timeout : ℕ
  pub since : Option (List (String × String))
  pub request_timeout : ℕ

-- A message of the answer, a JSON object: `topic` and `message_id` may be missing.
pub record Received {ℓ} (B : Type ℓ) : Type ℓ where
  pub topic : Option String
  pub message_id : Option String
  pub body : B

-- What one request comes to; the body of a response is the list of its messages.
pub data PollAnswer {ℓ} (B : Type ℓ) : Type ℓ where
  response : ℕ → List (Received B) → PollAnswer B
  timed_out : PollAnswer B
  request_error : PollAnswer B

pub data PollResult {ℓ} (B : Type ℓ) : Type ℓ where
  received : List (Received B) → PollResult B
  -- a RelayTransportError
  failed : PollResult B
  -- a RelayAuthError of the authenticator
  auth_failed : PollResult B

pub record PollEnvironment {ℓ} (S B : Type ℓ) : Type ℓ where
  pub clock : S → ℕ
  pub authenticate : S → S × Option (String × ℕ)
  pub post : String → PollData → S → S × PollAnswer B
  -- whether a write of the cursor file succeeds
  pub writes : Bool

-- The cursors of the requested topics that have one, as a dict.
tracked_from : Cursors → List String → List (String × String) → List (String × String)
tracked_from c [] since = since
tracked_from c (topic ∷ topics) since = tracked_from c topics (elim (get_last_message_id c topic) [
  | none ↦ since
  | some message_id ↦ Dict.put since topic message_id
])

pub tracked_since : Cursors → List String → List (String × String)
unfolding tracked_from
tracked_since c topics = tracked_from c topics []

abbrev pub since_or_none : List (String × String) → Option (List (String × String))
since_or_none [] = none
since_or_none (entry ∷ entries) = some (entry ∷ entries)

pub poll_data : Cursors → List String → ℕ → PollData
unfolding tracked_since
poll_data c topics timeout = record {
  topics = topics;
  timeout = min (max timeout 1) 60;
  since = since_or_none (tracked_since c topics);
  request_timeout = timeout + 5;
}

-- `if topic and message_id`
unfoldable pub track {ℓ} : {B : Type ℓ} → Bool → Cursors → Received B → Cursors
track writes c message = elim message.topic [
  | none ↦ c
  | some topic ↦ elim message.message_id [
    | none ↦ c
    | some message_id ↦
        if not (topic == "") && not (message_id == "")
        then set_last_message_id writes c topic message_id
        else c
  ]
]

unfoldable pub track_all {ℓ} : {B : Type ℓ} → Bool → Cursors → List (Received B) → Cursors
unfolding track
track_all writes c [] = c
track_all writes c (message ∷ messages) = track_all writes (track writes c message) messages

module _ {ℓ} {S B : Type ℓ} (env : PollEnvironment S B) where
  -- The token cache, the cursors, the state of the world, and the result.
  abbrev pub Polled : Type ℓ
  Polled = AuthManager × (Cursors × (S × PollResult B))

  -- The response that counts: `raise_for_status`, and the messages.
  concluded : AuthManager → Cursors → S × PollAnswer B → Polled
  concluded m c (s, timed_out) = (m, (c, (s, received [])))
  concluded m c (s, request_error) = (m, (c, (s, failed)))
  concluded m c (s, response status messages) =
      if leb 400 status
      then (m, (c, (s, failed)))
      else (m, (track_all env.writes c messages, (s, received messages)))

  second_request : Cursors → PollData → AuthManager × (S × Option String) → Polled
  unfolding concluded
  second_request c q (m, (s, none)) = (m, (c, (s, auth_failed)))
  second_request c q (m, (s, some token)) = concluded m c (env.post token q s)

  after_request : AuthManager → Cursors → PollData → S × PollAnswer B → Polled
  unfolding concluded second_request
  after_request m c q (s, timed_out) = (m, (c, (s, received [])))
  after_request m c q (s, request_error) = (m, (c, (s, failed)))
  after_request m c q (s, response status messages) =
      if nat_beq status 401
      then second_request c q (get_token env.clock env.authenticate (invalidate m) s)
      else concluded m c (s, response status messages)

  first_request : Cursors → PollData → AuthManager × (S × Option String) → Polled
  unfolding after_request
  first_request c q (m, (s, none)) = (m, (c, (s, auth_failed)))
  first_request c q (m, (s, some token)) = after_request m c q (env.post token q s)

  pub long_poll : AuthManager → Cursors → List String → ℕ → S → Polled
  unfolding first_request poll_data
  long_poll m c topics timeout s =
      first_request c (poll_data c topics timeout) (get_token env.clock env.authenticate m s)
