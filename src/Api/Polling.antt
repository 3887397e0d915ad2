-- ===== src/Api/Polling.antt =====
-- pulsar_relay/api/polling.py: the long-polling endpoint over the message storage and the poll
-- manager.
pub mod Backlog
pub mod Waiting
pub mod Tests
use pulsar_relay.Prelude.{
  ℕ, String, Bool, true, false, not, ◌&&◌, Option, none, some, List, [], ◌∷◌, ◌++◌, map, leb, ◌⊎◌,
  inl, inr, if◌then◌else◌, length, filter_by, nat_eq, string_eq, pair_eq,
}
use pulsar_relay.Dict
use pulsar_relay.Core.Polling.{
  PollManager, PollWaiter, create_waiter, remove_waiter, wait_for_messages, get_stats,
}
use pulsar_relay.Auth.Topics.{read, TopicStorage, user_can_access}
use pulsar_relay.Auth.Users.{User}
use pulsar_relay.Storage.Memory.{MemoryStorage, StoredMessage, get_messages}
use pulsar_relay.Api.Messages.{channel_of}

pub record PollRequest : Type 0 where
  pub topics : List String
  pub since : Option (List (String × String))
  pub timeout : ℕ

-- The bounds of the fields of `PollRequest`.
unfoldable pub is_valid_request : PollRequest → Bool
is_valid_request q =
    leb 1 (length q.topics) && leb (length q.topics) 20 && leb 1 q.timeout && leb q.timeout 60

-- 422 of the validation, 400, 403, 429.
pub data PollError : Type 0 where
  unprocessable bad_request forbidden too_many_requests : PollError

-- A message of the answer: one of a topic's stored messages, or one that a waiter was handed.
pub data Polled {ℓ} (P M : Type ℓ) : Type ℓ where
  stored : String → StoredMessage P → Polled P M
  live : M → Polled P M

pub record PollResponse {ℓ} (P M : Type ℓ) : Type ℓ where
  pub messages : List (Polled P M)
  pub has_more : Bool

pub denied_topics : TopicStorage → User → List String → List String
denied_topics topics user requested =
    filter_by
      (λ topic. not (user_can_access topics user.user_id topic user.user_id read user.permissions))
      requested

-- `poll_request.since`: an empty dict is none.
abbrev pub cursors : Option (List (String × String)) → Option (List (String × String))
cursors none = none
cursors (some []) = none
cursors (some (cursor ∷ since)) = some (cursor ∷ since)

abbrev pub page_limit : ℕ
page_limit = 100

-- Where a request stands before it waits.
pub data Begun {ℓ} (P M : Type ℓ) : Type ℓ where
  refused : PollError → Begun P M
  answered : PollResponse P M → Begun P M
  waiting : PollWaiter M → Begun P M

abbrev pub composite_topics : String → List String → List String
composite_topics owner_id [] = []
composite_topics owner_id (topic ∷ topics) =
    channel_of owner_id topic ∷ composite_topics owner_id topics

abbrev pub current {ℓ} : {M : Type ℓ} → PollWaiter M → Option (PollWaiter M) → PollWaiter M
current waiter none = waiter
current waiter (some w) = w

module _ {ℓ} {P M : Type ℓ} where
  abbrev pub stored_as : String → List (StoredMessage P) → List (Polled P M)
  stored_as topic [] = []
  stored_as topic (message ∷ messages) = stored topic message ∷ stored_as topic messages

  abbrev pub live_as : List M → List (Polled P M)
  live_as [] = []
  live_as (message ∷ messages) = live message ∷ live_as messages

  -- The messages behind the cursors, at most 100 of each topic.
  unfoldable pub backlog :
      MemoryStorage P → String → List (String × String) → List String → List (Polled P M)
  backlog st owner_id since [] = []
  backlog st owner_id since (topic ∷ topics) =
      stored_as topic (get_messages st owner_id topic (Dict.get since topic) page_limit false)
      ++ backlog st owner_id since topics

  after_limit : PollManager M × Option (PollWaiter M) → PollManager M × Begun P M
  after_limit (pm, none) = (pm, refused too_many_requests)
  after_limit (pm, some waiter) = (pm, waiting waiter)

  -- `create_waiter`; the waiter's identifier is its uuid.
  start_waiting : PollManager M → String → ℕ → User → List String → PollManager M × Begun P M
  unfolding after_limit
  start_waiting pm client_id now user topics =
      after_limit
        (create_waiter pm client_id now (composite_topics user.user_id topics) (some user.user_id))

  -- What there is to catch up with is answered at once.
  unfoldable pub catch_up : MemoryStorage P → User → PollRequest → List (Polled P M)
  unfolding backlog
  catch_up st user q = elim (cursors q.since) [
    | none ↦ []
    | some since ↦ backlog st user.user_id since q.topics
  ]

  answer_or_wait :
      PollManager M
      → String
      → ℕ
      → User
      → List String
      → List (Polled P M)
      → PollManager M × Begun P M
  unfolding start_waiting
  answer_or_wait pm client_id now user topics [] = start_waiting pm client_id now user topics
  answer_or_wait pm client_id now user topics (message ∷ messages) = (
    pm,
    answered (record {
      messages = message ∷ messages;
      has_more = leb 100 (length (message ∷ messages));
    }),
  )

  -- The handler up to the wait.
  pub begin_poll :
      TopicStorage
      → MemoryStorage P
      → PollManager M
      → String
      → ℕ
      → User
      → PollRequest
      → PollManager M × Begun P M
  unfolding answer_or_wait catch_up
  begin_poll topics st pm client_id now user q =
      if not (is_valid_request q) then (pm, refused unprocessable) else elim q.topics [
        | [] ↦ (pm, refused bad_request)
        | _ ↦ elim (denied_topics topics user q.topics) [
          | topic ∷ denied ↦ (pm, refused forbidden)
          | [] ↦ answer_or_wait pm client_id now user q.topics (catch_up st user q)
        ]
      ]

  -- The wait, and the removal that always follows it. The waiter's object is the one in the
  -- manager, or, where a clean-up has dropped that, as it was created.
  pub finish_poll : PollManager M → PollWaiter M → PollManager M × PollResponse P M
  finish_poll pm waiter =
      let (woken, messages) =
        wait_for_messages (current waiter (Dict.get pm.waiters waiter.client_id)) in
      (remove_waiter pm waiter.client_id, record { messages = live_as messages; has_more = false })

  after_begin :
      (PollManager M → PollManager M)
      → PollManager M × Begun P M
      → PollManager M × (PollError ⊎ PollResponse P M)
  unfolding finish_poll
  after_begin others (pm, refused e) = (pm, inl e)
  after_begin others (pm, answered response) = (pm, inr response)
  after_begin others (pm, waiting waiter) =
      let (pm', response) = finish_poll (others pm) waiter in (pm', inr response)

  -- One request from start to end: `others` is what other tasks do to the manager during the wait.
  pub long_poll :
      TopicStorage
      → MemoryStorage P
      → PollManager M
      → String
      → ℕ
      → User
      → PollRequest
      → (PollManager M → PollManager M)
      → PollManager M × (PollError ⊎ PollResponse P M)
  unfolding after_begin
  long_poll topics st pm client_id now user q others =
      after_begin others (begin_poll topics st pm client_id now user q)

-- The statistics of the poll manager, for any user.
pub get_poll_stats {ℓ} : {M : Type ℓ} → PollManager M → ℕ × ℕ × List (String × ℕ)
get_poll_stats pm = get_stats pm
