-- ===== src/Core/Connections.antt =====
-- pulsar_relay/core/connections.py: `ConnectionManager`. A WebSocket is its identity, a number.
pub mod Subscriptions
pub mod Consistency
pub mod Invariant
pub mod Broadcast
pub mod Races
pub mod Runs
mod Tests
use pulsar_relay.Prelude.{
  ℕ, zero, suc, ◌+◌, ◌-◌, ◌*◌, ◌/◌, ◌%◌, ◌≤◌, ◌<◌, min, max, String, eq_iff, ◌≡◌, refl, sym, ap,
  ◌∙◌, ◌≢◌, ◌↔◌, ◌⊎◌, inl, inr, Bool, true, false, not, ◌&&◌, ◌||◌, Option, none, some, List, [],
  ◌∷◌, ◌++◌, map, arith, ltb, leb, nat_beq, if◌then◌else◌, nat_beq_iff, Bool-cases, Option-cases,
  length, take, drop, length-append, length-drop, length-take-le, filter_by, Eq, ◌==◌, beq_self,
  nat_eq, string_eq, pair_beq, pair_beq_iff, pair_eq, texts_beq, texts_iff, All,
}
use pulsar_relay.Dict
use pulsar_relay.Dict.{contains, member, add, discard}
use pulsar_relay.Dict.Multi
use pulsar_relay.Dict.Multi.{members, file, unfile, discard_at, put_or_drop}

pub record ConnectionManager : Type 0 where
  -- topic -> connections, and connection -> topics
  pub connections : List (String × List ℕ)
  pub client_topics : List (ℕ × List String)

pub init : ConnectionManager
init = record { connections = []; client_topics = [] }

-- One round of the loop of `connect`.
pub subscribe : ConnectionManager → ℕ → String → ConnectionManager
subscribe m websocket topic = record m {
  connections = file m.connections topic websocket;
  client_topics = file m.client_topics websocket topic;
}

pub subscribe_all : ConnectionManager → ℕ → List String → ConnectionManager
subscribe_all m websocket [] = m
subscribe_all m websocket (topic ∷ topics) =
    subscribe_all (subscribe m websocket topic) websocket topics

pub ensure_client : ConnectionManager → ℕ → ConnectionManager
ensure_client m websocket =
    if contains m.client_topics websocket
    then m
    else record m { client_topics = Dict.put m.client_topics websocket [] }

pub connect : ConnectionManager → ℕ → List String → ConnectionManager
connect m websocket topics = subscribe_all (ensure_client m websocket) websocket topics

-- The loop of `disconnect` over the client's topics.
pub drop_from_topics : List (String × List ℕ) → ℕ → List String → List (String × List ℕ)
drop_from_topics connections websocket [] = connections
drop_from_topics connections websocket (topic ∷ topics) =
    drop_from_topics (unfile connections topic websocket) websocket topics

pub disconnect : ConnectionManager → ℕ → ConnectionManager
disconnect m websocket = elim (Dict.get m.client_topics websocket) [
  | none ↦ m
  | some topics ↦ record m {
    connections = drop_from_topics m.connections websocket topics;
    client_topics = Dict.remove m.client_topics websocket;
  }
]

-- One round of the loop of `unsubscribe`: the client stays known without its topic.
pub unsubscribe_one : ConnectionManager → ℕ → String → ConnectionManager
unsubscribe_one m websocket topic = record m {
  connections = unfile m.connections topic websocket;
  client_topics = discard_at m.client_topics websocket topic;
}

pub unsubscribe_all : ConnectionManager → ℕ → List String → ConnectionManager
unsubscribe_all m websocket [] = m
unsubscribe_all m websocket (topic ∷ topics) =
    unsubscribe_all (unsubscribe_one m websocket topic) websocket topics

pub unsubscribe : ConnectionManager → ℕ → List String → ConnectionManager
unsubscribe m websocket topics =
    if contains m.client_topics websocket then unsubscribe_all m websocket topics else m

-- The connections to which `send_json` succeeds, and those on which it raises.
pub reached : (ℕ → Bool) → List ℕ → List ℕ
reached alive = filter_by alive

pub dead_connections : (ℕ → Bool) → List ℕ → List ℕ
dead_connections alive = filter_by (λ c. not (alive c))

-- One round of the clean-up: `none` is the KeyError of `self._connections[topic]`.
pub clean_one : ConnectionManager → String → ℕ → Option ConnectionManager
clean_one m topic conn = elim (Dict.get m.connections topic) [
  | none ↦ none
  | some subscribers ↦ some (record m {
    connections = put_or_drop m.connections topic (discard subscribers conn);
    client_topics = unfile m.client_topics conn topic;
  })
]

pub clean_dead : ConnectionManager → String → List ℕ → Option ConnectionManager
clean_dead m topic [] = some m
clean_dead m topic (conn ∷ dead) = elim (clean_one m topic conn) [
  | none ↦ none
  | some m' ↦ clean_dead m' topic dead
]

-- A broadcast takes a snapshot, sends outside the lock and then cleans up under the lock again.
-- `alive` says on which connections the send succeeds, and `others` is what the other tasks do to
-- the manager while the sends are awaited. The result is the manager and the connections reached,
-- whose number the code returns; `none` is a KeyError.
pub broadcast :
    (ℕ → Bool)
    → (ConnectionManager → ConnectionManager)
    → ConnectionManager
    → String
    → Option (ConnectionManager × List ℕ)
broadcast alive others m topic = elim (Dict.get m.connections topic) [
  | none ↦ some (m, [])
  | some subscribers ↦ elim (clean_dead (others m) topic (dead_connections alive subscribers)) [
    | none ↦ none
    | some m' ↦ some (m', reached alive subscribers)
  ]
]

-- The manager as a broadcast leaves it, also where its clean-up stops at a KeyError.
pub cleaned_until : ConnectionManager → String → List ℕ → ConnectionManager
cleaned_until m topic [] = m
cleaned_until m topic (conn ∷ dead) = elim (clean_one m topic conn) [
  | none ↦ m
  | some m' ↦ cleaned_until m' topic dead
]

pub broadcast_left :
    (ℕ → Bool)
    → (ConnectionManager → ConnectionManager)
    → ConnectionManager
    → String
    → ConnectionManager
unfolding cleaned_until
broadcast_left alive others m topic = elim (Dict.get m.connections topic) [
  | none ↦ m
  | some subscribers ↦ cleaned_until (others m) topic (dead_connections alive subscribers)
]

pub get_connection_count : ConnectionManager → Option String → ℕ
get_connection_count m none = length m.client_topics
get_connection_count m (some topic) = length (members m.connections topic)

pub get_topics_for_client : ConnectionManager → ℕ → List String
get_topics_for_client m websocket = members m.client_topics websocket

pub get_all_topics : ConnectionManager → List String
get_all_topics m = map (λ entry. entry.0) m.connections
