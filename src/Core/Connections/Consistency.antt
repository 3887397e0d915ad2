-- ===== src/Core/Connections/Consistency.antt =====
-- The two maps of `ConnectionManager` describe the same subscriptions.
use pulsar_relay.Prelude.{
  ℕ, String, ◌≡◌, inl, inr, false, not, ◌&&◌, ◌||◌, none, some, List, [], ◌∷◌, arith, nat_beq_iff,
  Option-cases, ◌==◌, nat_eq, string_eq, pair_eq,
}
use pulsar_relay.Dict
use pulsar_relay.Dict.{contains, member, add, discard}
use pulsar_relay.Dict.Laws.{get-remove}
use pulsar_relay.Dict.Multi.{IsPruned, has, unfile, file-IsPruned, unfile-IsPruned}
use pulsar_relay.Dict.Distinct.{AllDistinct, file-AllDistinct, unfile-AllDistinct}
use pulsar_relay.Core.Connections.{
  unsubscribe, ConnectionManager, subscribe, subscribe_all, ensure_client, connect,
  drop_from_topics, disconnect,
}
use pulsar_relay.Core.Connections.Subscriptions.{
  listens-unsubscribe_all, listens, tracks, listens-subscribe_all, tracks-subscribe_all,
  listens-drop_from_topics, tracks-ensure_client,
}

pub record IsConsistent (m : ConnectionManager) : Type 0 where
  -- a connection is listed under a topic exactly if the topic is listed under the connection
  pub agree : (t : String) (w : ℕ) → listens m t w ≡ tracks m w t
  -- a topic with no connection is not kept
  pub pruned : IsPruned m.connections
  -- no connection is listed twice under a topic
  pub distinct : AllDistinct m.connections

subscribe_all-IsPruned :
    (m : ConnectionManager) (ws : ℕ) (topics : List String)
    → IsPruned m.connections
    → IsPruned (subscribe_all m ws topics).connections
unfolding subscribe_all subscribe
subscribe_all-IsPruned m ws [] h = h
subscribe_all-IsPruned m ws (t ∷ topics) h =
    subscribe_all-IsPruned (subscribe m ws t) ws topics (file-IsPruned m.connections t ws h)

subscribe_all-distinct :
    (m : ConnectionManager) (ws : ℕ) (topics : List String)
    → AllDistinct m.connections
    → AllDistinct (subscribe_all m ws topics).connections
unfolding subscribe_all subscribe
subscribe_all-distinct m ws [] h = h
subscribe_all-distinct m ws (t ∷ topics) h =
    subscribe_all-distinct (subscribe m ws t) ws topics (file-AllDistinct m.connections t ws h)

connections-ensure_client :
    (m : ConnectionManager) (ws : ℕ) → (ensure_client m ws).connections ≡ m.connections
unfolding ensure_client
connections-ensure_client m ws = ground arith

-- `connect` adds exactly the given topics for exactly the given connection.
pub listens-connect :
    (m : ConnectionManager) (ws : ℕ) (topics : List String) (t : String) (w : ℕ)
    → listens (connect m ws topics) t w ≡ ((member topics t && ws == w) || listens m t w)
unfolding connect
listens-connect m ws topics t w =
    rw (listens-subscribe_all ws t w (ensure_client m ws) topics, connections-ensure_client m ws)

pub connect-IsConsistent :
    (m : ConnectionManager) (ws : ℕ) (topics : List String)
    → IsConsistent m
    → IsConsistent (connect m ws topics)
unfolding connect
connect-IsConsistent m ws topics h = record {
  agree = λ t w. cc (
    listens-subscribe_all ws t w (ensure_client m ws) topics,
    tracks-subscribe_all ws t w (ensure_client m ws) topics,
    tracks-ensure_client ws t w m,
    connections-ensure_client m ws,
    h.agree t w,
  );
  pruned = subscribe_all-IsPruned _ ws topics (rw (connections-ensure_client m ws) h.pruned);
  distinct = subscribe_all-distinct _ ws topics (rw (connections-ensure_client m ws) h.distinct);
}

pub drop_from_topics-IsPruned :
    (d : List (String × List ℕ)) (ws : ℕ) (topics : List String)
    → IsPruned d
    → IsPruned (drop_from_topics d ws topics)
unfolding drop_from_topics
drop_from_topics-IsPruned d ws [] h = h
drop_from_topics-IsPruned d ws (t ∷ topics) h =
    drop_from_topics-IsPruned (unfile d t ws) ws topics (unfile-IsPruned d t ws h)

pub drop_from_topics-distinct :
    (d : List (String × List ℕ)) (ws : ℕ) (topics : List String)
    → AllDistinct d
    → AllDistinct (drop_from_topics d ws topics)
unfolding drop_from_topics
drop_from_topics-distinct d ws [] h = h
drop_from_topics-distinct d ws (t ∷ topics) h =
    drop_from_topics-distinct (unfile d t ws) ws topics (unfile-AllDistinct d t ws h)

tracks_of_get :
    (m : ConnectionManager) (ws : ℕ) (t : String) {topics : List String}
    → Dict.get m.client_topics ws ≡ some topics
    → tracks m ws t ≡ member topics t
unfolding has
tracks_of_get m ws t h = ground arith

tracks_of_missing :
    (m : ConnectionManager) (ws : ℕ) (t : String)
    → Dict.get m.client_topics ws ≡ none
    → tracks m ws t ≡ false
unfolding has member
tracks_of_missing m ws t h = ground arith

pub tracks-remove :
    (m : ConnectionManager) (ws w : ℕ) (t : String)
    → has (Dict.remove m.client_topics ws) w t ≡ (not (ws == w) && tracks m w t)
unfolding has member
tracks-remove m ws w t = ground (arith, get-remove m.client_topics ws w, nat_beq_iff ws w)

-- In a consistent manager `disconnect` ends all subscriptions of the connection, and no other.
pub listens-disconnect :
    (m : ConnectionManager) (ws : ℕ) (t : String) (w : ℕ)
    → IsConsistent m
    → listens (disconnect m ws) t w ≡ (not (ws == w) && listens m t w)
unfolding disconnect
listens-disconnect m ws t w h = elim (Option-cases (Dict.get m.client_topics ws)) [
  | inl missing ↦
      ground (arith, tracks_of_missing m ws t missing, h.agree t ws, h.agree t w, nat_beq_iff ws w)
  | inr (topics, found) ↦ ground (
    arith,
    tracks_of_get m ws t found,
    listens-drop_from_topics ws t w m.connections topics,
    h.agree t ws,
    nat_beq_iff ws w,
  )
]

-- In a consistent manager `unsubscribe` ends exactly the given subscriptions of the connection.
pub listens-unsubscribe :
    (m : ConnectionManager) (ws : ℕ) (topics : List String) (t : String) (w : ℕ)
    → IsConsistent m
    → listens (unsubscribe m ws topics) t w ≡ (not (member topics t && ws == w) && listens m t w)
unfolding unsubscribe
listens-unsubscribe m ws topics t w h = elim (Option-cases (Dict.get m.client_topics ws)) [
  | inl missing ↦
      ground (arith, tracks_of_missing m ws t missing, h.agree t ws, h.agree t w, nat_beq_iff ws w)
  | inr (known, found) ↦ ground (arith, listens-unsubscribe_all ws t w m topics)
]
