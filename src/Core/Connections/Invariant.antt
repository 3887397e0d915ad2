-- ===== src/Core/Connections/Invariant.antt =====
-- Every operation keeps the manager consistent.
use pulsar_relay.Prelude.{
  ℕ, String, ◌≡◌, refl, inl, inr, not, ◌&&◌, List, [], ◌∷◌, arith, Bool-cases, Option-cases, ◌==◌,
  nat_eq, string_eq, pair_eq,
}
use pulsar_relay.Dict
use pulsar_relay.Dict.{contains, member, add, discard}
use pulsar_relay.Dict.Laws.{get-remove}
use pulsar_relay.Dict.Multi.{members, IsPruned, has, unfile-IsPruned}
use pulsar_relay.Dict.Distinct.{AllDistinct, unfile-AllDistinct}
use pulsar_relay.Core.Connections.{
  ConnectionManager, init, disconnect, unsubscribe_one, unsubscribe_all, unsubscribe,
}
use pulsar_relay.Core.Connections.Subscriptions.{
  tracks, listens-unsubscribe_all, tracks-unsubscribe_all,
}
use pulsar_relay.Core.Connections.Consistency.{
  IsConsistent, listens-disconnect, tracks-remove, drop_from_topics-IsPruned,
  drop_from_topics-distinct,
}

pub init-IsConsistent : IsConsistent init
unfolding init has member members Dict.get
init-IsConsistent = record { agree = λ t w. refl; pruned = λ t e. cc; distinct = λ t. tt }

tracks-disconnect :
    (m : ConnectionManager) (ws w : ℕ) (t : String)
    → IsConsistent m
    → tracks (disconnect m ws) w t ≡ (not (ws == w) && tracks m w t)
unfolding disconnect
tracks-disconnect m ws w t h = elim (Option-cases (Dict.get m.client_topics ws)) [
  | inl missing ↦ ground (
    arith,
    tracks-remove m ws w t,
    get-remove m.client_topics ws w,
    listens-disconnect m ws t w h,
    h.agree t w,
  )
  | inr (topics, found) ↦ ground (arith, tracks-remove m ws w t)
]

disconnect-IsPruned :
    (m : ConnectionManager) (ws : ℕ)
    → IsPruned m.connections
    → IsPruned (disconnect m ws).connections
unfolding disconnect
disconnect-IsPruned m ws h = elim (Option-cases (Dict.get m.client_topics ws)) [
  | inl missing ↦ rw (missing, disconnect) h
  | inr (topics, found) ↦ rw (found, disconnect) (drop_from_topics-IsPruned _ ws topics h)
]

disconnect-distinct :
    (m : ConnectionManager) (ws : ℕ)
    → AllDistinct m.connections
    → AllDistinct (disconnect m ws).connections
unfolding disconnect
disconnect-distinct m ws h = elim (Option-cases (Dict.get m.client_topics ws)) [
  | inl missing ↦ rw (missing, disconnect) h
  | inr (topics, found) ↦ rw (found, disconnect) (drop_from_topics-distinct _ ws topics h)
]

pub disconnect-IsConsistent :
    (m : ConnectionManager) (ws : ℕ) → IsConsistent m → IsConsistent (disconnect m ws)
disconnect-IsConsistent m ws h = record {
  agree = λ t w. cc (listens-disconnect m ws t w h, tracks-disconnect m ws w t h, h.agree t w);
  pruned = disconnect-IsPruned m ws h.pruned;
  distinct = disconnect-distinct m ws h.distinct;
}

unsubscribe_all-IsPruned :
    (m : ConnectionManager) (ws : ℕ) (topics : List String)
    → IsPruned m.connections
    → IsPruned (unsubscribe_all m ws topics).connections
unfolding unsubscribe_all unsubscribe_one
unsubscribe_all-IsPruned m ws [] h = h
unsubscribe_all-IsPruned m ws (t ∷ topics) h =
    unsubscribe_all-IsPruned (unsubscribe_one m ws t) ws topics
      (unfile-IsPruned m.connections t ws h)

unsubscribe_all-distinct :
    (m : ConnectionManager) (ws : ℕ) (topics : List String)
    → AllDistinct m.connections
    → AllDistinct (unsubscribe_all m ws topics).connections
unfolding unsubscribe_all unsubscribe_one
unsubscribe_all-distinct m ws [] h = h
unsubscribe_all-distinct m ws (t ∷ topics) h =
    unsubscribe_all-distinct (unsubscribe_one m ws t) ws topics
      (unfile-AllDistinct m.connections t ws h)

unsubscribe_all-IsConsistent :
    (m : ConnectionManager) (ws : ℕ) (topics : List String)
    → IsConsistent m
    → IsConsistent (unsubscribe_all m ws topics)
unsubscribe_all-IsConsistent m ws topics h = record {
  agree = λ t w. cc (
    listens-unsubscribe_all ws t w m topics,
    tracks-unsubscribe_all ws t w m topics,
    h.agree t w,
  );
  pruned = unsubscribe_all-IsPruned m ws topics h.pruned;
  distinct = unsubscribe_all-distinct m ws topics h.distinct;
}

pub unsubscribe-IsConsistent :
    (m : ConnectionManager) (ws : ℕ) (topics : List String)
    → IsConsistent m
    → IsConsistent (unsubscribe m ws topics)
unfolding unsubscribe
unsubscribe-IsConsistent m ws topics h = elim (Bool-cases (contains m.client_topics ws)) [
  | inl known ↦ rw known (unsubscribe_all-IsConsistent m ws topics h)
  | inr unknown ↦ rw unknown h
]
