-- ===== src/Core/Connections/Subscriptions.antt =====
-- Who is subscribed to what after `connect`, `unsubscribe` and `disconnect`.
use pulsar_relay.Prelude.{
  ℕ, String, ◌≡◌, refl, Bool, not, ◌&&◌, ◌||◌, List, [], ◌∷◌, arith, nat_beq_iff, ◌==◌, nat_eq,
  string_eq, pair_eq,
}
use pulsar_relay.Dict.{member}
use pulsar_relay.Dict.Laws.{get-put}
use pulsar_relay.Dict.Multi.{has, unfile, has-file, has-discard_at, has-unfile}
use pulsar_relay.Core.Connections.{
  ConnectionManager, subscribe, subscribe_all, ensure_client, drop_from_topics, unsubscribe_one,
  unsubscribe_all,
}

-- `websocket` is among the connections of `topic`; `topic` is among the topics of `websocket`.
abbrev pub listens : ConnectionManager → String → ℕ → Bool
listens m topic websocket = has m.connections topic websocket

abbrev pub tracks : ConnectionManager → ℕ → String → Bool
tracks m websocket topic = has m.client_topics websocket topic

module _ (ws : ℕ) (t : String) (w : ℕ) where
  pub listens-subscribe_all :
      (m : ConnectionManager) (topics : List String)
      → listens (subscribe_all m ws topics) t w ≡ ((member topics t && ws == w) || listens m t w)
  unfolding subscribe_all subscribe member
  listens-subscribe_all m [] = refl
  listens-subscribe_all m (topic ∷ topics) = ground (
    arith,
    listens-subscribe_all (subscribe m ws topic) topics,
    has-file m.connections topic ws t w,
  )

  pub tracks-subscribe_all :
      (m : ConnectionManager) (topics : List String)
      → tracks (subscribe_all m ws topics) w t ≡ ((member topics t && ws == w) || tracks m w t)
  unfolding subscribe_all subscribe member
  tracks-subscribe_all m [] = refl
  tracks-subscribe_all m (topic ∷ topics) = ground (
    arith,
    tracks-subscribe_all (subscribe m ws topic) topics,
    has-file m.client_topics ws topic w t,
  )

  pub listens-drop_from_topics :
      (connections : List (String × List ℕ)) (topics : List String)
      → has (drop_from_topics connections ws topics) t w
        ≡ (not (member topics t && ws == w) && has connections t w)
  unfolding drop_from_topics member
  listens-drop_from_topics connections [] = refl
  listens-drop_from_topics connections (topic ∷ topics) = ground (
    arith,
    listens-drop_from_topics (unfile connections topic ws) topics,
    has-unfile connections topic ws t w,
  )

  pub listens-unsubscribe_all :
      (m : ConnectionManager) (topics : List String)
      → listens (unsubscribe_all m ws topics) t w
        ≡ (not (member topics t && ws == w) && listens m t w)
  unfolding unsubscribe_all unsubscribe_one member
  listens-unsubscribe_all m [] = refl
  listens-unsubscribe_all m (topic ∷ topics) = ground (
    arith,
    listens-unsubscribe_all (unsubscribe_one m ws topic) topics,
    has-unfile m.connections topic ws t w,
  )

  pub tracks-unsubscribe_all :
      (m : ConnectionManager) (topics : List String)
      → tracks (unsubscribe_all m ws topics) w t
        ≡ (not (member topics t && ws == w) && tracks m w t)
  unfolding unsubscribe_all unsubscribe_one member
  tracks-unsubscribe_all m [] = refl
  tracks-unsubscribe_all m (topic ∷ topics) = ground (
    arith,
    tracks-unsubscribe_all (unsubscribe_one m ws topic) topics,
    has-discard_at m.client_topics ws topic w t,
  )

  pub tracks-ensure_client :
      (m : ConnectionManager) → tracks (ensure_client m ws) w t ≡ tracks m w t
  unfolding ensure_client has member
  tracks-ensure_client m = ground (arith, get-put m.client_topics ws w [], nat_beq_iff ws w)
