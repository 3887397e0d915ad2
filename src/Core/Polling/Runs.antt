-- ===== src/Core/Polling/Runs.antt =====
-- The manager as a transition system: requests create, wake and remove waiters, publishers
-- broadcast, and the clean-up sweeps, in any order.
use pulsar_relay.Prelude.{
  if◌then◌else◌, is_none, ℕ, String, eq_iff, ◌≡◌, sym, ap, ◌∙◌, inl, inr, false, Option, some, List,
  [], ◌∷◌, arith, leb, Option-cases, nat_eq, string_eq, pair_eq,
}
use pulsar_relay.Dict
use pulsar_relay.Dict.{contains, member, add, discard}
use pulsar_relay.Dict.Laws.{get-put}
use pulsar_relay.Dict.Keys.{count_by, count_by-put_known, put-DistinctKeys}
use pulsar_relay.Core.Polling.{
  new_waiter, admit, PollWaiter, PollManager, init, count_of, create_waiter, remove_waiter,
  put_message, deliver, deliver_all, wait_for_messages, broadcast_to_topic, cleanup_stale_waiters,
}
use pulsar_relay.Core.Polling.Invariant.{
  owned_by, IsIndexed, init-IsIndexed, create_waiter-IsIndexed, remove_waiter-IsIndexed,
}
use pulsar_relay.Core.Polling.Cleanup.{cleanup_exact}

module _ {ℓ} {M : Type ℓ} where
  -- A waiter may change its queue.
  replace-IsIndexed :
      (m : PollManager M) (c : String) (w w' : PollWaiter M)
      → Dict.get m.waiters c ≡ some w
      → w'.topics ≡ w.topics
      → w'.user_id ≡ w.user_id
      → IsIndexed m
      → IsIndexed (record m { waiters = Dict.put m.waiters c w' })
  replace-IsIndexed m c w w' found topics user h = record {
    subscribed = λ t c'. ground (arith, get-put m.waiters c c' w', h.subscribed t c', eq_iff c c');
    counted = λ u.
        h.counted u ∙ sym (count_by-put_known (owned_by u) m.waiters c w' found (ground arith));
    limited = h.limited;
    keyed = put-DistinctKeys m.waiters c w' h.keyed;
    distinct = h.distinct;
  }

  topics-put_message :
      (w : PollWaiter M) (message : M)
      → ((put_message w message).0.topics ≡ w.topics)
        × ((put_message w message).0.user_id ≡ w.user_id)
  unfolding put_message
  topics-put_message w message = ground arith

  deliver-IsIndexed :
      (m : PollManager M) (c : String) (message : M)
      → IsIndexed m
      → IsIndexed (record m { waiters = (deliver m.waiters c message).0 })
  unfolding deliver
  deliver-IsIndexed m c message h = elim (Option-cases (Dict.get m.waiters c)) [
    | inl missing ↦ rw (missing, deliver) h
    | inr (w, found) ↦
        let (topics, user) = topics-put_message w message in
        rw (found, deliver) (replace-IsIndexed m c w _ found topics user h)
  ]

  deliver_all-IsIndexed :
      (m : PollManager M) (ids : List String) (message : M)
      → IsIndexed m
      → IsIndexed (record m { waiters = (deliver_all m.waiters ids message).0 })
  unfolding deliver_all
  deliver_all-IsIndexed m [] message h = h
  deliver_all-IsIndexed m (c ∷ ids) message h =
      deliver_all-IsIndexed (record m { waiters = (deliver m.waiters c message).0 }) ids message
        (deliver-IsIndexed m c message h)

  broadcast_to_topic-IsIndexed :
      (m : PollManager M) (topic : String) (message : M)
      → IsIndexed m
      → IsIndexed (broadcast_to_topic m topic message).0
  unfolding broadcast_to_topic
  broadcast_to_topic-IsIndexed m topic message h = deliver_all-IsIndexed m _ message h

  topics-wait_for_messages :
      (w : PollWaiter M)
      → ((wait_for_messages w).0.topics ≡ w.topics) × ((wait_for_messages w).0.user_id ≡ w.user_id)
  unfolding wait_for_messages
  topics-wait_for_messages w = ground arith

  -- A client's identifier is new: it is a UUID.
  pub data Step (m : PollManager M) : PollManager M → Type ℓ where
    create :
        (c : String) (now : ℕ) (topics : List String) (user : Option String)
        → contains m.waiters c ≡ false
        → Step m (create_waiter m c now topics user).0
    remove : (c : String) → Step m (remove_waiter m c)
    wake :
        (c : String) (w : PollWaiter M)
        → Dict.get m.waiters c ≡ some w
        → Step m (record m { waiters = Dict.put m.waiters c (wait_for_messages w).0 })
    broadcast : (topic : String) (message : M) → Step m (broadcast_to_topic m topic message).0
    sweep : (now max_age : ℕ) → Step m (cleanup_stale_waiters m now max_age).0

  pub data Reach (m : PollManager M) : PollManager M → Type ℓ where
    here : Reach m m
    next : {m' m'' : PollManager M} → Reach m m' → Step m' m'' → Reach m m''

  pub Step-IsIndexed : {m m' : PollManager M} → Step m m' → IsIndexed m → IsIndexed m'
  Step-IsIndexed {m} (create c now topics user fresh) h =
      create_waiter-IsIndexed m c now topics user fresh h
  Step-IsIndexed {m} (remove c) h = remove_waiter-IsIndexed m c h
  Step-IsIndexed {m} (wake c w found) h =
      let (topics, user) = topics-wait_for_messages w in
      replace-IsIndexed m c w _ found topics user h
  Step-IsIndexed {m} (broadcast topic message) h = broadcast_to_topic-IsIndexed m topic message h
  Step-IsIndexed {m} (sweep now max_age) h =
      let (removes, counts, indexed) = cleanup_exact m now max_age h in indexed

  Reach-from : {m m' : PollManager M} → Reach m m' → IsIndexed m → IsIndexed m'
  Reach-from here h = h
  Reach-from (next r s) h = Step-IsIndexed s (Reach-from r h)

  -- From a new manager, after any steps: the subscribers of a topic are exactly the waiters that
  -- wait for it, the counter of each user is the number of the user's waiters, and that number is
  -- at most `max_waiters_per_user`.
  pub Reach-IsIndexed :
      (max_waiters : ℕ) (m : PollManager M) → Reach (init max_waiters) m → IsIndexed m
  Reach-IsIndexed max_waiters m r = Reach-from r (init-IsIndexed max_waiters)

  create_waiter_at_limit :
      (m : PollManager M) (c : String) (now : ℕ) (topics : List String) (u : String)
      → is_none (create_waiter m c now topics (some u)).1
        ≡ leb m.max_waiters_per_user (count_of m.per_user_count u)
  unfolding create_waiter
  create_waiter_at_limit m c now topics u = ground arith

  waiters-create_waiter :
      (m : PollManager M) (c : String) (now : ℕ) (topics : List String) (u : String)
      → (create_waiter m c now topics (some u)).0.waiters ≡ (
          if leb m.max_waiters_per_user (count_of m.per_user_count u)
          then m.waiters
          else Dict.put m.waiters c (new_waiter c now topics (some u)))
  unfolding create_waiter admit new_waiter
  waiters-create_waiter m c now topics u = ground arith

  -- In an indexed manager the creation of a waiter for a user fails exactly if the user has
  -- `max_waiters_per_user` waiters or more. It then leaves all waiters as they were, and otherwise
  -- adds the new waiter.
  pub create_waiter_limit :
      (m : PollManager M) (c : String) (now : ℕ) (topics : List String) (u : String)
      → IsIndexed m
      → (is_none (create_waiter m c now topics (some u)).1
          ≡ leb m.max_waiters_per_user (count_by (owned_by u) m.waiters))
        × ((create_waiter m c now topics (some u)).0.waiters ≡ (
            if leb m.max_waiters_per_user (count_by (owned_by u) m.waiters)
            then m.waiters
            else Dict.put m.waiters c (new_waiter c now topics (some u))))
  create_waiter_limit m c now topics u h = (
    create_waiter_at_limit m c now topics u ∙ ap (leb m.max_waiters_per_user) (h.counted u),
    rw (← h.counted u) (waiters-create_waiter m c now topics u),
  )
