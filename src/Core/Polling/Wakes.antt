-- ===== src/Core/Polling/Wakes.antt =====
-- What a waiter holds after broadcasts, and what its removal leaves.
use pulsar_relay.Prelude.{
  ℕ, suc, ◌+◌, ◌≤◌, String, eq_iff, ◌≡◌, refl, ap, ◌∙◌, inl, inr, false, none, some, List, [], ◌∷◌,
  ◌++◌, arith, leb, if◌then◌else◌, Bool-cases, Option-cases, length, length-append, nat_eq,
  string_eq, pair_eq,
}
use mathlib.Core.List.{append-nil, append_assoc}
use pulsar_relay.Dict
use pulsar_relay.Dict.{contains, member}
use pulsar_relay.Dict.Laws.{get-put, get-remove}
use pulsar_relay.Core.Polling.{
  PollWaiter, PollManager, set_of, new_waiter, put_message, drain, wait_for_messages, create_waiter,
  admit, remove_waiter, broadcast_to_topic, count_of,
}
use pulsar_relay.Core.Polling.Index.{member-set_of}
use pulsar_relay.Core.Polling.Invariant.{waits, IsIndexed}
use pulsar_relay.Core.Polling.Delivery.{received, broadcast_to_topic_exact}
use pulsar_relay.Core.Polling.Runs.{broadcast, Step-IsIndexed}

module _ {ℓ} {M : Type ℓ} where
  -- Broadcasts, each to a topic.
  abbrev pub broadcast_all : PollManager M → List (String × M) → PollManager M
  broadcast_all m [] = m
  broadcast_all m ((topic, message) ∷ broadcasts) =
      broadcast_all (broadcast_to_topic m topic message).0 broadcasts

  -- The messages to the topics of a set.
  abbrev pub messages_for : List String → List (String × M) → List M
  messages_for topics [] = []
  messages_for topics ((topic, message) ∷ broadcasts) =
      if member topics topic
      then message ∷ messages_for topics broadcasts
      else messages_for topics broadcasts

  -- A waiter with more in its queue.
  abbrev pub holding : PollWaiter M → List M → PollWaiter M
  holding w messages = record w { queue = w.queue ++ messages }

  put_message_room :
      (w : PollWaiter M) (message : M)
      → length w.queue + 1 ≤ w.queue_maxsize
      → (put_message w message).0 ≡ holding w (message ∷ [])
  unfolding put_message
  put_message_room w message room = ground arith

  waits_found :
      (waiters : List (String × PollWaiter M)) (c topic : String) (w : PollWaiter M)
      → Dict.get waiters c ≡ some w
      → waits waiters c topic ≡ member w.topics topic
  waits_found waiters c topic w found = ground arith

  -- One broadcast, as the waiter `c` sees it.
  get-broadcast :
      (m : PollManager M) (topic : String) (message : M) (c : String) (w : PollWaiter M)
      → IsIndexed m
      → Dict.get m.waiters c ≡ some w
      → Dict.get (broadcast_to_topic m topic message).0.waiters c
        ≡ received (member w.topics topic) message (some w)
  get-broadcast m topic message c w h found =
      (broadcast_to_topic_exact m topic message h).0 c
      ∙ ap (λ b. received b message (Dict.get m.waiters c)) (waits_found m.waiters c topic w found)
      ∙ ap (received (member w.topics topic) message) found

  -- A waiter with room in its queue holds, after broadcasts, what it held before and then every
  -- message to one of its topics, in the order of the broadcasts.
  pub get-broadcast_all :
      (m : PollManager M) (broadcasts : List (String × M)) (c : String) (w : PollWaiter M)
      → IsIndexed m
      → Dict.get m.waiters c ≡ some w
      → length w.queue + length (messages_for w.topics broadcasts) ≤ w.queue_maxsize
      → Dict.get (broadcast_all m broadcasts).waiters c
        ≡ some (holding w (messages_for w.topics broadcasts))
  get-broadcast_all m [] c w h found room = rw append-nil found
  get-broadcast_all m ((topic, message) ∷ broadcasts) c w h found room =
      elim (Bool-cases (member w.topics topic)) [
        | inl mine ↦
            let seen = get-broadcast m topic message c w h found in
            let kept : length w.queue + suc (length (messages_for w.topics broadcasts))
                ≤ w.queue_maxsize =
              rw mine at room in
            rw mine (
              get-broadcast_all (broadcast_to_topic m topic message).0 broadcasts c
                (holding w (message ∷ [])) (Step-IsIndexed (broadcast topic message) h)
                (seen ∙ rw mine (ap some (put_message_room w message (omega arith))))
                (omega (arith, length-append w.queue (message ∷ [])))
              ∙ ap (λ q. some (record w { queue = q }))
                  (append_assoc w.queue (message ∷ []) (messages_for w.topics broadcasts)))
        | inr other ↦
            let kept : length w.queue + length (messages_for w.topics broadcasts)
                ≤ w.queue_maxsize =
              rw other at room in
            rw other (
              get-broadcast_all (broadcast_to_topic m topic message).0 broadcasts c w
                (Step-IsIndexed (broadcast topic message) h)
                (get-broadcast m topic message c w h found ∙ rw other refl) kept)
      ]

  pub broadcast_all-IsIndexed :
      (m : PollManager M) (broadcasts : List (String × M))
      → IsIndexed m
      → IsIndexed (broadcast_all m broadcasts)
  broadcast_all-IsIndexed m [] h = h
  broadcast_all-IsIndexed m ((topic, message) ∷ broadcasts) h =
      broadcast_all-IsIndexed (broadcast_to_topic m topic message).0 broadcasts
        (Step-IsIndexed (broadcast topic message) h)

  drain_lem : (queue : List M) → drain queue ≡ queue
  unfolding drain
  drain_lem [] = refl
  drain_lem (message ∷ queue) = ap (◌∷◌ message) (drain_lem queue)

  woken : (w : PollWaiter M) (queue : List M) → w.queue ≡ queue → (wait_for_messages w).1 ≡ queue
  unfolding wait_for_messages
  woken w [] e = rw (e, wait_for_messages) refl
  woken w (message ∷ queue) e = rw (e, wait_for_messages) (ap (◌∷◌ message) (drain_lem queue))

  -- A waiter hands out its whole queue.
  pub wait-queue : (w : PollWaiter M) → (wait_for_messages w).1 ≡ w.queue
  wait-queue w = woken w w.queue refl

  pub get-remove_waiter :
      (m : PollManager M) (c : String) → Dict.get (remove_waiter m c).waiters c ≡ none
  unfolding remove_waiter
  get-remove_waiter m c = elim (Option-cases (Dict.get m.waiters c)) [
    | inl missing ↦ rw (missing, remove_waiter) missing
    | inr (w, found) ↦
        rw (found, remove_waiter) (ground (arith, get-remove m.waiters c c, eq_iff c c))
  ]

  -- Below the limit a new waiter is admitted, and waits for its topics with an empty queue.
  pub create_waiter_below :
      (m : PollManager M) (c : String) (now : ℕ) (topics : List String) (u : String)
      → leb m.max_waiters_per_user (count_of m.per_user_count u) ≡ false
      → ((create_waiter m c now topics (some u)).1 ≡ some (new_waiter c now topics (some u)))
        × (Dict.get (create_waiter m c now topics (some u)).0.waiters c
            ≡ some (new_waiter c now topics (some u)))
  unfolding create_waiter admit new_waiter
  create_waiter_below m c now topics u below =
      rw (below, create_waiter)
        (
          refl,
          ground
              (arith, get-put m.waiters c c (new_waiter {M = M} c now topics (some u)), eq_iff c c),
        )

  -- The order and repetitions of the topics do not matter.
  pub messages_for-set_of :
      (topics : List String) (broadcasts : List (String × M))
      → messages_for (set_of topics) broadcasts ≡ messages_for topics broadcasts
  messages_for-set_of topics [] = refl
  messages_for-set_of topics ((topic, message) ∷ broadcasts) =
      rw (member-set_of topics topic, messages_for-set_of topics broadcasts) refl
