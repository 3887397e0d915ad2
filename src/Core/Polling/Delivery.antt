-- ===== src/Core/Polling/Delivery.antt =====
-- What a broadcast puts into the waiters' queues, and what the clean-up removes.
use pulsar_relay.Prelude.{
  String, eq_iff, ◌≡◌, refl, sym, ap, ◌∙◌, inl, inr, Bool, true, false, ◌&&◌, ◌||◌, Option, none,
  some, List, [], ◌∷◌, arith, if◌then◌else◌, Option-cases, length, ◌==◌, nat_eq, string_eq, pair_eq,
}
use pulsar_relay.Dict
use pulsar_relay.Dict.{contains, member, add, discard}
use pulsar_relay.Dict.Laws.{member-cons_self, member-cons_of_member, get-put}
use pulsar_relay.Dict.Multi.{member-members, members}
use pulsar_relay.Dict.Distinct.{Distinct}
use pulsar_relay.Core.Polling.{
  PollWaiter, PollManager, put_message, is_full, deliver, deliver_all, broadcast_to_topic,
}
use pulsar_relay.Core.Polling.Invariant.{waits, IsIndexed}

module _ {ℓ} {M : Type ℓ} where
  -- A waiter after a broadcast that did or did not go to it.
  abbrev pub received : Bool → M → Option (PollWaiter M) → Option (PollWaiter M)
  received sent message none = none
  received sent message (some w) = some (if sent then (put_message w message).0 else w)

  get-deliver :
      (waiters : List (String × PollWaiter M)) (id : String) (message : M) (c : String)
      → Dict.get (deliver waiters id message).0 c ≡ received (id == c) message (Dict.get waiters c)
  unfolding deliver
  get-deliver waiters id message c = elim (Option-cases (Dict.get waiters id)) [
    | inl missing ↦ ground (arith, eq_iff id c)
    | inr (w, found) ↦ ground (arith, get-put waiters id c (put_message w message).0, eq_iff id c)
  ]

  received-received :
      (a b : Bool) (message : M) (o : Option (PollWaiter M))
      → (a && b) ≡ false
      → received b message (received a message o) ≡ received (a || b) message o
  received-received a b message o h = ground arith

  get-deliver_all :
      (waiters : List (String × PollWaiter M)) (ids : List String) (message : M) (c : String)
      → Distinct ids
      → Dict.get (deliver_all waiters ids message).0 c
        ≡ received (member ids c) message (Dict.get waiters c)
  unfolding deliver_all member
  get-deliver_all waiters [] message c d = ground arith
  get-deliver_all waiters (id ∷ ids) message c d = ground (
    arith,
    get-deliver_all (deliver waiters id message).0 ids message c d.1,
    get-deliver waiters id message c,
    received-received (id == c) (member ids c) message (Dict.get waiters c),
    d.0,
    eq_iff id c,
  )

  found-deliver :
      (waiters : List (String × PollWaiter M)) (id : String) (message : M)
      → contains waiters id ≡ true
      → (deliver waiters id message).1 ≡ true
  unfolding deliver
  found-deliver waiters id message h = ground arith

  contains-deliver :
      (waiters : List (String × PollWaiter M)) (id : String) (message : M) (c : String)
      → contains (deliver waiters id message).0 c ≡ contains waiters c
  contains-deliver waiters id message c = ground (arith, get-deliver waiters id message c)

  count-deliver_all :
      (waiters : List (String × PollWaiter M)) (ids : List String) (message : M)
      → Distinct ids
      → ((c : String) → member ids c ≡ true → contains waiters c ≡ true)
      → (deliver_all waiters ids message).1 ≡ length ids
  unfolding deliver_all
  count-deliver_all waiters [] message d h = refl
  count-deliver_all waiters (id ∷ ids) message d h = ground (
    arith,
    count-deliver_all (deliver waiters id message).0 ids message d.1 (λ c listed.
        contains-deliver waiters id message c ∙ h c (member-cons_of_member id ids c listed)),
    found-deliver waiters id message (h id (member-cons_self id ids)),
  )

  known_of_waits :
      (waiters : List (String × PollWaiter M)) (c t : String)
      → waits waiters c t ≡ true
      → contains waiters c ≡ true
  known_of_waits waiters c t h = ground arith

  -- In an indexed manager a broadcast puts the message into the queue of exactly the waiters of the
  -- topic (a full queue drops it), leaves all other waiters as they were, and returns the number of
  -- the topic's subscribers.
  pub broadcast_to_topic_exact :
      (m : PollManager M) (topic : String) (message : M)
      → IsIndexed m
      → ((c : String)
          → Dict.get (broadcast_to_topic m topic message).0.waiters c
            ≡ received (waits m.waiters c topic) message (Dict.get m.waiters c))
        × ((broadcast_to_topic m topic message).1 ≡ length (members m.topic_subscribers topic))
  unfolding broadcast_to_topic
  broadcast_to_topic_exact m topic message h = (
    λ c.
        get-deliver_all m.waiters (members m.topic_subscribers topic) message c (h.distinct topic)
        ∙ ap (λ b. received b message (Dict.get m.waiters c))
            (member-members m.topic_subscribers topic c ∙ h.subscribed topic c),
    count-deliver_all m.waiters (members m.topic_subscribers topic) message (h.distinct topic)
        (λ c listed. known_of_waits m.waiters c topic (
          sym (h.subscribed topic c)
          ∙ (sym (member-members m.topic_subscribers topic c) ∙ listed))),
  )

  received_full :
      (sent : Bool) (message : M) (o : Option (PollWaiter M))
      → ((w : PollWaiter M) → o ≡ some w → is_full w ≡ true)
      → received sent message o ≡ o
  unfolding put_message
  received_full sent message none full = refl
  received_full sent message (some w) full = ground (arith, full w refl)

  -- A message that every queue drops is still counted as delivered: if the queues of all waiters
  -- are full, a broadcast changes no waiter and returns the number of the topic's subscribers.
  pub broadcast_counts_dropped :
      (m : PollManager M) (topic : String) (message : M)
      → IsIndexed m
      → ((c : String) (w : PollWaiter M) → Dict.get m.waiters c ≡ some w → is_full w ≡ true)
      → ((c : String)
          → Dict.get (broadcast_to_topic m topic message).0.waiters c ≡ Dict.get m.waiters c)
        × ((broadcast_to_topic m topic message).1 ≡ length (members m.topic_subscribers topic))
  broadcast_counts_dropped m topic message h full =
      let (queues, count) = broadcast_to_topic_exact m topic message h in
      (
        λ c.
            queues c
            ∙ received_full (waits m.waiters c topic) message (Dict.get m.waiters c) (full c),
        count,
      )
