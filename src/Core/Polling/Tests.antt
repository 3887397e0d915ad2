-- ===== src/Core/Polling/Tests.antt =====
-- Runs of the poll manager.
use pulsar_relay.Prelude.{
  ℕ, String, ◌≡◌, refl, Bool, true, false, Option, none, some, List, [], ◌∷◌, arith, if◌then◌else◌,
  length, ◌==◌, nat_eq, string_eq, pair_eq,
}
use pulsar_relay.Dict
use pulsar_relay.Dict.{contains}
use pulsar_relay.Dict.Multi.{members}
use pulsar_relay.Core.Polling.{
  is_full, PollWaiter, PollManager, init, create_waiter, broadcast_to_topic,
}
use pulsar_relay.Dict.Keys.{count_by}
use pulsar_relay.Core.Polling.Invariant.{IsIndexed, waits}
use pulsar_relay.Core.Polling.Delivery.{received, broadcast_to_topic_exact}
use pulsar_relay.Dict.{member}
use pulsar_relay.Dict.Multi.{has}
use pulsar_relay.Core.Polling.{count_of}
use pulsar_relay.Dict.Distinct.{Distinct}
use pulsar_relay.Core.Polling.Runs.{create, broadcast, Reach, here, next, Reach-IsIndexed}

abbrev empty : PollManager ℕ
empty = init 1

-- One waiter of one user, with a message.
abbrev one : PollManager ℕ
one =
    (broadcast_to_topic (create_waiter empty "c1" 5 ("a/jobs" ∷ []) (some "alice")).0 "a/jobs" 7).0

fresh : contains empty.waiters "c1" ≡ false
unfolding init Dict.get
fresh = refl

one-Reach : Reach empty one
one-Reach =
    next (next here (create "c1" 5 ("a/jobs" ∷ []) (some "alice") fresh)) (broadcast "a/jobs" 7)

Reach-IsIndexed_example : IsIndexed one
Reach-IsIndexed_example = Reach-IsIndexed 1 one one-Reach

broadcast_to_topic_exact_example :
    ((c : String)
      → Dict.get (broadcast_to_topic one "a/jobs" 8).0.waiters c
        ≡ received (waits one.waiters c "a/jobs") 8 (Dict.get one.waiters c))
    × ((broadcast_to_topic one "a/jobs" 8).1 ≡ length (members one.topic_subscribers "a/jobs"))
broadcast_to_topic_exact_example =
    broadcast_to_topic_exact one "a/jobs" 8 (Reach-IsIndexed 1 one one-Reach)

-- The waiter's queue holds one message, and that is all it takes.
abbrev full_waiter : PollWaiter ℕ
full_waiter = record {
  client_id = "c1";
  user_id = none;
  topics = "a/jobs" ∷ [];
  queue = 7 ∷ [];
  queue_maxsize = 1;
  created_at = 5;
}

abbrev full : PollManager ℕ
full = record {
  waiters = ("c1", full_waiter) ∷ [];
  topic_subscribers = ("a/jobs", "c1" ∷ []) ∷ [];
  per_user_count = [];
  max_waiters_per_user = 1;
}

abbrev list_of : Option (List String) → List String
list_of none = []
list_of (some s) = s

Distinct-if : (b : Bool) → Distinct (list_of (if b then some ("c1" ∷ []) else none))
unfolding member
Distinct-if true = (refl, tt)
Distinct-if false = tt

full-IsIndexed : IsIndexed full
unfolding has members member Dict.get count_of count_by
full-IsIndexed = record {
  subscribed = λ t c. ground arith;
  counted = λ u. refl;
  limited = λ u. omega arith;
  keyed = (refl, tt);
  distinct = λ k. Distinct-if ("a/jobs" == k);
}

full_waiters : (c : String) (w : PollWaiter ℕ) → Dict.get full.waiters c ≡ some w → is_full w ≡ true
unfolding Dict.get
full_waiters c w e = ground arith
