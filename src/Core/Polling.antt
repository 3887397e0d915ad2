-- ===== src/Core/Polling.antt =====
-- pulsar_relay/core/polling.py: `PollWaiter` and `PollManager`.
pub mod Index
pub mod Invariant
pub mod Delivery
pub mod Cleanup
pub mod Runs
pub mod Wakes
mod Tests
use pulsar_relay.Prelude.{
  ℕ, zero, suc, ◌+◌, ◌-◌, ◌*◌, ◌/◌, ◌%◌, ◌≤◌, ◌<◌, min, max, String, eq_iff, ◌≡◌, refl, sym, ap,
  ◌∙◌, ◌≢◌, ◌↔◌, ◌⊎◌, inl, inr, Bool, true, false, not, ◌&&◌, ◌||◌, Option, none, some, List, [],
  ◌∷◌, ◌++◌, map, arith, ltb, leb, nat_beq, if◌then◌else◌, nat_beq_iff, Bool-cases, Option-cases,
  length, take, drop, length-append, length-drop, length-take-le, filter_by, Eq, ◌==◌, beq_self,
  nat_eq, string_eq, pair_beq, pair_beq_iff, pair_eq, texts_beq, texts_iff, All,
}
use pulsar_relay.Dict
use pulsar_relay.Dict.{contains, member, add, discard}
use pulsar_relay.Clock.{second, seconds}
use pulsar_relay.Dict.Multi
use pulsar_relay.Dict.Multi.{members, file, unfile}

abbrev pub default_waiter_queue_maxsize : ℕ
default_waiter_queue_maxsize = 1024

pub record PollWaiter {ℓ} (M : Type ℓ) : Type ℓ where
  pub client_id : String
  pub user_id : Option String
  pub topics : List String
  pub queue : List M
  pub queue_maxsize : ℕ
  pub created_at : ℕ

-- set(l)
abbrev pub set_of : List String → List String
set_of [] = []
set_of (x ∷ l) = add (set_of l) x

module _ {ℓ} {M : Type ℓ} where
  unfoldable pub new_waiter : String → ℕ → List String → Option String → PollWaiter M
  new_waiter client_id now topics user_id = record {
    client_id = client_id;
    user_id = user_id;
    topics = set_of topics;
    queue = [];
    queue_maxsize = default_waiter_queue_maxsize;
    created_at = now;
  }

  -- `asyncio.Queue.full`: a maximal size of 0 is no bound.
  abbrev pub is_full : PollWaiter M → Bool
  is_full w = ltb 0 w.queue_maxsize && leb w.queue_maxsize (length w.queue)

  -- A message for a full queue is dropped.
  pub put_message : PollWaiter M → M → PollWaiter M × Bool
  put_message w message =
      if is_full w then (w, false) else (record w { queue = w.queue ++ message ∷ [] }, true)

  -- `get_nowait` until the queue is empty.
  pub drain : List M → List M
  drain [] = []
  drain (message ∷ queue) = message ∷ drain queue

  -- The waiter wakes with its queue as the broadcasts have left it, or at the timeout with nothing.
  pub wait_for_messages : PollWaiter M → PollWaiter M × List M
  unfolding drain
  wait_for_messages w = elim w.queue [
    | [] ↦ (w, [])
    | first ∷ queue ↦ (record w { queue = [] }, first ∷ drain queue)
  ]

pub record PollManager {ℓ} (M : Type ℓ) : Type ℓ where
  pub waiters : List (String × PollWaiter M)
  pub topic_subscribers : List (String × List String)
  pub per_user_count : List (String × ℕ)
  pub max_waiters_per_user : ℕ

-- A read of a `defaultdict(int)`: the count.
unfoldable pub count_of : List (String × ℕ) → String → ℕ
count_of counts user = elim (Dict.get counts user) [ none ↦ 0 | some n ↦ n ]

-- The same read stores a missing count.
pub touched : List (String × ℕ) → String → List (String × ℕ)
unfolding count_of
touched counts user = if contains counts user then counts else Dict.put counts user 0

pub incremented : List (String × ℕ) → Option String → List (String × ℕ)
unfolding count_of
incremented counts none = counts
incremented counts (some user) = Dict.put counts user (count_of counts user + 1)

-- A count that falls to 0 is deleted.
pub decremented : List (String × ℕ) → Option String → List (String × ℕ)
unfolding count_of
decremented counts none = counts
decremented counts (some user) =
    if leb (count_of counts user - 1) 0
    then Dict.remove counts user
    else Dict.put counts user (count_of counts user - 1)

pub subscribe_all : List (String × List String) → String → List String → List (String × List String)
subscribe_all subscribers client_id [] = subscribers
subscribe_all subscribers client_id (topic ∷ topics) =
    subscribe_all (file subscribers topic client_id) client_id topics

pub unsubscribe_all :
    List (String × List String) → String → List String → List (String × List String)
unsubscribe_all subscribers client_id [] = subscribers
unsubscribe_all subscribers client_id (topic ∷ topics) =
    unsubscribe_all (unfile subscribers topic client_id) client_id topics

module _ {ℓ} {M : Type ℓ} where
  unfoldable pub init : ℕ → PollManager M
  init max_waiters = record {
    waiters = [];
    topic_subscribers = [];
    per_user_count = [];
    max_waiters_per_user = max_waiters;
  }

  admit : PollManager M → PollWaiter M → List String → PollManager M
  admit m waiter topics = record m {
    waiters = Dict.put m.waiters waiter.client_id waiter;
    per_user_count = incremented m.per_user_count waiter.user_id;
    topic_subscribers = subscribe_all m.topic_subscribers waiter.client_id topics;
  }

  abbrev pub at_limit : PollManager M → Option String → Bool
  at_limit m none = false
  at_limit m (some user) = leb m.max_waiters_per_user (count_of m.per_user_count user)

  abbrev pub after_limit_test : PollManager M → Option String → PollManager M
  after_limit_test m none = m
  after_limit_test m (some user) = record m { per_user_count = touched m.per_user_count user }

  -- The new waiter, or `none` for the PollWaiterLimitExceededError.
  pub create_waiter :
      PollManager M
      → String
      → ℕ
      → List String
      → Option String
      → PollManager M × Option (PollWaiter M)
  unfolding admit touched incremented
  create_waiter m client_id now topics user_id =
      let tested = after_limit_test m user_id in
      let waiter = new_waiter client_id now topics user_id in
      if at_limit m user_id then (tested, none) else (admit tested waiter topics, some waiter)

  pub remove_waiter : PollManager M → String → PollManager M
  remove_waiter m client_id = elim (Dict.get m.waiters client_id) [
    | none ↦ m
    | some waiter ↦ record m {
      waiters = Dict.remove m.waiters client_id;
      topic_subscribers = unsubscribe_all m.topic_subscribers client_id waiter.topics;
      per_user_count = decremented m.per_user_count waiter.user_id;
    }
  ]

  -- One round of the loop of `broadcast_to_topic`: the waiters, and whether one was found.
  pub deliver : List (String × PollWaiter M) → String → M → List (String × PollWaiter M) × Bool
  deliver waiters client_id message = elim (Dict.get waiters client_id) [
    | none ↦ (waiters, false)
    | some waiter ↦ (Dict.put waiters client_id (put_message waiter message).0, true)
  ]

  pub deliver_all :
      List (String × PollWaiter M) → List String → M → List (String × PollWaiter M) × ℕ
  deliver_all waiters [] message = (waiters, 0)
  deliver_all waiters (client_id ∷ client_ids) message =
      let (waiters', found) = deliver waiters client_id message in
      let (waiters'', count) = deliver_all waiters' client_ids message in
      (waiters'', if found then count + 1 else count)

  pub broadcast_to_topic : PollManager M → String → M → PollManager M × ℕ
  broadcast_to_topic m topic message =
      let (waiters', count) = deliver_all m.waiters (members m.topic_subscribers topic) message in
      (record m { waiters = waiters' }, count)

  -- The age in seconds is above `max_age_seconds`.
  abbrev pub is_stale : ℕ → ℕ → PollWaiter M → Bool
  is_stale now max_age_seconds w = ltb (w.created_at + seconds max_age_seconds) now

  pub stale_ids : ℕ → ℕ → List (String × PollWaiter M) → List String
  stale_ids now max_age_seconds waiters =
      map (λ entry. entry.0) (filter_by (λ entry. is_stale now max_age_seconds entry.1) waiters)

  pub remove_all : PollManager M → List String → PollManager M
  remove_all m [] = m
  remove_all m (client_id ∷ client_ids) = remove_all (remove_waiter m client_id) client_ids

  pub cleanup_stale_waiters : PollManager M → ℕ → ℕ → PollManager M × ℕ
  cleanup_stale_waiters m now max_age_seconds =
      let ids = stale_ids now max_age_seconds m.waiters in (remove_all m ids, length ids)

  -- `get_stats`: the waiters, the topics, and the subscribers of each topic.
  pub get_stats : PollManager M → ℕ × ℕ × List (String × ℕ)
  get_stats m = (
    length m.waiters,
    length m.topic_subscribers,
    map (λ entry. (entry.0, length entry.1)) m.topic_subscribers,
  )
