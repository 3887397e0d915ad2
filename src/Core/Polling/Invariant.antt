-- ===== src/Core/Polling/Invariant.antt =====
-- The indexes of `PollManager` describe its waiters, and no user exceeds the limit.
use pulsar_relay.Prelude.{
  ℕ, ◌+◌, ◌≤◌, String, eq_iff, ◌≡◌, refl, inl, inr, Bool, false, Option, none, some, List, [], ◌∷◌,
  arith, if◌then◌else◌, Bool-cases, Option-cases, ◌==◌, nat_eq, string_eq, pair_eq,
}
use pulsar_relay.Dict
use pulsar_relay.Dict.{contains, member, add, discard}
use pulsar_relay.Dict.Laws.{get-put, get-remove}
use pulsar_relay.Dict.Multi.{members, has}
use pulsar_relay.Dict.Keys.{
  DistinctKeys, count_by, count_by-put_new, count_by-remove, put-DistinctKeys, remove-DistinctKeys,
}
use pulsar_relay.Dict.Distinct.{AllDistinct}
use pulsar_relay.Core.Polling.{
  PollWaiter, PollManager, init, new_waiter, admit, create_waiter, remove_waiter, remove_all,
  count_of, decremented, unsubscribe_all, at_limit, after_limit_test,
}
use pulsar_relay.Core.Polling.Index.{
  member-set_of, has-subscribe_all, has-unsubscribe_all, subscribe_all-AllDistinct,
  unsubscribe_all-AllDistinct, count_of-touched, one_if, count_of-incremented, count_of-decremented,
}

abbrev pub is_user : String → Option String → Bool
is_user u none = false
is_user u (some user) = user == u

owned_by-one_if :
    (u : String) (user : Option String) → (if is_user u user then 1 else 0) ≡ one_if user u
owned_by-one_if u none = refl
owned_by-one_if u (some user) = refl

module _ {ℓ} {M : Type ℓ} where
  -- The waiter `c` exists and waits for `topic`.
  abbrev pub waits : List (String × PollWaiter M) → String → String → Bool
  waits waiters c topic = elim (Dict.get waiters c) [
    | none ↦ false
    | some w ↦ member w.topics topic
  ]

  abbrev pub owned_by : String → PollWaiter M → Bool
  owned_by u w = is_user u w.user_id

  pub record IsIndexed (m : PollManager M) : Type ℓ where
    -- the subscribers of a topic are the waiters that wait for it
    pub subscribed : (t c : String) → has m.topic_subscribers t c ≡ waits m.waiters c t
    -- the counter of a user is the number of the user's waiters
    pub counted : (u : String) → count_of m.per_user_count u ≡ count_by (owned_by u) m.waiters
    -- which is within the limit
    pub limited : (u : String) → count_of m.per_user_count u ≤ m.max_waiters_per_user
    pub keyed : DistinctKeys m.waiters
    pub distinct : AllDistinct m.topic_subscribers

  admit-IsIndexed :
      (m : PollManager M) (c : String) (now : ℕ) (topics : List String) (user : Option String)
      → contains m.waiters c ≡ false
      → ((u : String) → count_of m.per_user_count u + one_if user u ≤ m.max_waiters_per_user)
      → IsIndexed m
      → IsIndexed (admit m (new_waiter c now topics user) topics)
  unfolding admit new_waiter
  admit-IsIndexed m c now topics user fresh room h = record {
    subscribed = λ t c'. ground (
      arith,
      has-subscribe_all m.topic_subscribers c topics t c',
      get-put m.waiters c c' (new_waiter c now topics user),
      member-set_of topics t,
      h.subscribed t c',
      eq_iff c c',
    );
    counted = λ u. omega (
      arith,
      count_of-incremented m.per_user_count user u,
      count_by-put_new (owned_by u) m.waiters c (new_waiter c now topics user) fresh,
      h.counted u,
      owned_by-one_if u user,
    );
    limited = λ u. omega (arith, count_of-incremented m.per_user_count user u, room u);
    keyed = put-DistinctKeys m.waiters c _ h.keyed;
    distinct = subscribe_all-AllDistinct m.topic_subscribers c topics h.distinct;
  }

  tested-IsIndexed :
      (m : PollManager M) (user : Option String) → IsIndexed m → IsIndexed (after_limit_test m user)
  tested-IsIndexed m none h = h
  tested-IsIndexed m (some user) h = record {
    subscribed = h.subscribed;
    counted = λ u. rw (count_of-touched m.per_user_count user u) (h.counted u);
    limited = λ u. rw (count_of-touched m.per_user_count user u) (h.limited u);
    keyed = h.keyed;
    distinct = h.distinct;
  }

  room_after_test :
      (m : PollManager M) (user : Option String)
      → at_limit m user ≡ false
      → IsIndexed m
      → (u : String)
      → count_of (after_limit_test m user).per_user_count u + one_if user u
        ≤ (after_limit_test m user).max_waiters_per_user
  room_after_test m none below h u = omega (arith, h.limited u)
  room_after_test m (some user) below h u =
      ground (arith, count_of-touched m.per_user_count user u, h.limited u, eq_iff user u)

  contains-tested :
      (m : PollManager M) (user : Option String) (c : String)
      → contains (after_limit_test m user).waiters c ≡ contains m.waiters c
  contains-tested m none c = refl
  contains-tested m (some user) c = refl

  pub create_waiter-IsIndexed :
      (m : PollManager M) (c : String) (now : ℕ) (topics : List String) (user : Option String)
      → contains m.waiters c ≡ false
      → IsIndexed m
      → IsIndexed (create_waiter m c now topics user).0
  unfolding create_waiter
  create_waiter-IsIndexed m c now topics user fresh h = elim (Bool-cases (at_limit m user)) [
    | inl full ↦ rw full (tested-IsIndexed m user h)
    | inr below ↦ rw below (
        admit-IsIndexed (after_limit_test m user) c now topics user
          (rw (contains-tested m user c) fresh) (room_after_test m user below h)
          (tested-IsIndexed m user h))
  ]

  remove_waiter_found-IsIndexed :
      (m : PollManager M) (c : String) (w : PollWaiter M)
      → Dict.get m.waiters c ≡ some w
      → IsIndexed m
      → IsIndexed (record m {
        waiters = Dict.remove m.waiters c;
        topic_subscribers = unsubscribe_all m.topic_subscribers c w.topics;
        per_user_count = decremented m.per_user_count w.user_id;
      })
  remove_waiter_found-IsIndexed m c w found h = record {
    subscribed = λ t c'. ground (
      arith,
      has-unsubscribe_all m.topic_subscribers c w.topics t c',
      get-remove m.waiters c c',
      h.subscribed t c',
      eq_iff c c',
    );
    counted = λ u. omega (
      arith,
      count_of-decremented m.per_user_count w.user_id u,
      count_by-remove (owned_by u) m.waiters c h.keyed found,
      h.counted u,
      owned_by-one_if u w.user_id,
    );
    limited = λ u. omega (arith, count_of-decremented m.per_user_count w.user_id u, h.limited u);
    keyed = remove-DistinctKeys m.waiters c h.keyed;
    distinct = unsubscribe_all-AllDistinct m.topic_subscribers c w.topics h.distinct;
  }

  pub remove_waiter-IsIndexed :
      (m : PollManager M) (c : String) → IsIndexed m → IsIndexed (remove_waiter m c)
  unfolding remove_waiter
  remove_waiter-IsIndexed m c h = elim (Option-cases (Dict.get m.waiters c)) [
    | inl missing ↦ rw (missing, remove_waiter) h
    | inr (w, found) ↦ rw (found, remove_waiter) (remove_waiter_found-IsIndexed m c w found h)
  ]

  pub remove_all-IsIndexed :
      (m : PollManager M) (cs : List String) → IsIndexed m → IsIndexed (remove_all m cs)
  unfolding remove_all
  remove_all-IsIndexed m [] h = h
  remove_all-IsIndexed m (c ∷ cs) h =
      remove_all-IsIndexed (remove_waiter m c) cs (remove_waiter-IsIndexed m c h)

  pub init-IsIndexed : (max_waiters : ℕ) → IsIndexed (init {M = M} max_waiters)
  unfolding init count_of count_by has member members Dict.get
  init-IsIndexed max_waiters = record {
    subscribed = λ t c. refl;
    counted = λ u. refl;
    limited = λ u. omega arith;
    keyed = tt;
    distinct = λ t. tt;
  }
