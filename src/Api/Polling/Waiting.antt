-- ===== src/Api/Polling/Waiting.antt =====
-- What a request that waits is answered, and what it leaves in the poll manager.
use pulsar_relay.Prelude.{
  ℕ, ◌≤◌, String, ◌≡◌, refl, sym, ap, ◌∙◌, inr, ◌⊎◌, true, false, none, some, List, [], ◌∷◌, ◌++◌,
  arith, leb, length, nat_eq, string_eq, pair_eq,
}
use mathlib.Core.Path.{subst}
use pulsar_relay.Dict
use pulsar_relay.Dict.{contains}
use pulsar_relay.Core.Polling.{
  PollManager, PollWaiter, new_waiter, count_of, create_waiter, remove_waiter, wait_for_messages,
}
use pulsar_relay.Core.Polling.Invariant.{
  IsIndexed, create_waiter-IsIndexed, remove_waiter-IsIndexed,
}
use pulsar_relay.Core.Polling.Wakes.{
  broadcast_all, messages_for, holding, get-broadcast_all, broadcast_all-IsIndexed, wait-queue,
  get-remove_waiter, create_waiter_below, messages_for-set_of,
}
use pulsar_relay.Auth.Topics.{TopicStorage}
use pulsar_relay.Auth.Users.{User}
use pulsar_relay.Storage.Memory.{MemoryStorage}
use pulsar_relay.Api.Polling.{
  PollRequest, is_valid_request, PollError, PollResponse, live_as, denied_topics, composite_topics,
  catch_up, answer_or_wait, start_waiting, after_limit, after_begin, waiting, begin_poll,
  finish_poll, current, long_poll,
}

abbrev pub waiter_of {ℓ} : {M : Type ℓ} → String → ℕ → User → PollRequest → PollWaiter M
waiter_of client_id now user q =
    new_waiter client_id now (composite_topics user.user_id q.topics) (some user.user_id)

module _ {ℓ} {P M : Type ℓ} where
  begin_waits :
      (topics : TopicStorage) (st : MemoryStorage P) (pm : PollManager M) (client_id : String)
      (now : ℕ) (user : User) (q : PollRequest) (topic : String) (rest : List String)
      → q.topics ≡ topic ∷ rest
      → is_valid_request q ≡ true
      → denied_topics topics user q.topics ≡ []
      → catch_up {M = M} st user q ≡ []
      → begin_poll topics st pm client_id now user q
        ≡ after_limit (
            create_waiter pm client_id now
              (composite_topics user.user_id q.topics)
              (some user.user_id))
  unfolding begin_poll answer_or_wait start_waiting
  begin_waits topics st pm client_id now user q topic rest some_topic valid allowed caught_up =
      ground arith

  -- What the handler leaves when its waiter has handed out these messages.
  abbrev left_with :
      PollManager M → PollWaiter M → List M → PollManager M × (PollError ⊎ PollResponse P M)
  left_with pm w messages =
      (remove_waiter pm w.client_id, inr (record { messages = live_as messages; has_more = false }))

  -- The wait of an admitted waiter, during which broadcasts happen.
  waits_through :
      (pm : PollManager M) (w : PollWaiter M) (broadcasts : List (String × M))
      → IsIndexed pm
      → Dict.get pm.waiters w.client_id ≡ some w
      → w.queue ≡ []
      → length (messages_for w.topics broadcasts) ≤ w.queue_maxsize
      → after_begin {P = P} (λ m. broadcast_all m broadcasts) (pm, waiting w)
        ≡ left_with (broadcast_all pm broadcasts) w (messages_for w.topics broadcasts)
  unfolding after_begin finish_poll
  waits_through pm w broadcasts h found fresh room =
      let messages = messages_for w.topics broadcasts in
      ap (λ o. left_with (broadcast_all pm broadcasts) w (wait_for_messages (current w o)).1)
        (get-broadcast_all pm broadcasts w.client_id w h found (rw fresh (omega arith)))
      ∙ ap (left_with (broadcast_all pm broadcasts) w)
          (wait-queue (holding w messages) ∙ ap (λ queue. queue ++ messages) fresh)

  -- A request for topics that its user may read, with nothing to catch up with and below the limit
  -- of the user's waiters, is answered with exactly the messages that are broadcast to its
  -- topics, in its user's own namespace, during the wait, in their order, up to the bound of 1024 of
  -- its queue, and with `has_more` false. Its waiter is then gone, and the manager's indexes
  -- describe the waiters that remain.
  pub poll_receives :
      (topics : TopicStorage) (st : MemoryStorage P) (pm : PollManager M) (client_id : String)
      (now : ℕ) (user : User) (q : PollRequest) (topic : String) (rest : List String)
      (broadcasts : List (String × M))
      → IsIndexed pm
      → contains pm.waiters client_id ≡ false
      → q.topics ≡ topic ∷ rest
      → is_valid_request q ≡ true
      → denied_topics topics user q.topics ≡ []
      → catch_up {M = M} st user q ≡ []
      → leb pm.max_waiters_per_user (count_of pm.per_user_count user.user_id) ≡ false
      → length (messages_for (composite_topics user.user_id q.topics) broadcasts) ≤ 1024
      → (let after =
            long_poll topics st pm client_id now user q (λ m. broadcast_all m broadcasts) in
          (after.1
            ≡ inr (record {
              messages = live_as (messages_for (composite_topics user.user_id q.topics) broadcasts);
              has_more = false;
            }))
          × (Dict.get after.0.waiters client_id ≡ none)
          × IsIndexed after.0)
  unfolding long_poll new_waiter after_limit
  poll_receives topics st pm client_id now user q topic rest broadcasts h unused some_topic valid
        allowed caught_up below room =
      let channels = composite_topics user.user_id q.topics in
      let w = waiter_of client_id now user q in
      let pm' = (create_waiter pm client_id now channels (some user.user_id)).0 in
      let created = create_waiter_below pm client_id now channels user.user_id below in
      let indexed : IsIndexed pm' =
        create_waiter-IsIndexed pm client_id now channels (some user.user_id) unused h in
      let same : messages_for w.topics broadcasts ≡ messages_for channels broadcasts =
        messages_for-set_of channels broadcasts in
      let begun : begin_poll topics st pm client_id now user q ≡ (pm', waiting w) =
        begin_waits topics st pm client_id now user q topic rest some_topic valid allowed caught_up
        ∙ ap (λ o. after_limit (pm', o)) created.0 in
      let run : long_poll topics st pm client_id now user q (λ m. broadcast_all m broadcasts)
          ≡ left_with (broadcast_all pm' broadcasts) w (messages_for channels broadcasts) =
        ap (after_begin (λ m. broadcast_all m broadcasts)) begun
        ∙ waits_through pm' w broadcasts indexed created.1 refl (rw same room)
        ∙ ap (left_with (broadcast_all pm' broadcasts) w) same in
      (
        ap (λ o. o.1) run,
        ap (λ o. Dict.get o.0.waiters client_id) run
            ∙ get-remove_waiter (broadcast_all pm' broadcasts) client_id,
        subst IsIndexed (sym (ap (λ o. o.0) run)) (
            remove_waiter-IsIndexed (broadcast_all pm' broadcasts) client_id
              (broadcast_all-IsIndexed pm' broadcasts indexed)),
      )
