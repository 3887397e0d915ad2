-- ===== src/Api/Polling/Backlog.antt =====
-- What a request that has to catch up is answered.
use pulsar_relay.Prelude.{
  ℕ, zero, suc, ◌+◌, ◌<◌, String, ◌≡◌, refl, sym, ap, ◌∙◌, inr, true, false, some, List, [], ◌∷◌,
  ◌++◌, arith, leb, length, length-append, take, nat_eq, string_eq, pair_eq,
}
use pulsar_relay.Dict
use pulsar_relay.Core.Polling.{PollManager}
use pulsar_relay.Auth.Topics.{TopicStorage}
use pulsar_relay.Auth.Users.{User}
use pulsar_relay.Storage.Memory.{
  MemoryStorage, StoredMessage, buffer, from_cursor, storage_key, get_messages,
}
use pulsar_relay.Api.Polling.{
  PollRequest, is_valid_request, PollResponse, Polled, stored_as, denied_topics, backlog, catch_up,
  answer_or_wait, after_begin, begin_poll, long_poll,
}

take_all {ℓ} :
    {P : Type ℓ} (n : ℕ) (xs : List (StoredMessage P)) → length (take n xs) < n → take n xs ≡ xs
take_all zero xs h = absurd (omega arith)
take_all (suc n) [] h = refl
take_all (suc n) (x ∷ xs) h = ap (◌∷◌ x) (take_all n xs (omega arith))

length-stored_as {ℓ} :
    {P : Type ℓ} (M : Type ℓ) (topic : String) (xs : List (StoredMessage P))
    → length (stored_as {M = M} topic xs) ≡ length xs
length-stored_as M topic [] = refl
length-stored_as M topic (x ∷ xs) = ap suc (length-stored_as M topic xs)

module _ {ℓ} {P M : Type ℓ} where
  -- Everything behind the cursors, without a limit.
  abbrev pub unread :
      MemoryStorage P → String → List (String × String) → List String → List (Polled P M)
  unread st owner_id since [] = []
  unread st owner_id since (topic ∷ topics) =
      stored_as topic (from_cursor (Dict.get since topic) (buffer st (storage_key owner_id topic)))
      ++ unread st owner_id since topics

  -- A backlog of fewer than 100 messages is complete.
  backlog_complete :
      (st : MemoryStorage P) (owner_id : String) (since : List (String × String))
      (topics : List String)
      → length (backlog {M = M} st owner_id since topics) < 100
      → backlog {M = M} st owner_id since topics ≡ unread st owner_id since topics
  unfolding backlog get_messages
  backlog_complete st owner_id since [] h = refl
  backlog_complete st owner_id since (topic ∷ topics) h =
      let all = from_cursor (Dict.get since topic) (buffer st (storage_key owner_id topic)) in
      let page = stored_as {M = M} topic (take 100 all) in
      let rest = backlog {M = M} st owner_id since topics in
      let lengths : length (page ++ rest) ≡ length (take 100 all) + length rest =
        length-append page rest
        ∙ ap (λ n. n + length rest) (length-stored_as M topic (take 100 all)) in
      ap (λ xs. stored_as topic xs ++ rest) (take_all 100 all (omega (arith, lengths)))
      ∙ ap (λ xs. stored_as topic all ++ xs)
          (backlog_complete st owner_id since topics (omega (arith, lengths)))

  answered_at_once :
      (topics : TopicStorage) (st : MemoryStorage P) (pm : PollManager M) (client_id : String)
      (now : ℕ) (user : User) (q : PollRequest) (topic : String) (rest : List String)
      (message : Polled P M) (messages : List (Polled P M))
      → q.topics ≡ topic ∷ rest
      → is_valid_request q ≡ true
      → denied_topics topics user q.topics ≡ []
      → catch_up st user q ≡ message ∷ messages
      → begin_poll topics st pm client_id now user q
        ≡ answer_or_wait pm client_id now user q.topics (message ∷ messages)
  unfolding begin_poll
  answered_at_once topics st pm client_id now user q topic rest message messages some_topic valid
        allowed behind =
      ground arith

  -- A request with cursors, for topics that its user may read, is answered at once if there is
  -- anything behind the cursors: with the messages of each of its topics behind the topic's cursor, in
  -- the order of the request's topics, at most 100 of each, and with the poll manager left alone. If
  -- the answer does not say `has_more`, then it holds everything that is behind the cursors.
  pub poll_catches_up :
      (topics : TopicStorage) (st : MemoryStorage P) (pm : PollManager M) (client_id : String)
      (now : ℕ) (user : User) (q : PollRequest) (topic : String) (rest : List String)
      (cursor : String × String) (since : List (String × String)) (message : Polled P M)
      (messages : List (Polled P M)) (others : PollManager M → PollManager M)
      → q.topics ≡ topic ∷ rest
      → q.since ≡ some (cursor ∷ since)
      → is_valid_request q ≡ true
      → denied_topics topics user q.topics ≡ []
      → backlog st user.user_id (cursor ∷ since) q.topics ≡ message ∷ messages
      → (response : PollResponse P M) × (long_poll topics st pm client_id now user q others
          ≡ (pm, inr response))
        × (response.messages ≡ backlog st user.user_id (cursor ∷ since) q.topics)
        × (response.has_more ≡ false
            → response.messages ≡ unread st user.user_id (cursor ∷ since) q.topics)
  unfolding long_poll answer_or_wait catch_up after_begin
  poll_catches_up topics st pm client_id now user q topic rest cursor since message messages others
        some_topic cursors_given valid allowed behind =
      (
        record { messages = message ∷ messages; has_more = leb 100 (length (message ∷ messages)) },
        ap (after_begin others) (
            answered_at_once topics st pm client_id now user q topic rest message messages
              some_topic valid allowed (rw (cursors_given, catch_up) behind)),
        sym behind,
        λ less.
            sym behind
            ∙ backlog_complete st user.user_id (cursor ∷ since) q.topics (rw behind (ground arith)),
      )
