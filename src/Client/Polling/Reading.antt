-- ===== src/Client/Polling/Reading.antt =====
-- Polls against the relay's own endpoint: a client that resumes from a cursor reads what is stored.
use mathlib.Core.List.{append-nil}
use pulsar_relay.Prelude.{
  ℕ, zero, suc, ◌<◌, String, ◌≡◌, refl, sym, ap, ◌∙◌, Bool, false, Option, none, some, List, [],
  ◌∷◌, ◌++◌, arith, eq_iff, leb, length, inr, ◌⊎◌, All, ◌==◌, nat_eq, string_eq, pair_eq,
}
use pulsar_relay.Dict.{contains}
use pulsar_relay.Core.Polling.{PollManager, count_of}
use pulsar_relay.Core.Polling.Invariant.{IsIndexed}
use pulsar_relay.Auth.Topics.{TopicStorage}
use pulsar_relay.Auth.Users.{User}
use pulsar_relay.Storage.Memory.{MemoryStorage, StoredMessage, buffer, storage_key, get_messages}
use pulsar_relay.Storage.Memory.Reading.{
  DistinctIds, ordered, last_id, read_pages, unless_empty, read_from,
}
use pulsar_relay.Api.Models.{WebSocketMessage}
use pulsar_relay.Api.Polling.{
  PollError, PollResponse, Polled, stored, stored_as, denied_topics, backlog, catch_up, cursors,
}
use pulsar_relay.Api.Polling.Backlog.{poll_catches_up}
use pulsar_relay.Api.Polling.Waiting.{poll_receives}
use pulsar_relay.Client.Auth.{AuthManager, valid_token}
use pulsar_relay.Client.Auth.Cache.{get_token_warm}
use pulsar_relay.Client.Cursors.{Cursors, get_last_message_id}
use pulsar_relay.Client.Polling.{
  Received, response, PollResult, received, poll_data, track_all, concluded, after_request,
  first_request, long_poll,
}
use pulsar_relay.Client.Polling.Tracking.{latest, names, or_else, cursor-track_all}
use pulsar_relay.Client.Polling.Pages.{HasId, DistinctIds-HasId, page-HasId}
use pulsar_relay.Client.Polling.Service.{
  as_json, all_json, http, as_request, endpoint_env, collected, unless_none, valid_poll, cursor_of,
  get_one,
}

module _ {ℓ} {P : Type ℓ} (topics : TopicStorage) (st : MemoryStorage P) (user : User)
    (client_id topic : String) (timeout : ℕ) (writes : Bool) where
  unfoldable pub consume :
      ℕ
      → AuthManager
      → Cursors
      → PollManager (WebSocketMessage P)
      → List (Received (Polled P (WebSocketMessage P)))
  consume zero m c pm = []
  consume (suc polls) m c pm =
      let (m', (c', (pm', result))) =
        long_poll (endpoint_env topics st user client_id writes) m c (topic ∷ []) timeout pm in
      let rest = consume polls m' c' pm' in unless_none (collected result) rest

  abbrev pub stored_json : List (StoredMessage P) → List (Received (Polled P (WebSocketMessage P)))
  stored_json xs = all_json (stored_as topic xs)

  one_page :
      (id : String)
      → backlog {M = WebSocketMessage P} st user.user_id ((topic, id) ∷ []) (topic ∷ [])
        ≡ stored_as topic (get_messages st user.user_id topic (some id) 100 false)
  unfolding backlog
  one_page id =
      append-nil _
      ∙ ap (λ cursor. stored_as topic (get_messages st user.user_id topic cursor 100 false))
          (get_one topic id)

  last_id-some :
      (page : List (StoredMessage P)) (id : String)
      → (id' : String) × (last_id page (some id) ≡ some id')
  unfolding last_id
  last_id-some [] id = (id, refl)
  last_id-some (x ∷ page) id = last_id-some page x.message_id

  stored_json-append :
      (xs ys : List (StoredMessage P)) → stored_json (xs ++ ys) ≡ stored_json xs ++ stored_json ys
  stored_json-append [] ys = refl
  stored_json-append (x ∷ xs) ys = ap (◌∷◌ (as_json (stored topic x))) (stored_json-append xs ys)

  names_stored :
      (x : StoredMessage P)
      → (topic == "") ≡ false
      → HasId x
      → names (as_json (stored topic x)) topic ≡ some x.message_id
  names_stored x named h = ground (arith, eq_iff topic topic)

  latest-last_id :
      (page : List (StoredMessage P)) (old : Option String)
      → (topic == "") ≡ false
      → All HasId page
      → latest topic (stored_json page) old ≡ last_id page old
  unfolding latest last_id
  latest-last_id [] old named h = refl
  latest-last_id (x ∷ page) old named h =
      ap (λ n. latest topic (stored_json page) (or_else n old)) (names_stored x named h.0)
      ∙ latest-last_id page (some x.message_id) named h.1

  module _ (m : AuthManager) (token : String) (warm : valid_token m 0 ≡ some token)
      (named : (topic == "") ≡ false) (allowed : denied_topics topics user (topic ∷ []) ≡ []) where
    -- `catch_up` behind `cursors`.
    abbrev caught_up : Option (List (String × String)) → List (Polled P (WebSocketMessage P))
    caught_up none = []
    caught_up (some since) = backlog st user.user_id since (topic ∷ [])

    -- A poll with something behind the cursor.
    page_poll :
        (c : Cursors) (pm : PollManager (WebSocketMessage P)) (id : String) (x : StoredMessage P)
        (xs : List (StoredMessage P))
        → get_last_message_id c topic ≡ some id
        → get_messages st user.user_id topic (some id) 100 false ≡ x ∷ xs
        → long_poll (endpoint_env topics st user client_id writes) m c (topic ∷ []) timeout pm
          ≡ (m, (track_all writes c (stored_json (x ∷ xs)), (pm, received (stored_json (x ∷ xs)))))
    unfolding long_poll first_request after_request concluded poll_data
    page_poll c pm id x xs at page =
        let env = endpoint_env topics st user client_id writes in
        let q = poll_data c (topic ∷ []) timeout in
        let behind : backlog {M = WebSocketMessage P} st user.user_id ((topic, id) ∷ [])
              (topic ∷ [])
            ≡ stored topic x ∷ stored_as topic xs =
          one_page id ∙ ap (stored_as topic) page in
        let (answer, run, messages, complete) =
          poll_catches_up topics st pm client_id 0 user (as_request q) topic [] (topic, id) []
            (stored topic x) (stored_as topic xs) (λ pm'. pm') refl
            (cursor_of c topic id timeout at) (valid_poll c topic timeout) allowed behind in
        ap (first_request env c q) (get_token_warm env.clock env.authenticate m pm token warm)
        ∙ ap (after_request env m c q)
            (ap http run ∙ ap (λ ms. (pm, response 200 (all_json ms))) (messages ∙ behind))

    http-inr :
        (after : PollManager (WebSocketMessage P)
          × (PollError ⊎ PollResponse P (WebSocketMessage P)))
        (answer : PollResponse P (WebSocketMessage P))
        → after.1 ≡ inr answer
        → http after ≡ (after.0, response 200 (all_json answer.messages))
    http-inr (pm, r) answer e = ap (λ r'. http (pm, r')) e

    module _ (pm : PollManager (WebSocketMessage P)) (indexed : IsIndexed pm)
        (unused : contains pm.waiters client_id ≡ false)
        (below : leb pm.max_waiters_per_user (count_of pm.per_user_count user.user_id)
          ≡ false) where
      -- A poll with nothing behind the cursor waits, and is handed nothing.
      empty_poll :
          (c : Cursors) (id : String)
          → get_last_message_id c topic ≡ some id
          → get_messages st user.user_id topic (some id) 100 false ≡ []
          → collected
              (long_poll
                (endpoint_env topics st user client_id writes)
                m
                c
                (topic ∷ [])
                timeout
                pm).1.1.1
            ≡ []
      unfolding long_poll first_request after_request concluded poll_data track_all catch_up
      empty_poll c id at page =
          let env = endpoint_env topics st user client_id writes in
          let q = poll_data c (topic ∷ []) timeout in
          let nothing : catch_up {M = WebSocketMessage P} st user (as_request q) ≡ [] =
            ap (λ since. caught_up (cursors since)) (cursor_of c topic id timeout at)
            ∙ one_page id
            ∙ ap (stored_as topic) page in
          let (answer, gone, kept) =
            poll_receives topics st pm client_id 0 user (as_request q) topic [] [] indexed unused
              refl (valid_poll c topic timeout) allowed nothing below (omega arith) in
          ap (λ o. collected (first_request env c q o).1.1.1)
            (get_token_warm env.clock env.authenticate m pm token warm)
          ∙ ap (λ o. collected (after_request env m c q o).1.1.1) (http-inr _ _ answer)

      -- One poll of the consumer, and what it makes of the rest.
      abbrev onward :
          ℕ
          → AuthManager
            × (Cursors
                × (PollManager (WebSocketMessage P) × PollResult (Polled P (WebSocketMessage P))))
          → List (Received (Polled P (WebSocketMessage P)))
      onward polls o = unless_none (collected o.1.1.1) (consume polls o.0 o.1.0 o.1.1.0)

      abbrev pages_from : ℕ → String → List (StoredMessage P) → List (StoredMessage P)
      pages_from polls id page =
          unless_empty page
            (read_pages polls st user.user_id topic 100 false (last_id page (some id)))

      consume_page :
          (polls : ℕ) (c : Cursors) (id : String) (page : List (StoredMessage P))
          → get_last_message_id c topic ≡ some id
          → get_messages st user.user_id topic (some id) 100 false ≡ page
          → All HasId page
          → ((c' : Cursors) (id' : String)
              → get_last_message_id c' topic ≡ some id'
              → consume polls m c' pm
                ≡ stored_json (read_pages polls st user.user_id topic 100 false (some id')))
          → onward polls
              (long_poll (endpoint_env topics st user client_id writes) m c (topic ∷ []) timeout pm)
            ≡ stored_json (pages_from polls id page)
      consume_page polls c id [] at page h later =
          ap
            (λ ms. unless_none ms (
              let o =
                long_poll (endpoint_env topics st user client_id writes) m c (topic ∷ []) timeout
                  pm in
              consume polls o.0 o.1.0 o.1.1.0))
            (empty_poll c id at page)
      consume_page polls c id (x ∷ xs) at page h later =
          let c' = track_all writes c (stored_json (x ∷ xs)) in
          let (id', last) = last_id-some (x ∷ xs) id in
          let moved : get_last_message_id c' topic ≡ some id' =
            cursor-track_all writes c (stored_json (x ∷ xs)) topic
            ∙ latest-last_id (x ∷ xs) (get_last_message_id c topic) named h
            ∙ ap (last_id (x ∷ xs)) at
            ∙ last in
          ap (onward polls) (page_poll c pm id x xs at page)
          ∙ ap (λ rest. stored_json (x ∷ xs) ++ rest) (later c' id' moved)
          ∙ sym (stored_json-append (x ∷ xs) _)
          ∙ ap (λ o. stored_json ((x ∷ xs) ++ read_pages polls st user.user_id topic 100 false o))
              (sym last)

      -- What the consumer is handed is what a reader of pages reads.
      consume-pages :
          (polls : ℕ) (c : Cursors) (id : String)
          → All HasId (buffer st (storage_key user.user_id topic))
          → get_last_message_id c topic ≡ some id
          → consume polls m c pm
            ≡ stored_json (read_pages polls st user.user_id topic 100 false (some id))
      unfolding consume read_pages
      consume-pages zero c id h at = refl
      consume-pages (suc polls) c id h at =
          consume_page polls c id (get_messages st user.user_id topic (some id) 100 false) at refl
            (page-HasId st user.user_id topic (some id) h)
            (λ c' id' at'. consume-pages polls c' id' h at')

      -- Resuming is reading on: let the client's cursor for a topic stand at a stored message `x`,
      -- with `before` stored before it and `later` after it, the identifiers distinct and not
      -- empty. A consumer that polls the topic until a poll hands it nothing, with more polls to
      -- spend than messages are left, is handed exactly the messages of `later`, each once and in
      -- order, though each answer holds at most 100. Meanwhile nobody publishes or polls, and the
      -- client's clock stands still, at a time at which its cached token is valid; the topic's name
      -- is not empty, and the user may read the topic; the poll manager is well formed, waits for no
      -- client of the drawn identifier, and the user is below the limit of waiters.
      pub resumed_reads_all :
          (polls : ℕ) (c : Cursors) (before later : List (StoredMessage P)) (x : StoredMessage P)
          → get_last_message_id c topic ≡ some x.message_id
          → buffer st (storage_key user.user_id topic) ≡ (before ++ x ∷ []) ++ later
          → DistinctIds ((before ++ x ∷ []) ++ later)
          → length later < polls
          → consume polls m c pm ≡ stored_json later
      unfolding ordered
      resumed_reads_all polls c before later x at split distinct enough =
          consume-pages polls c x.message_id
            (rw split (DistinctIds-HasId ((before ++ x ∷ []) ++ later) distinct)) at
          ∙ ap stored_json (
              read_from polls st user.user_id topic 99 false (some x.message_id) (before ++ x ∷ [])
                later enough (inr (before, x, refl, refl)) split distinct)
