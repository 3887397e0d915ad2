-- ===== src/Api/Messages/Bulk/Accounts.antt =====
-- The books of a bulk request: what its summary counts, what it stores, and what a denial leaves.
use pulsar_relay.Prelude.{
  ℕ, suc, ◌+◌, String, ◌≡◌, refl, ap, ◌∙◌, Option, none, some, List, [], ◌∷◌, ◌++◌, map, arith,
  length, length-append, nat_eq, string_eq, pair_eq, ◌==◌, if◌then◌else◌,
}
use mathlib.Core.Path.{subst}
use mathlib.Core.List.{append-nil, append_assoc}
use pulsar_relay.Auth.Users.{User}
use pulsar_relay.Api.Models.{replies, Message, BulkMessageResult, BulkMessageResponse}
use pulsar_relay.Api.Relay.{Relay, World}
use pulsar_relay.Api.Messages.{channel_of, fan_out, saved}
use pulsar_relay.Api.Messages.Bulk.{
  Draws, Tally, accept, reject, no_tally, after_write, write_message, write_messages, ws_message,
  write_bulk, bulk_response,
}

-- How many results have this status.
unfoldable pub with_status : String → List BulkMessageResult → ℕ
with_status status [] = 0
with_status status (result ∷ results) =
    if result.status == status then suc (with_status status results) else with_status status results

-- The tally agrees with the topics of the messages handled so far.
record Balanced (topics : List String) (t : Tally) : Type 0 where
  listed : map (λ (r : BulkMessageResult). r.topic) t.results ≡ topics
  accepts : with_status "accepted" t.results ≡ t.accepted
  rejects : with_status "rejected" t.results ≡ t.rejected
  total : t.accepted + t.rejected ≡ length topics

with_status-append :
    (status : String) (xs : List BulkMessageResult) (x : BulkMessageResult)
    → with_status status (xs ++ x ∷ [])
      ≡ (if x.status == status then with_status status xs + 1 else with_status status xs)
unfolding with_status
with_status-append status [] x = ground arith
with_status-append status (y ∷ xs) x = ground (arith, with_status-append status xs x)

map-append_one :
    (xs : List BulkMessageResult) (x : BulkMessageResult)
    → map (λ (r : BulkMessageResult). r.topic) (xs ++ x ∷ [])
      ≡ map (λ (r : BulkMessageResult). r.topic) xs ++ x.topic ∷ []
map-append_one [] x = refl
map-append_one (y ∷ xs) x = ap (◌∷◌ y.topic) (map-append_one xs x)

accept-Balanced :
    (topics : List String) (id topic : String) (t : Tally)
    → Balanced topics t
    → Balanced (topics ++ topic ∷ []) (accept id topic t)
accept-Balanced topics id topic t b = record {
  listed = map-append_one t.results _ ∙ ap (λ l. l ++ topic ∷ []) b.listed;
  accepts = with_status-append "accepted" t.results _ ∙ ap (λ n. n + 1) b.accepts;
  rejects = with_status-append "rejected" t.results _ ∙ b.rejects;
  total = omega (arith, b.total, length-append topics (topic ∷ []));
}

reject-Balanced :
    (topics : List String) (topic error : String) (t : Tally)
    → Balanced topics t
    → Balanced (topics ++ topic ∷ []) (reject topic error t)
reject-Balanced topics topic error t b = record {
  listed = map-append_one t.results _ ∙ ap (λ l. l ++ topic ∷ []) b.listed;
  accepts = with_status-append "accepted" t.results _ ∙ b.accepts;
  rejects = with_status-append "rejected" t.results _ ∙ ap (λ n. n + 1) b.rejects;
  total = omega (arith, b.total, length-append topics (topic ∷ []));
}

none-Balanced : Balanced [] no_tally
unfolding with_status
none-Balanced = record { listed = refl; accepts = refl; rejects = refl; total = omega arith }

abbrev pub topics_of {ℓ} : {P : Type ℓ} → List (Message P) → List String
topics_of [] = []
topics_of (message ∷ messages) = message.topic ∷ topics_of messages

module _ {ℓ} {P : Type ℓ} (world : World) where
  after_write-Balanced :
      (d : Draws) (channel : String) (i : ℕ) (topic : String) (topics : List String) (t : Tally)
      (stored : Relay P) (o : Option (Relay P))
      → Balanced topics t
      → Balanced (topics ++ topic ∷ []) (after_write world d channel i topic t stored o).1
  unfolding after_write
  after_write-Balanced d channel i topic topics t stored (some r) b =
      accept-Balanced topics (d.message_id i) topic t b
  after_write-Balanced d channel i topic topics t stored none b =
      reject-Balanced topics topic (d.str_error channel) t b

  write_message-Balanced :
      (d : Draws) (user : User) (i : ℕ) (message : Message P) (topics : List String)
      (st : Relay P × Tally)
      → Balanced topics st.1
      → Balanced (topics ++ message.topic ∷ []) (write_message world d user i message st).1
  unfolding write_message
  write_message-Balanced d user i message topics (r, t) b =
      let channel = channel_of user.user_id message.topic in
      let stored = saved world r (d.message_id i) (d.time i) message user in
      after_write-Balanced d channel i message.topic topics t stored
        (fan_out world stored channel (ws_message world d i message)) b

  write_messages-Balanced :
      (d : Draws) (user : User) (i : ℕ) (messages : List (Message P)) (topics : List String)
      (st : Relay P × Tally)
      → Balanced topics st.1
      → Balanced (topics ++ topics_of messages) (write_messages world d user i messages st).1
  unfolding write_messages
  write_messages-Balanced d user i [] topics st b = rw append-nil b
  write_messages-Balanced d user i (message ∷ messages) topics st b =
      subst
        (λ l.
          Balanced l
            (write_messages world d user (suc i) messages
              (write_message world d user i message st)).1)
        (append_assoc topics (message.topic ∷ []) (topics_of messages))
        (write_messages-Balanced d user (suc i) messages (topics ++ message.topic ∷ []) _
          (write_message-Balanced d user i message topics st b))

  length-topics_of : (messages : List (Message P)) → length (topics_of messages) ≡ length messages
  length-topics_of [] = refl
  length-topics_of (message ∷ messages) = ap suc (length-topics_of messages)

  -- The answer to a bulk request that is admitted has one result for each message, in the order of
  -- the messages and with their topics; the summary gives the numbers of results that say
  -- "accepted" and "rejected", which add up to the total, the number of the messages.
  pub bulk_accounts :
      (d : Draws) (now : ℕ) (messages : List (Message P)) (key : Option String) (r : Relay P)
      (user : User)
      → (response : BulkMessageResponse) × ((write_bulk world d now messages key r user).1
          ≡ replies response)
        × (map (λ (x : BulkMessageResult). x.topic) response.results ≡ topics_of messages)
        × (response.summary
            ≡ ("total", length messages)
              ∷ ("accepted", with_status "accepted" response.results)
              ∷ ("rejected", with_status "rejected" response.results)
              ∷ [])
        × (with_status "accepted" response.results + with_status "rejected" response.results
            ≡ length messages)
  unfolding write_bulk
  bulk_accounts d now messages key r user =
      let st = write_messages world d user 0 messages (r, no_tally) in
      let b : Balanced (topics_of messages) st.1 =
        write_messages-Balanced d user 0 messages [] (r, no_tally) none-Balanced in
      (
        bulk_response (length messages) st.1,
        refl,
        b.listed,
        rw (b.accepts, b.rejects) refl,
        omega (arith, b.accepts, b.rejects, b.total, length-topics_of messages),
      )
