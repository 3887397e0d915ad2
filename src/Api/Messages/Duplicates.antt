-- ===== src/Api/Messages/Duplicates.antt =====
-- A duplicate request while the first one is still being written.
use pulsar_relay.Prelude.{
  ℕ, String, ◌≡◌, ap, ◌∙◌, inl, inr, Option, none, some, [], arith, Option-cases, nat_eq, string_eq,
  pair_eq, texts_iff,
}
use mathlib.Core.Path.{subst}
use pulsar_relay.Dict
use pulsar_relay.Dict.Laws.{get-put}
use pulsar_relay.Core.Idempotency.{
  in_flight, expiry_after, Idempotency, try_claim, claim_new, body_of,
}
use pulsar_relay.Api.Messages.Access.{Begun, begin_message-Begun}
use pulsar_relay.Api.Messages.Retry.{get_or_create_topic-Usable}
use pulsar_relay.Auth.Users.{User}
use pulsar_relay.Api.Messages.{
  present, begin_message, Topic, after_settled, default_idempotency_ttl_seconds, claim_key,
  after_claim, Outcome, proceeds,
}
use pulsar_relay.Api.Relay.{Relay, World}
use pulsar_relay.Api.Models.{Message, replies, fails, Reply, Value}

-- The key has no entry, or one without a response.
Unanswered : Idempotency Value → String → String → Type 0
Unanswered entries owner_id key = elim (Dict.get entries (owner_id, key)) [
  | none ↦ Unit
  | some (expiry, stored) ↦ body_of stored ≡ []
]

module _ {ℓ} {P : Type ℓ} (world : World) where
  Claimed : String → Relay P × Outcome → Type 0
  Claimed key (r, proceeds user') = elim r.idempotency [
    | none ↦ Unit
    | some entries ↦ Unanswered entries user'.user_id key
  ]
  Claimed key (r, _) = Unit

  after_claim-Claimed :
      (r : Relay P) (now : ℕ) (user : User) (key : String) (entries : Idempotency Value)
      → Claimed key (
          after_claim world r user
            (try_claim now entries user.user_id key default_idempotency_ttl_seconds))
  unfolding after_claim Claimed Unanswered try_claim claim_new
  after_claim-Claimed r now user key entries = ground (
    arith,
    get-put entries (user.user_id, key) (user.user_id, key)
        (expiry_after now default_idempotency_ttl_seconds, in_flight),
    texts_iff (user.user_id, key) (user.user_id, key),
  )

  claim_key-Claimed :
      (r : Relay P) (now : ℕ) (user : User) (key : String)
      → Claimed key (claim_key world r now user (some key))
  unfolding claim_key Claimed
  claim_key-Claimed r now user key = elim (Option-cases r.idempotency) [
    | inl missing ↦ ground arith
    | inr (entries, found) ↦ rw (found, claim_key) (after_claim-Claimed r now user key entries)
  ]

  -- A claim of a key without a response goes on to the write.
  claim_key-proceeds :
      (r : Relay P) (now : ℕ) (user : User) (key : String) (entries : Idempotency Value)
      → r.idempotency ≡ some entries
      → Unanswered entries user.user_id key
      → (claim_key world r now user (some key)).1 ≡ proceeds user
  unfolding claim_key after_claim Unanswered try_claim
  claim_key-proceeds r now user key entries e h = ground arith

  after_settled-Claimed :
      (now : ℕ) (key : String) (result : Relay P × Reply (Topic × User))
      → Claimed key (after_settled world now (some key) result)
  unfolding after_settled Claimed
  after_settled-Claimed now key (r, fails e) = tt
  after_settled-Claimed now key (r, replies (topic, user')) = claim_key-Claimed r now user' key

  Unanswered-at :
      (r : Relay P) (user : User) (key : String) (entries : Idempotency Value)
      → r.idempotency ≡ some entries
      → Claimed key (r, proceeds user)
      → Unanswered entries user.user_id key
  unfolding Claimed Unanswered
  Unanswered-at r user key entries e h = ground arith

  Unanswered-same_user :
      (r : Relay P) (user' user : User) (key : String) (entries : Idempotency Value)
      → r.idempotency ≡ some entries
      → user'.user_id ≡ user.user_id
      → Claimed key (r, proceeds user')
      → Unanswered entries user.user_id key
  unfolding Claimed
  Unanswered-same_user r user' user key entries e same h =
      subst (λ id. Unanswered entries id key) same (Unanswered-at r user' key entries e h)

  -- If a request with an `Idempotency-Key` gets past the claim and has not recorded its answer, then
  -- the same request made again at any time, before or after the claim expires, gets past the claim
  -- too: it goes on to write the message a second time.
  pub duplicate_proceeds :
      (r r1 : Relay P) (topic_id topic_id' : String) (now t : ℕ) (message : Message P)
      (user user1 : User) (idem_key : Option String) (key : String) (entries : Idempotency Value)
      → present idem_key ≡ some key
      → r1.idempotency ≡ some entries
      → begin_message world r topic_id now message user idem_key ≡ (r1, proceeds user1)
      → (begin_message world r1 topic_id' t message user idem_key).1 ≡ proceeds user
  unfolding Claimed begin_message Begun Unanswered
  duplicate_proceeds r r1 topic_id topic_id' now t message user user1 idem_key key entries h e
        began =
      let b : Begun world r message.topic user (r1, proceeds user1) =
        subst (Begun world r message.topic user) began
          (begin_message-Begun world r topic_id now message user idem_key) in
      let c : Claimed key (r1, proceeds user1) =
        subst (Claimed key) began (rw h (after_settled-Claimed now key _)) in
      let u : Unanswered entries user.user_id key =
        Unanswered-same_user r1 user1 user key entries e b.0 c in
      ap (λ result. result.1)
        (get_or_create_topic-Usable world r1 topic_id' t message.topic user (present idem_key) b.1)
      ∙ rw h (claim_key-proceeds r1 t user key entries e u)
