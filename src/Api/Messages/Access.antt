-- ===== src/Api/Messages/Access.antt =====
-- A request that goes on to the write has a topic that its user may write to.
use mathlib.Core.Path.{subst}
use pulsar_relay.Prelude.{
  is_none, ℕ, String, eq_iff, ◌≡◌, refl, inl, inr, true, false, Option, none, some, arith,
  Bool-cases, Option-cases, nat_eq, string_eq, pair_eq, texts_iff,
}
use pulsar_relay.Dict.Laws.{get-put}
use pulsar_relay.Auth.Topics.{
  new_topic, create_topic, user_can_access, write, Topic, TopicStorage, get_topic,
}
use pulsar_relay.Auth.Users.{User}
use pulsar_relay.Api.Messages.{
  after_settled, after_claim, claim_key, begin_message, Outcome, refused, replayed, proceeds,
  present,
}
use pulsar_relay.Api.Relay.{
  auto_created, own_topic, check_write, after_race, after_create, get_or_create_topic, Relay, World,
}
use pulsar_relay.Api.Models.{Message, Reply, replies, fails}

-- The user's topic is there and the user may write to it.
unfoldable pub Usable : TopicStorage → String → User → Type 0
Usable topics name user =
    (is_none (get_topic topics user.user_id name) ≡ false)
    × (user_can_access topics user.user_id name user.user_id write user.permissions ≡ true)

Created : User → String → TopicStorage × Option Topic → Type 0
Created user name (topics, none) = Unit
Created user name (topics, some topic) = Usable topics name user

create_topic-Created :
    (topics : TopicStorage) (topic_id : String) (now : ℕ) (name : String) (user : User)
    → Created user name (create_topic topics topic_id now user.user_id (auto_created name user))
unfolding create_topic Created Usable get_topic user_can_access new_topic
create_topic-Created topics topic_id now name user = ground (
  arith,
  get-put topics.topics (user.user_id, name) (user.user_id, name)
      (new_topic topic_id now user.user_id (auto_created name user)),
  texts_iff (user.user_id, name) (user.user_id, name),
  eq_iff user.user_id user.user_id,
)

module _ {ℓ} {P : Type ℓ} (world : World) where
  Settled : Relay P → String → User → Relay P × Reply (Topic × User) → Type 0
  Settled r name user (r', fails e) = Unit
  Settled r name user (r', replies (topic, user')) =
      (user'.user_id ≡ user.user_id)
      × Usable r'.topics name user
      × (is_none r'.idempotency ≡ is_none r.idempotency)

  check_write-Settled :
      (r : Relay P) (topic : Topic) (name : String) (user : User)
      → is_none (get_topic r.topics user.user_id name) ≡ false
      → Settled r name user (r, check_write r.topics topic name user)
  unfolding check_write Settled Usable
  check_write-Settled r topic name user there = ground arith

  after_race-Settled :
      (r : Relay P) (name : String) (user : User)
      → Settled r name user (after_race world r name user)
  unfolding after_race Settled
  after_race-Settled r name user = elim (Option-cases (get_topic r.topics user.user_id name)) [
    | inl missing ↦ rw (missing, after_race) tt
    | inr (topic, found) ↦
        rw (found, after_race) (check_write-Settled r topic name user (rw found refl))
  ]

  own_topic-Settled :
      (r : Relay P) (topic : Topic) (name : String) (user : User)
      → Usable r.topics name user
      → Settled r name user (own_topic world r topic name user)
  unfolding own_topic Settled
  own_topic-Settled r topic name user usable = ground arith

  after_create-Settled :
      (r : Relay P) (name : String) (user : User) (result : TopicStorage × Option Topic)
      → Created user name result
      → Settled r name user (after_create world r name user result)
  unfolding after_create Created Settled
  after_create-Settled r name user (st, none) h =
      after_race-Settled (record r { topics = st }) name user
  after_create-Settled r name user (st, some topic) h =
      own_topic-Settled (record r { topics = st }) topic name user h

  get_or_create_topic-Settled :
      (r : Relay P) (topic_id : String) (now : ℕ) (name : String) (user : User)
      → Settled r name user (get_or_create_topic world r topic_id now name user)
  unfolding get_or_create_topic Settled
  get_or_create_topic-Settled r topic_id now name user =
      elim (Option-cases (get_topic r.topics user.user_id name)) [
        | inl missing ↦ elim (Bool-cases (world.is_valid (auto_created name user))) [
          | inl valid ↦
              rw (missing, valid, get_or_create_topic)
                (after_create-Settled r name user _
                  (create_topic-Created r.topics topic_id now name user))
          | inr invalid ↦ rw (missing, invalid, get_or_create_topic) tt
        ]
        | inr (topic, found) ↦
            rw (found, get_or_create_topic) (check_write-Settled r topic name user (rw found refl))
      ]

  -- What a request that goes on to the write has established.
  unfoldable pub Begun : Relay P → String → User → Relay P × Outcome → Type 0
  Begun r name user (r', refused e) = Unit
  Begun r name user (r', replayed response) = Unit
  Begun r name user (r', proceeds user') =
      (user'.user_id ≡ user.user_id)
      × Usable r'.topics name user
      × (is_none r'.idempotency ≡ is_none r.idempotency)

  claim_key-Begun :
      (r r0 : Relay P) (now : ℕ) (name : String) (user user' : User) (key : Option String)
      → user'.user_id ≡ user.user_id
      → Usable r.topics name user
      → is_none r.idempotency ≡ is_none r0.idempotency
      → Begun r0 name user (claim_key world r now user' key)
  unfolding claim_key after_claim Begun
  claim_key-Begun r r0 now name user user' key same usable stored = ground arith

  after_settled-Begun :
      (r : Relay P) (now : ℕ) (name : String) (user : User) (key : Option String)
      (result : Relay P × Reply (Topic × User))
      → Settled r name user result
      → Begun r name user (after_settled world now key result)
  unfolding after_settled Settled Begun
  after_settled-Begun r now name user key (r', fails e) h = tt
  after_settled-Begun r now name user key (r', replies (topic, user')) h =
      claim_key-Begun r' r now name user user' key h.0 h.1 h.2

  pub begin_message-Begun :
      (r : Relay P) (topic_id : String) (now : ℕ) (message : Message P) (user : User)
      (idem_key : Option String)
      → Begun r message.topic user (begin_message world r topic_id now message user idem_key)
  unfolding begin_message
  begin_message-Begun r topic_id now message user idem_key =
      after_settled-Begun r now message.topic user (present idem_key) _
        (get_or_create_topic-Settled r topic_id now message.topic user)

  -- If a request gets past its checks and its claim of the key, then the topic is there in the user's
  -- own namespace, the user may write to it, and the user's identifier is still the one of the
  -- request.
  pub write_needs_access :
      (r r' : Relay P) (topic_id : String) (now : ℕ) (message : Message P) (user user' : User)
      (idem_key : Option String)
      → begin_message world r topic_id now message user idem_key ≡ (r', proceeds user')
      → (user'.user_id ≡ user.user_id)
        × (is_none (get_topic r'.topics user.user_id message.topic) ≡ false)
        × (user_can_access r'.topics user.user_id message.topic user.user_id write user.permissions
            ≡ true)
  unfolding Begun Usable
  write_needs_access r r' topic_id now message user user' idem_key began =
      let b : Begun r message.topic user (r', proceeds user') =
        subst (Begun r message.topic user) began
          (begin_message-Begun r topic_id now message user idem_key) in
      (b.0, b.1.0, b.1.1)
