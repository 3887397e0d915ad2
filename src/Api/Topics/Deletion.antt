-- ===== src/Api/Topics/Deletion.antt =====
-- What the deletion of a topic leaves behind.
use pulsar_relay.Prelude.{
  ℕ, ◌≤◌, String, eq_iff, ◌≡◌, refl, sym, ap, ◌∙◌, Bool, true, false, ◌||◌, Option, none, some,
  arith, ltb, ◌==◌, nat_eq, string_eq, pair_eq, texts_iff,
}
use mathlib.Core.Path.{subst}
use pulsar_relay.Dict.Laws.{get-put}
use pulsar_relay.Auth.Topics
use pulsar_relay.Auth.Topics.{read, Topic, TopicCreate, TopicStorage, new_topic, user_can_access}
use pulsar_relay.Auth.Users.{User}
use pulsar_relay.Api.Topics.{
  TopicError, Answer, answers, declines, TopicRelay, store_user, record_owner, after_creation,
  create_topic, readable, page_of, get_topic_messages, forget_owner, after_deletion, delete_topic,
}

-- The topics as a creation has left them.
Fresh : String → User → TopicStorage × Option Topic → Type 0
Fresh name user (topics, none) = Unit
Fresh name user (topics, some topic) =
    (Topics.get_topic topics user.user_id name ≡ some topic)
    × (user_can_access topics user.user_id name user.user_id read user.permissions ≡ true)

create-Fresh :
    (topics : TopicStorage) (topic_id : String) (now : ℕ) (d : TopicCreate) (user : User)
    → Fresh d.topic_name user (Topics.create_topic topics topic_id now user.user_id d)
unfolding Topics.create_topic Topics.get_topic user_can_access Fresh new_topic
create-Fresh topics topic_id now d user = ground (
  arith,
  get-put topics.topics (user.user_id, d.topic_name) (user.user_id, d.topic_name)
      (new_topic topic_id now user.user_id d),
  texts_iff (user.user_id, d.topic_name) (user.user_id, d.topic_name),
  eq_iff user.user_id user.user_id,
)

positive_limit : (limit : ℕ) → 1 ≤ limit → ltb limit 1 ≡ false
positive_limit limit h = ground arith

module _ {ℓ} {P : Type ℓ} where
  storage-store_user {ℓ'} :
      {A : Type ℓ'} (r : TopicRelay P) (user : User) (error : TopicError) (answer : Answer A)
      → (store_user r user error answer).0.storage ≡ r.storage
  unfolding store_user
  storage-store_user r user error answer = ground arith

  storage-forget_owner :
      (r : TopicRelay P) (name : String) (user : User)
      → (forget_owner r name user).0.storage ≡ r.storage
  unfolding forget_owner store_user
  storage-forget_owner r name user = ground arith

  storage-after_deletion :
      (r : TopicRelay P) (name : String) (user : User) (result : TopicStorage × Bool)
      → (after_deletion r name user result).0.storage ≡ r.storage
  storage-after_deletion r name user (topics, false) = refl
  storage-after_deletion r name user (topics, true) =
      storage-forget_owner (record r { topics = topics }) name user

  storage-delete_topic :
      (r : TopicRelay P) (name : String) (user : User)
      → (delete_topic r name user).0.storage ≡ r.storage
  unfolding delete_topic
  storage-delete_topic r name user =
      ground
        (arith, storage-after_deletion r name user (Topics.delete_topic r.topics user.user_id name))

  -- A creation keeps the messages, and what it creates its owner can read.
  Recreated : TopicRelay P → String → User → TopicRelay P × Answer Topic → Type ℓ
  Recreated r name user (r', declines error) = Unit
  Recreated r name user (r', answers topic) =
      (r'.storage ≡ r.storage) × (readable r' name user ≡ answers topic)

  record_owner-Recreated :
      (r : TopicRelay P) (name : String) (topic : Topic) (user : User)
      → readable r name user ≡ answers topic
      → Recreated r name user (record_owner r topic user)
  unfolding record_owner store_user Recreated readable
  record_owner-Recreated r name topic user h = ground arith

  readable_of :
      (r : TopicRelay P) (name : String) (topic : Topic) (user : User)
      → Topics.get_topic r.topics user.user_id name ≡ some topic
      → user_can_access r.topics user.user_id name user.user_id read user.permissions ≡ true
      → readable r name user ≡ answers topic
  unfolding readable
  readable_of r name topic user found allowed = rw (found, readable, allowed) refl

  after_creation-Recreated :
      (r : TopicRelay P) (name : String) (user : User) (result : TopicStorage × Option Topic)
      → Fresh name user result
      → Recreated r name user (after_creation r user result)
  unfolding Fresh Recreated readable
  after_creation-Recreated r name user (topics, none) h = tt
  after_creation-Recreated r name user (topics, some topic) h =
      record_owner-Recreated (record r { topics = topics }) name topic user
        (readable_of (record r { topics = topics }) name topic user h.0 h.1)

  messages_of_readable :
      (r : TopicRelay P) (name : String) (topic : Topic) (user : User) (limit : ℕ) (order : String)
      (cursor : Option String)
      → readable r name user ≡ answers topic
      → (order == "asc" || order == "desc") ≡ true
      → 1 ≤ limit
      → get_topic_messages r name limit order cursor user
        ≡ answers (page_of r user.user_id name limit order cursor)
  unfolding get_topic_messages
  messages_of_readable r name topic user limit order cursor h ordered positive =
      rw (h, get_topic_messages, ordered, positive_limit limit positive) refl

  page_of-storage :
      (r r' : TopicRelay P) (user_id name : String) (limit : ℕ) (order : String)
      (cursor : Option String)
      → r'.storage ≡ r.storage
      → page_of r' user_id name limit order cursor ≡ page_of r user_id name limit order cursor
  unfolding page_of
  page_of-storage r r' user_id name limit order cursor e =
      ap (λ st. page_of (record r { storage = st }) user_id name limit order cursor) e

  -- If a user deletes a topic and then creates one of the same name, every page of the new topic, of a
  -- valid order and a positive limit, is the page of the old one: the deletion keeps the messages.
  pub messages_outlive_topic :
      (r r1 r2 : TopicRelay P) (topic_id : String) (now : ℕ) (d : TopicCreate) (user user' : User)
      (topic : Topic) (limit : ℕ) (order : String) (cursor : Option String)
      → delete_topic r d.topic_name user ≡ (r1, answers tt)
      → create_topic r1 topic_id now d user' ≡ (r2, answers topic)
      → user'.user_id ≡ user.user_id
      → (order == "asc" || order == "desc") ≡ true
      → 1 ≤ limit
      → get_topic_messages r2 d.topic_name limit order cursor user'
        ≡ answers (page_of r user.user_id d.topic_name limit order cursor)
  unfolding create_topic Recreated
  messages_outlive_topic r r1 r2 topic_id now d user user' topic limit order cursor deleted created
        same ordered positive =
      let c : Recreated r1 d.topic_name user' (r2, answers topic) =
        subst (Recreated r1 d.topic_name user') created (
          after_creation-Recreated r1 d.topic_name user' _
            (create-Fresh r1.topics topic_id now d user')) in
      let kept : r1.storage ≡ r.storage =
        ap (λ x. (x.0).storage) (sym deleted) ∙ storage-delete_topic r d.topic_name user in
      messages_of_readable r2 d.topic_name topic user' limit order cursor c.1 ordered positive
      ∙ (ap answers
            (page_of-storage r r2 user'.user_id d.topic_name limit order cursor (c.0 ∙ kept))
          ∙ rw same refl)
