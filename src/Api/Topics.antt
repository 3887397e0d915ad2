-- ===== src/Api/Topics.antt =====
-- pulsar_relay/api/topics.py: the handlers over topics and their stored messages.
pub mod Deletion
mod Tests
use pulsar_relay.Prelude.{
  take-append-drop, drop-nil, last, last-last-append, length-last-le, drop-drop, drop-append,
  is_none, ℕ, zero, suc, ◌+◌, ◌-◌, ◌*◌, ◌/◌, ◌%◌, ◌≤◌, ◌<◌, min, max, String, eq_iff, ◌≡◌, refl,
  sym, ap, ◌∙◌, ◌≢◌, ◌↔◌, ◌⊎◌, inl, inr, Bool, true, false, not, ◌&&◌, ◌||◌, Option, none, some,
  List, [], ◌∷◌, ◌++◌, map, arith, ltb, leb, nat_beq, if◌then◌else◌, nat_beq_iff, Bool-cases,
  Option-cases, length, take, drop, length-append, length-drop, length-take-le, filter_by, Eq, ◌==◌,
  beq_self, nat_eq, string_eq, pair_beq, pair_beq_iff, pair_eq, texts_beq, texts_iff, All,
}
use pulsar_relay.Auth.Topics
use pulsar_relay.Auth.Topics.{
  Permission, admin, read, permits, Topic, TopicCreate, TopicStorage, user_can_access,
}
use pulsar_relay.Dict.{member}
use pulsar_relay.Auth.Users.{User, UserStorage, update_user, Result, ok, raise}
use pulsar_relay.Storage.Memory.{StoredMessage, MemoryStorage, get_messages}

pub data TopicError : Type 0 where
  not_found access_denied bad_request internal_error : TopicError

pub data Answer {ℓ} (A : Type ℓ) : Type ℓ where
  answers : A → Answer A
  declines : TopicError → Answer A

pub record TopicRelay {ℓ} (P : Type ℓ) : Type ℓ where
  pub topics : TopicStorage
  pub users : UserStorage
  pub storage : MemoryStorage P

pub record Page {ℓ} (P : Type ℓ) : Type ℓ where
  pub messages : List (StoredMessage P)
  pub total : ℕ
  pub limit : ℕ
  pub order : String
  pub cursor : Option String
  pub next_cursor : Option String

-- The identifier of the last message of a page.
abbrev pub last_message_id {ℓ} : {P : Type ℓ} → List (StoredMessage P) → Option String
last_message_id [] = none
last_message_id (m ∷ messages) = elim (last_message_id messages) [
  | none ↦ some m.message_id
  | some message_id ↦ some message_id
]

-- list.remove: the first occurrence goes.
abbrev pub remove_first : List String → String → List String
remove_first [] x = []
remove_first (y ∷ l) x = let rest = remove_first l x in if y == x then l else y ∷ rest

-- The owner or an admin.
abbrev pub may_change : Topic → User → Bool
may_change topic user = topic.owner_id == user.user_id || permits user.permissions admin

module _ {ℓ} {P : Type ℓ} where
  -- `update_user`, whose ValueError the handlers of creation and deletion meet.
  unfoldable pub store_user {ℓ'} :
      {A : Type ℓ'} → TopicRelay P → User → TopicError → Answer A → TopicRelay P × Answer A
  store_user r user error answer =
      let (users, result) = update_user r.users user in
      elim result [
        | ok _ ↦ (record r { users = users }, answer)
        | raise _ ↦ (record r { users = users }, declines error)
      ]

  -- The new topic joins the user's list.
  unfoldable pub record_owner : TopicRelay P → Topic → User → TopicRelay P × Answer Topic
  unfolding store_user
  record_owner r topic user =
      if member user.owned_topics topic.topic_name
      then (r, answers topic)
      else store_user r (record user { owned_topics = user.owned_topics ++ topic.topic_name ∷ [] })
          bad_request (answers topic)

  abbrev pub after_creation :
      TopicRelay P → User → TopicStorage × Option Topic → TopicRelay P × Answer Topic
  after_creation r user (topics, none) = (record r { topics = topics }, declines bad_request)
  after_creation r user (topics, some topic) =
      record_owner (record r { topics = topics }) topic user

  unfoldable pub create_topic :
      TopicRelay P → String → ℕ → TopicCreate → User → TopicRelay P × Answer Topic
  unfolding record_owner
  create_topic r topic_id now topic_data user =
      after_creation r user (Topics.create_topic r.topics topic_id now user.user_id topic_data)

  unfoldable pub list_topics : TopicRelay P → User → List Topic
  list_topics r user =
      if permits user.permissions admin
      then Topics.list_owned_topics r.topics user.user_id
      else Topics.list_user_topics r.topics user.user_id

  unfoldable pub readable : TopicRelay P → String → User → Answer Topic
  readable r topic_name user = elim (Topics.get_topic r.topics user.user_id topic_name) [
    | none ↦ declines not_found
    | some topic ↦
        if user_can_access r.topics user.user_id topic_name user.user_id read user.permissions
        then answers topic
        else declines access_denied
  ]

  unfoldable pub get_topic : TopicRelay P → String → User → Answer Topic
  unfolding readable
  get_topic r topic_name user = readable r topic_name user

  unfoldable pub page_of : TopicRelay P → String → String → ℕ → String → Option String → Page P
  page_of r user_id topic_name limit order cursor =
      let messages =
        get_messages r.storage user_id topic_name cursor (min limit 100) (order == "desc") in
      record {
        messages = messages;
        total = length messages;
        limit = min limit 100;
        order = order;
        cursor = cursor;
        next_cursor = last_message_id messages;
      }

  -- A limit below 1 is written 0.
  unfoldable pub get_topic_messages :
      TopicRelay P → String → ℕ → String → Option String → User → Answer (Page P)
  unfolding readable page_of
  get_topic_messages r topic_name limit order cursor user = elim (readable r topic_name user) [
    | declines error ↦ declines error
    | answers topic ↦
        if not (order == "asc" || order == "desc") || ltb limit 1
        then declines bad_request
        else answers (page_of r user.user_id topic_name limit order cursor)
  ]

  abbrev pub after_update : TopicRelay P → TopicStorage × Option Topic → TopicRelay P × Answer Topic
  after_update r (topics, none) = (record r { topics = topics }, declines internal_error)
  after_update r (topics, some topic) = (record r { topics = topics }, answers topic)

  unfoldable pub update_topic :
      TopicRelay P → String → Option String → User → TopicRelay P × Answer Topic
  update_topic r topic_name description user =
      elim (Topics.get_topic r.topics user.user_id topic_name) [
        | none ↦ (r, declines not_found)
        | some topic ↦
            if may_change topic user
            then after_update r (Topics.update_topic r.topics user.user_id topic_name description)
            else (r, declines access_denied)
      ]

  -- The topic leaves the user's list.
  unfoldable pub forget_owner : TopicRelay P → String → User → TopicRelay P × Answer (Unit {0})
  unfolding store_user
  forget_owner r topic_name user =
      if member user.owned_topics topic_name
      then store_user r (record user { owned_topics = remove_first user.owned_topics topic_name })
          internal_error (answers tt)
      else (r, answers tt)

  abbrev pub after_deletion :
      TopicRelay P → String → User → TopicStorage × Bool → TopicRelay P × Answer (Unit {0})
  after_deletion r topic_name user (topics, false) =
      (record r { topics = topics }, declines internal_error)
  after_deletion r topic_name user (topics, true) =
      forget_owner (record r { topics = topics }) topic_name user

  unfoldable pub delete_topic : TopicRelay P → String → User → TopicRelay P × Answer (Unit {0})
  unfolding forget_owner
  delete_topic r topic_name user = elim (Topics.get_topic r.topics user.user_id topic_name) [
    | none ↦ (r, declines not_found)
    | some topic ↦
        if may_change topic user
        then after_deletion r topic_name user (Topics.delete_topic r.topics user.user_id topic_name)
        else (r, declines access_denied)
  ]
