-- ===== src/Api/Messages/Bulk/Refusal.antt =====
-- A refused bulk request writes nothing.
use mathlib.Core.Path.{subst}
use pulsar_relay.Prelude.{
  ℕ, String, ◌≡◌, refl, ◌∙◌, inl, inr, Option, none, some, List, [], ◌∷◌, arith, Bool-cases,
  Option-cases, nat_eq, string_eq, pair_eq,
}
use pulsar_relay.Auth.Topics.{Topic, TopicStorage, get_topic, create_topic}
use pulsar_relay.Auth.Users.{User}
use pulsar_relay.Api.Models.{HttpError, Reply, replies, fails, Message, BulkMessageResponse}
use pulsar_relay.Api.Relay.{
  Relay, World, auto_created, own_topic, after_race, after_create, get_or_create_topic,
}
use pulsar_relay.Api.Messages.{present}
use pulsar_relay.Api.Messages.Bulk.{
  Draws, topic_set, BulkOutcome, bulk_refused, bulk_replayed, bulk_proceeds, after_bulk_claim,
  claim_bulk_key, after_visit, visit_topic, visit_topics, write_bulk, admit_bulk,
  after_bulk_outcome, create_bulk_messages,
}

module _ {ℓ} {P : Type ℓ} (world : World) where
  -- The messages, and what listens to them, are as they were.
  pub record Untouched (r r' : Relay P) : Type ℓ where
    pub storage : r'.storage ≡ r.storage
    pub published : r'.published ≡ r.published
    pub manager : r'.manager ≡ r.manager
    pub poll_manager : r'.poll_manager ≡ r.poll_manager

  self : (r : Relay P) → Untouched r r
  self r = record { storage = refl; published = refl; manager = refl; poll_manager = refl }

  joined : (r r' r'' : Relay P) → Untouched r r' → Untouched r' r'' → Untouched r r''
  joined r r' r'' h k = record {
    storage = k.storage ∙ h.storage;
    published = k.published ∙ h.published;
    manager = k.manager ∙ h.manager;
    poll_manager = k.poll_manager ∙ h.poll_manager;
  }

  moved :
      (r : Relay P) (topics : TopicStorage) {r' : Relay P}
      → Untouched (record r { topics = topics }) r'
      → Untouched r r'
  moved r topics h = record {
    storage = h.storage;
    published = h.published;
    manager = h.manager;
    poll_manager = h.poll_manager;
  }

  own_topic-Untouched :
      (r : Relay P) (topic : Topic) (name : String) (user : User)
      → Untouched r (own_topic world r topic name user).0
  unfolding own_topic
  own_topic-Untouched r topic name user = ground arith

  after_race-Untouched :
      (r : Relay P) (name : String) (user : User) → Untouched r (after_race world r name user).0
  unfolding after_race
  after_race-Untouched r name user = ground arith

  after_create-Untouched :
      (r : Relay P) (name : String) (user : User) (result : TopicStorage × Option Topic)
      → Untouched r (after_create world r name user result).0
  unfolding after_create
  after_create-Untouched r name user (topics, some topic) =
      moved r topics (own_topic-Untouched (record r { topics = topics }) topic name user)
  after_create-Untouched r name user (topics, none) =
      moved r topics (after_race-Untouched (record r { topics = topics }) name user)

  get_or_create_topic-Untouched :
      (r : Relay P) (topic_id : String) (now : ℕ) (name : String) (user : User)
      → Untouched r (get_or_create_topic world r topic_id now name user).0
  unfolding get_or_create_topic
  get_or_create_topic-Untouched r topic_id now name user =
      elim (Option-cases (get_topic r.topics user.user_id name)) [
        | inl missing ↦ elim (Bool-cases (world.is_valid (auto_created name user))) [
          | inl valid ↦
              rw (missing, valid, get_or_create_topic)
                (after_create-Untouched r name user
                  (create_topic r.topics topic_id now user.user_id (auto_created name user)))
          | inr invalid ↦ rw (missing, invalid, get_or_create_topic) (self r)
        ]
        | inr (topic, found) ↦ rw (found, get_or_create_topic) (self r)
      ]

  after_visit-Untouched :
      (user : User) (topic : String) (denied : List String) (r : Relay P)
      (visited : Relay P × Reply (Topic × User))
      → Untouched r visited.0
      → Untouched r (after_visit world user topic denied visited).0
  unfolding after_visit
  after_visit-Untouched user topic denied r (r', replies (found, user')) h = h
  after_visit-Untouched user topic denied r (r', fails e) h = h

  visit_topics-Untouched :
      (d : Draws) (topics : List String) (st : Relay P × User × List String)
      → Untouched st.0 (visit_topics world d topics st).0
  unfolding visit_topics visit_topic
  visit_topics-Untouched d [] st = self st.0
  visit_topics-Untouched d (topic ∷ topics) (r, user, denied) =
      joined r _ _
        (after_visit-Untouched user topic denied r
          (get_or_create_topic world r (d.topic_id topic) d.now topic user)
          (get_or_create_topic-Untouched r (d.topic_id topic) d.now topic user))
        (visit_topics-Untouched d topics (visit_topic world d topic (r, user, denied)))

  claim_bulk_key-Untouched :
      (r : Relay P) (now : ℕ) (user : User) (key : Option String)
      → Untouched r (claim_bulk_key world r now user key).0
  unfolding claim_bulk_key after_bulk_claim
  claim_bulk_key-Untouched r now user key = ground arith

  -- Whatever was refused leaves the messages alone.
  FailsUntouched : Relay P → Relay P × Reply BulkMessageResponse → Type ℓ
  FailsUntouched r (r', replies response) = Unit
  FailsUntouched r (r', fails e) = Untouched r r'

  admit_bulk-FailsUntouched :
      (d : Draws) (now : ℕ) (messages : List (Message P)) (user : User) (key : Option String)
      (r : Relay P) (st : Relay P × User × List String)
      → Untouched r st.0
      → FailsUntouched r (admit_bulk world d now messages key user st)
  unfolding admit_bulk write_bulk FailsUntouched
  admit_bulk-FailsUntouched d now messages user key r (r', user', []) h = tt
  admit_bulk-FailsUntouched d now messages user key r (r', user', topic ∷ denied) h = h

  outcome-FailsUntouched :
      (d : Draws) (now : ℕ) (messages : List (Message P)) (user : User) (key : Option String)
      (r : Relay P) (claimed : Relay P × BulkOutcome)
      → Untouched r claimed.0
      → FailsUntouched r (after_bulk_outcome world d now messages user key claimed)
  unfolding after_bulk_outcome FailsUntouched
  outcome-FailsUntouched d now messages user key r (r', bulk_refused e) h = h
  outcome-FailsUntouched d now messages user key r (r', bulk_replayed response) h = tt
  outcome-FailsUntouched d now messages user key r (r', bulk_proceeds) h =
      admit_bulk-FailsUntouched d now messages user key r
        (visit_topics world d (d.arrange (topic_set messages)) (r', user, []))
        (joined r r' _ h (visit_topics-Untouched d (d.arrange (topic_set messages)) (r', user, [])))

  -- A bulk request that is answered with an error, such as one with a topic that is denied, has
  -- stored none of its messages and broadcast none: the message storage, the log of the
  -- coordinator, the connections and the waiters are as before, in whatever order the topics were
  -- looked at.
  pub refused_writes_nothing :
      (r r' : Relay P) (d : Draws) (now : ℕ) (messages : List (Message P)) (user : User)
      (idem_key : Option String) (e : HttpError)
      → create_bulk_messages world r d now messages user idem_key ≡ (r', fails e)
      → (r'.storage ≡ r.storage)
        × (r'.published ≡ r.published)
        × (r'.manager ≡ r.manager)
        × (r'.poll_manager ≡ r.poll_manager)
  unfolding create_bulk_messages FailsUntouched
  refused_writes_nothing r r' d now messages user idem_key e refused =
      let h : Untouched r r' = subst (FailsUntouched r) refused (
        outcome-FailsUntouched d now messages user (present idem_key) r
          (claim_bulk_key world r d.now user (present idem_key))
          (claim_bulk_key-Untouched r d.now user (present idem_key))) in
      (h.storage, h.published, h.manager, h.poll_manager)
