-- ===== src/Auth/Topics/Ownership.antt =====
-- The index of owners lists exactly the stored topics, and access follows ownership.
use pulsar_relay.Prelude.{
  ℕ, String, eq_iff, ◌≡◌, refl, inl, inr, not, ◌&&◌, ◌||◌, Option, none, some, List, [], ◌∷◌, map,
  arith, Option-cases, ◌==◌, nat_eq, string_eq, pair_eq, texts_iff, All,
}
use pulsar_relay.Dict
use pulsar_relay.Dict.{contains, member, add, discard}
use pulsar_relay.Dict.Laws.{get-put, get-remove}
use pulsar_relay.Dict.Multi.{member-members, members, has, has-file, has-discard_at}
use pulsar_relay.Dict.Keys.{contains-put}
use pulsar_relay.Auth.Topics.{
  Permission, admin, permits, Topic, TopicCreate, TopicStorage, init, new_topic, create_topic,
  get_topic, topics_named, list_owned_topics, update_topic, described, delete_topic,
  user_can_access,
}

pub record IsOwned (st : TopicStorage) : Type 0 where
  -- a topic is stored under its own owner and name
  pub stored :
      (o n : String) (t : Topic)
      → Dict.get st.topics (o, n) ≡ some t
      → (t.owner_id ≡ o) × (t.topic_name ≡ n)
  -- a name is listed for an owner exactly if the topic is stored
  pub indexed : (o n : String) → has st.owner_index o n ≡ contains st.topics (o, n)

pub data Call : Type 0 where
  creates : String → ℕ → String → TopicCreate → Call
  updates : String → String → Option String → Call
  deletes : String → String → Call

unfoldable pub step : TopicStorage → Call → TopicStorage
step st (creates topic_id now owner_id topic_data) =
    (create_topic st topic_id now owner_id topic_data).0
step st (updates owner_id topic_name description) =
    (update_topic st owner_id topic_name description).0
step st (deletes owner_id topic_name) = (delete_topic st owner_id topic_name).0

unfoldable pub run : TopicStorage → List Call → TopicStorage
run st [] = st
run st (c ∷ calls) = run (step st c) calls

init-IsOwned : IsOwned init
unfolding init has member members Dict.get
init-IsOwned = record { stored = λ o n t h. cc; indexed = λ o n. refl }

create_topic-IsOwned :
    (st : TopicStorage) (topic_id : String) (now : ℕ) (owner : String) (d : TopicCreate)
    → IsOwned st
    → IsOwned (create_topic st topic_id now owner d).0
unfolding create_topic
create_topic-IsOwned st topic_id now owner d h = record {
  stored = λ o n t found. ground (
    arith,
    get-put st.topics (owner, d.topic_name) (o, n) (new_topic topic_id now owner d),
    texts_iff (owner, d.topic_name) (o, n),
    h.stored o n t,
  );
  indexed = λ o n. ground (
    arith,
    has-file st.owner_index owner d.topic_name o n,
    contains-put st.topics (owner, d.topic_name) (o, n) (new_topic topic_id now owner d),
    h.indexed o n,
  );
}

owner_id-described :
    (t : Topic) (description : Option String)
    → ((described t description).owner_id ≡ t.owner_id)
      × ((described t description).topic_name ≡ t.topic_name)
unfolding described
owner_id-described t none = (refl, refl)
owner_id-described t (some description) = (refl, refl)

update_topic-IsOwned :
    (st : TopicStorage) (owner name : String) (description : Option String)
    → IsOwned st
    → IsOwned (update_topic st owner name description).0
unfolding update_topic
update_topic-IsOwned st owner name description h =
    elim (Option-cases (Dict.get st.topics (owner, name))) [
      | inl missing ↦ rw (missing, update_topic) h
      | inr (topic, found) ↦
          rw (found, update_topic)
            (record {
              stored = λ o n t found'. ground (
                arith,
                get-put st.topics (owner, name) (o, n) (described topic description),
                texts_iff (owner, name) (o, n),
                h.stored o n t,
                h.stored owner name topic found,
                owner_id-described topic description,
              );
              indexed = λ o n. ground (
                arith,
                get-put st.topics (owner, name) (o, n) (described topic description),
                texts_iff (owner, name) (o, n),
                h.indexed o n,
              );
            })
    ]

delete_topic-IsOwned :
    (st : TopicStorage) (owner name : String) → IsOwned st → IsOwned (delete_topic st owner name).0
unfolding delete_topic
delete_topic-IsOwned st owner name h = record {
  stored = λ o n t found. ground (arith, get-remove st.topics (owner, name) (o, n), h.stored o n t);
  indexed = λ o n. ground (
    arith,
    has-discard_at st.owner_index owner name o n,
    get-remove st.topics (owner, name) (o, n),
    h.indexed o n,
  );
}

step-IsOwned : (st : TopicStorage) (c : Call) → IsOwned st → IsOwned (step st c)
unfolding step
step-IsOwned st (creates topic_id now owner d) h = create_topic-IsOwned st topic_id now owner d h
step-IsOwned st (updates owner name description) h =
    update_topic-IsOwned st owner name description h
step-IsOwned st (deletes owner name) h = delete_topic-IsOwned st owner name h

run_from-IsOwned : (st : TopicStorage) (calls : List Call) → IsOwned st → IsOwned (run st calls)
unfolding run
run_from-IsOwned st [] h = h
run_from-IsOwned st (c ∷ calls) h = run_from-IsOwned (step st c) calls (step-IsOwned st c h)

-- After any sequence of creations, updates and deletions, a topic is stored under its own owner and
-- name, and the names listed for an owner are exactly those of the owner's stored topics.
pub run-IsOwned : (calls : List Call) → IsOwned (run init calls)
run-IsOwned calls = run_from-IsOwned init calls init-IsOwned

-- In a storage as such calls leave it, a user can access an owner's topic exactly if the user is an
-- admin, or the topic does not exist, or the user is the owner, whatever kind of access is asked
-- for.
pub user_can_access_exact :
    (st : TopicStorage) (owner name user : String) (kind : Permission)
    (permissions : List Permission)
    → IsOwned st
    → user_can_access st owner name user kind permissions
      ≡ (permits permissions admin || not (contains st.topics (owner, name)) || owner == user)
unfolding user_can_access
user_can_access_exact st owner name user kind permissions h =
    elim (Option-cases (Dict.get st.topics (owner, name))) [
      | inl missing ↦ ground arith
      | inr (topic, found) ↦ ground (arith, h.stored owner name topic found)
    ]

listed_names : List Topic → List String
listed_names topics = map (λ t. t.topic_name) topics

member-topics_named :
    (st : TopicStorage) (user : String) (names : List String) (n : String)
    → IsOwned st
    → member (listed_names (topics_named st user names)) n
      ≡ (member names n && contains st.topics (user, n))
unfolding topics_named member listed_names
member-topics_named st user [] n h = refl
member-topics_named st user (m ∷ names) n h = elim (Option-cases (Dict.get st.topics (user, m))) [
  | inl missing ↦ ground (arith, member-topics_named st user names n h, eq_iff m n)
  | inr (topic, found) ↦
      ground (arith, member-topics_named st user names n h, eq_iff m n, h.stored user m topic found)
]

topics_named-All :
    (st : TopicStorage) (user : String) (names : List String)
    → IsOwned st
    → All (λ t. Dict.get st.topics (user, t.topic_name) ≡ some t) (topics_named st user names)
unfolding topics_named
topics_named-All st user [] h = tt
topics_named-All st user (m ∷ names) h = elim (Option-cases (Dict.get st.topics (user, m))) [
  | inl missing ↦ rw (missing, topics_named) (topics_named-All st user names h)
  | inr (topic, found) ↦
      rw (found, topics_named)
        (ground (arith, h.stored user m topic found), topics_named-All st user names h)
]

-- In such a storage the topics listed for a user are the user's stored topics: every listed topic
-- is the one stored for the user under its name, and a name is listed exactly if the user has a
-- topic of that name.
pub list_owned_topics_exact :
    (st : TopicStorage) (user : String)
    → IsOwned st
    → All (λ t. get_topic st user t.topic_name ≡ some t) (list_owned_topics st user)
      × ((n : String)
          → member (map (λ t. t.topic_name) (list_owned_topics st user)) n
            ≡ contains st.topics (user, n))
unfolding list_owned_topics get_topic listed_names
list_owned_topics_exact st user h = (
  topics_named-All st user (members st.owner_index user) h,
  λ n. ground (
    arith,
    member-topics_named st user (members st.owner_index user) n h,
    member-members st.owner_index user n,
    h.indexed user n,
  ),
)
