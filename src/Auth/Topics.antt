-- ===== src/Auth/Topics.antt =====
-- pulsar_relay/auth/topic_storage.py: `InMemoryTopicStorage`, with the topic models of
-- pulsar_relay/auth/models.py.
pub mod Ownership
pub mod Isolation
mod Tests
use pulsar_relay.Prelude.{
  is_none, ℕ, zero, suc, ◌+◌, ◌-◌, ◌*◌, ◌/◌, ◌%◌, ◌≤◌, ◌<◌, min, max, String, eq_iff, ◌≡◌, refl,
  sym, ap, ◌∙◌, ◌≢◌, ◌↔◌, ◌⊎◌, inl, inr, Bool, true, false, not, ◌&&◌, ◌||◌, Option, none, some,
  List, [], ◌∷◌, ◌++◌, map, arith, ltb, leb, nat_beq, if◌then◌else◌, nat_beq_iff, Bool-cases,
  Option-cases, length, take, drop, length-append, length-drop, length-take-le, filter_by, Eq, ◌==◌,
  beq_self, nat_eq, string_eq, pair_beq, pair_beq_iff, pair_eq, texts_beq, texts_iff, All,
}
use pulsar_relay.Dict
use pulsar_relay.Dict.{contains, member, add, discard}
use pulsar_relay.Dict.Multi
use pulsar_relay.Dict.Multi.{members, file, discard_at}

pub data Permission : Type 0 where
  admin read write : Permission

abbrev pub permission_beq : Permission → Permission → Bool
permission_beq admin admin = true
permission_beq read read = true
permission_beq write write = true
permission_beq _ _ = false

-- p in permissions
unfoldable pub permits : List Permission → Permission → Bool
permits [] p = false
permits (q ∷ permissions) p = permission_beq q p || permits permissions p

pub record Topic : Type 0 where
  pub topic_id : String
  pub topic_name : String
  pub owner_id : String
  pub created_at : ℕ
  pub description : Option String

pub record TopicCreate : Type 0 where
  pub topic_name : String
  pub description : Option String

pub record TopicStorage : Type 0 where
  -- (owner_id, topic_name) -> Topic
  pub topics : List ((String × String) × Topic)
  -- user_id -> the names that the user owns
  pub owner_index : List (String × List String)

pub init : TopicStorage
init = record { topics = []; owner_index = [] }

unfoldable pub new_topic : String → ℕ → String → TopicCreate → Topic
new_topic topic_id now owner_id topic_data = record {
  topic_id = topic_id;
  topic_name = topic_data.topic_name;
  owner_id = owner_id;
  created_at = now;
  description = topic_data.description;
}

-- The identifier and the time are the uuid and the clock's; `none` is the ValueError.
unfoldable pub create_topic :
    TopicStorage → String → ℕ → String → TopicCreate → TopicStorage × Option Topic
unfolding new_topic
create_topic st topic_id now owner_id topic_data =
    let key : String × String = (owner_id, topic_data.topic_name) in
    let topic = new_topic topic_id now owner_id topic_data in
    if contains st.topics key then (st, none) else (
      record {
        topics = Dict.put st.topics key topic;
        owner_index = file st.owner_index owner_id topic_data.topic_name;
      },
      some topic,
    )

unfoldable pub get_topic : TopicStorage → String → String → Option Topic
get_topic st owner_id topic_name = Dict.get st.topics (owner_id, topic_name)

-- `[self._topics[(user_id, n)] for n in topic_names if (user_id, n) in self._topics]`
pub topics_named : TopicStorage → String → List String → List Topic
topics_named st user_id [] = []
topics_named st user_id (n ∷ names) =
    let rest = topics_named st user_id names in
    elim (Dict.get st.topics (user_id, n)) [ none ↦ rest | some topic ↦ topic ∷ rest ]

unfoldable pub list_owned_topics : TopicStorage → String → List Topic
list_owned_topics st user_id = topics_named st user_id (members st.owner_index user_id)

unfoldable pub list_user_topics : TopicStorage → String → List Topic
unfolding list_owned_topics
list_user_topics st user_id = list_owned_topics st user_id

described : Topic → Option String → Topic
described topic none = topic
described topic (some description) = record topic { description = some description }

-- The stored topic object itself is changed.
unfoldable pub update_topic :
    TopicStorage → String → String → Option String → TopicStorage × Option Topic
unfolding described
update_topic st owner_id topic_name description = elim (Dict.get st.topics (owner_id, topic_name)) [
  | none ↦ (st, none)
  | some topic ↦ (
    record st { topics = Dict.put st.topics (owner_id, topic_name) (described topic description) },
    some (described topic description),
  )
]

unfoldable pub delete_topic : TopicStorage → String → String → TopicStorage × Bool
delete_topic st owner_id topic_name = elim (Dict.get st.topics (owner_id, topic_name)) [
  | none ↦ (st, false)
  | some topic ↦ (
    record {
      topics = Dict.remove st.topics (owner_id, topic_name);
      owner_index = discard_at st.owner_index owner_id topic_name;
    },
    true,
  )
]

-- The kind of permission asked for is not looked at.
unfoldable pub user_can_access :
    TopicStorage → String → String → String → Permission → List Permission → Bool
unfolding permits
user_can_access st owner_id topic_name user_id permission_type user_permissions =
    if permits user_permissions admin
    then true
    else elim (Dict.get st.topics (owner_id, topic_name)) [
      | none ↦ true
      | some topic ↦ topic.owner_id == user_id
    ]

pub get_stats : TopicStorage → ℕ
get_stats st = length st.topics
