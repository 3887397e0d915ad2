-- ===== src/Auth/Topics/Isolation.antt =====
-- What one owner does is not seen by another.
use pulsar_relay.Prelude.{
  String, eq_iff, ◌≡◌, refl, ◌∙◌, ◌≢◌, inl, inr, List, [], ◌∷◌, arith, Option-cases, nat_eq,
  string_eq, pair_eq, All,
}
use pulsar_relay.Dict
use pulsar_relay.Dict.{contains, member, add, discard}
use pulsar_relay.Dict.Laws.{get-put, get-remove}
use pulsar_relay.Dict.Multi.{members, file, discard_at}
use pulsar_relay.Dict.Distinct.{members-put}
use pulsar_relay.Auth.Topics.{
  TopicStorage, new_topic, described, create_topic, get_topic, topics_named, list_owned_topics,
  update_topic, delete_topic,
}
use pulsar_relay.Auth.Topics.Ownership.{Call, creates, updates, deletes, step, run}

abbrev pub owner_of : Call → String
owner_of (creates topic_id now owner_id topic_data) = owner_id
owner_of (updates owner_id topic_name description) = owner_id
owner_of (deletes owner_id topic_name) = owner_id

get-step :
    (st : TopicStorage) (c : Call) (b n : String)
    → owner_of c ≢ b
    → Dict.get (step st c).topics (b, n) ≡ Dict.get st.topics (b, n)
unfolding step create_topic update_topic delete_topic
get-step st (creates topic_id now owner d) b n h = ground (
  arith,
  get-put st.topics (owner, d.topic_name) (b, n) (new_topic topic_id now owner d),
  eq_iff owner b,
)
get-step st (updates owner name description) b n h =
    elim (Option-cases (Dict.get st.topics (owner, name))) [
      | inl missing ↦ ground arith
      | inr (t, found) ↦
          ground (
            arith,
            get-put st.topics (owner, name) (b, n) (described t description),
            eq_iff owner b,
          )
    ]
get-step st (deletes owner name) b n h =
    ground (arith, get-remove st.topics (owner, name) (b, n), eq_iff owner b)

members-step :
    (st : TopicStorage) (c : Call) (b : String)
    → owner_of c ≢ b
    → members (step st c).owner_index b ≡ members st.owner_index b
unfolding step create_topic update_topic delete_topic file discard_at
members-step st (creates topic_id now owner d) b h = ground (
  arith,
  members-put st.owner_index owner b (add (members st.owner_index owner) d.topic_name),
  eq_iff owner b,
)
members-step st (updates owner name description) b h = ground arith
members-step st (deletes owner name) b h = elim (Option-cases (Dict.get st.owner_index owner)) [
  | inl missing ↦ ground arith
  | inr (s, found) ↦
      ground (arith, members-put st.owner_index owner b (discard s name), eq_iff owner b)
]

topics_named-step :
    (st : TopicStorage) (c : Call) (b : String) (names : List String)
    → owner_of c ≢ b
    → topics_named (step st c) b names ≡ topics_named st b names
unfolding topics_named
topics_named-step st c b [] h = refl
topics_named-step st c b (n ∷ names) h =
    ground (arith, topics_named-step st c b names h, get-step st c b n h)

list-step :
    (st : TopicStorage) (c : Call) (b : String)
    → owner_of c ≢ b
    → list_owned_topics (step st c) b ≡ list_owned_topics st b
unfolding list_owned_topics
list-step st c b h =
    rw (members-step st c b h) (topics_named-step st c b (members st.owner_index b) h)

-- Calls of other owners change nothing for an owner: each of the owner's topics reads as before, and
-- the same topics are listed, in the same order.
pub run_isolated :
    (st : TopicStorage) (calls : List Call) (b : String)
    → All (λ c. owner_of c ≢ b) calls
    → ((n : String) → get_topic (run st calls) b n ≡ get_topic st b n)
      × (list_owned_topics (run st calls) b ≡ list_owned_topics st b)
unfolding run get_topic
run_isolated st [] b h = (λ n. refl, refl)
run_isolated st (c ∷ calls) b h =
    let (reads, lists) = run_isolated (step st c) calls b h.1 in
    (λ n. reads n ∙ get-step st c b n h.0, lists ∙ list-step st c b h.0)
