-- ===== src/Auth/Topics/Tests.antt =====
-- Runs of the topic storage.
use pulsar_relay.Prelude.{
  String, eq_iff, ◌≡◌, none, some, List, [], ◌∷◌, arith, nat_eq, string_eq, pair_eq,
}
use pulsar_relay.Auth.Topics.{TopicCreate, init, get_topic, list_owned_topics}
use pulsar_relay.Auth.Topics.Ownership.{Call, creates, updates, deletes, run, IsOwned, run-IsOwned}
use pulsar_relay.Auth.Topics.Isolation.{run_isolated}

abbrev jobs : TopicCreate
jobs = record { topic_name = "jobs"; description = none }

-- Two users with a topic of the same name, and one topic that is deleted again.
abbrev calls : List Call
calls =
    creates "t1" 1 "alice" jobs
    ∷ creates "t2" 2 "bob" jobs
    ∷ creates "t3" 3 "bob" (record { topic_name = "logs"; description = none })
    ∷ updates "bob" "jobs" (some "builds")
    ∷ deletes "bob" "logs"
    ∷ []

run-IsOwned_example : IsOwned (run init calls)
run-IsOwned_example = run-IsOwned calls

run_isolated_example :
    ((n : String)
      → get_topic (run (run init calls) (deletes "bob" "jobs" ∷ [])) "alice" n
        ≡ get_topic (run init calls) "alice" n)
    × (list_owned_topics (run (run init calls) (deletes "bob" "jobs" ∷ [])) "alice"
        ≡ list_owned_topics (run init calls) "alice")
run_isolated_example =
    run_isolated (run init calls) (deletes "bob" "jobs" ∷ []) "alice"
      ((λ e. ground (arith, eq_iff "bob" "alice")), tt)
