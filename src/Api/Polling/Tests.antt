-- ===== src/Api/Polling/Tests.antt =====
-- Requests to the polling endpoint.
use pulsar_relay.Prelude.{
  ℕ, String, ◌≡◌, refl, inr, true, false, none, some, List, [], ◌∷◌, arith, leb, nat_eq, string_eq,
  pair_eq,
}
use pulsar_relay.Dict
use pulsar_relay.Dict.{member}
use pulsar_relay.Core.Polling.{PollManager, init, count_of}
use pulsar_relay.Core.Polling.Invariant.{IsIndexed, init-IsIndexed}
use pulsar_relay.Core.Polling.Wakes.{broadcast_all}
use pulsar_relay.Auth.Topics.{TopicStorage, read, user_can_access}
use pulsar_relay.Auth.Users.{User}
use pulsar_relay.Storage.Memory.{
  MemoryStorage, StoredMessage, get_messages, from_cursor, slice_after, buffer, storage_key,
}
use pulsar_relay.Api.Polling.{
  PollRequest, is_valid_request, PollResponse, Polled, stored, live_as, denied_topics, catch_up,
  backlog, long_poll,
}
use pulsar_relay.Api.Polling.Waiting.{poll_receives}
use pulsar_relay.Api.Polling.Backlog.{unread, poll_catches_up}

abbrev pub alice : User
alice = record {
  user_id = "u1";
  username = "alice";
  email = none;
  hashed_password = none;
  is_active = true;
  created_at = 0;
  permissions = read ∷ [];
  owned_topics = [];
  federated_identities = [];
}

abbrev pub no_topics : TopicStorage
no_topics = record { topics = []; owner_index = [] }

abbrev pub idle {ℓ} : {M : Type ℓ} → PollManager M
idle = init 5

pub below_limit : leb 5 (count_of [] "u1") ≡ false
unfolding count_of Dict.get
below_limit = refl

pub all_allowed : denied_topics no_topics alice ("jobs" ∷ []) ≡ []
unfolding denied_topics user_can_access Dict.get
all_allowed = refl

abbrev ask : PollRequest
ask = record { topics = "jobs" ∷ []; since = none; timeout = 30 }

abbrev empty_storage : MemoryStorage ℕ
empty_storage = record { messages = []; max_messages = 10 }

valid : is_valid_request ask ≡ true
unfolding is_valid_request
valid = refl

nothing_behind : catch_up {M = String} empty_storage alice ask ≡ []
unfolding catch_up
nothing_behind = refl

-- Another user's topic of the same name is another channel.
abbrev heard : List (String × String)
heard = ("u2/jobs", "not yours") ∷ ("u1/jobs", "one") ∷ ("u1/logs", "no") ∷ ("u1/jobs", "two") ∷ []

poll_receives_example :
    (let after =
        long_poll no_topics empty_storage
          (idle {M = String})
          "w1"
          0
          alice
          ask
          (λ m. broadcast_all m heard) in
      (after.1 ≡ inr (record { messages = live_as ("one" ∷ "two" ∷ []); has_more = false }))
      × (Dict.get after.0.waiters "w1" ≡ none)
      × IsIndexed after.0)
unfolding member Dict.get init
poll_receives_example =
    poll_receives no_topics empty_storage idle "w1" 0 alice ask "jobs" [] heard (init-IsIndexed 5)
      refl refl valid all_allowed nothing_behind below_limit (omega arith)

abbrev msg : String → ℕ → StoredMessage ℕ
msg id n = record { message_id = id; topic = "jobs"; payload = n; timestamp = n; metadata = [] }

abbrev two_behind : MemoryStorage ℕ
two_behind = record {
  messages = ("u1/jobs", msg "m0" 0 ∷ msg "m1" 1 ∷ msg "m2" 2 ∷ []) ∷ [];
  max_messages = 10;
}

abbrev resume : PollRequest
resume = record { topics = "jobs" ∷ []; since = some (("jobs", "m0") ∷ []); timeout = 30 }

valid_resume : is_valid_request resume ≡ true
unfolding is_valid_request
valid_resume = refl

abbrev behind : List (Polled ℕ String)
behind = stored "jobs" (msg "m1" 1) ∷ stored "jobs" (msg "m2" 2) ∷ []

behind_eq : backlog {M = String} two_behind "u1" (("jobs", "m0") ∷ []) ("jobs" ∷ []) ≡ behind
unfolding backlog get_messages from_cursor slice_after buffer storage_key Dict.get
behind_eq = refl

poll_catches_up_example :
    (response : PollResponse ℕ String) × (long_poll no_topics two_behind idle "w1" 0 alice resume
        (λ m. m)
      ≡ (idle, inr response))
    × (response.messages ≡ backlog two_behind "u1" (("jobs", "m0") ∷ []) ("jobs" ∷ []))
    × (response.has_more ≡ false
        → response.messages ≡ unread two_behind "u1" (("jobs", "m0") ∷ []) ("jobs" ∷ []))
poll_catches_up_example =
    poll_catches_up no_topics two_behind idle "w1" 0 alice resume "jobs" [] ("jobs", "m0") []
      (stored "jobs" (msg "m1" 1)) (stored "jobs" (msg "m2" 2) ∷ []) (λ m. m) refl refl valid_resume
      all_allowed behind_eq
