-- ===== src/Client/Polling/Tests.antt =====
-- Polls of a client, and its cursors.
use pulsar_relay.Prelude.{
  ℕ, ◌+◌, String, ◌≡◌, refl, Bool, true, false, none, some, List, [], ◌∷◌, arith, nat_eq, string_eq,
  pair_eq,
}
use pulsar_relay.Clock.{seconds}
use pulsar_relay.Dict
use pulsar_relay.Core.Polling.{init}
use pulsar_relay.Core.Polling.Invariant.{init-IsIndexed}
use pulsar_relay.Storage.Memory.{MemoryStorage, StoredMessage, buffer, storage_key}
use pulsar_relay.Api.Models.{WebSocketMessage}
use pulsar_relay.Api.Polling.Tests.{alice, no_topics, idle, below_limit, all_allowed}
use pulsar_relay.Client.Auth.{AuthManager, valid_token, get_token}
use pulsar_relay.Client.Cursors.{
  absent, holds, Cursors, get_last_message_id, load_cursor, loaded, with_value, set_last_message_id,
  persist_if_path, persist,
}
use pulsar_relay.Client.Cursors.Restart.{Move, set, clear, run, restart_resumes}
use pulsar_relay.Client.Polling.{
  Received, response, received, PollEnvironment, long_poll, track, track_all, concluded,
  after_request, first_request, poll_data,
}
use pulsar_relay.Client.Polling.Reading.{consume, stored_json, resumed_reads_all}

abbrev moves : List (Move × Bool)
moves =
    (set "jobs" "m1", true)
    ∷ (set "jobs" "m2", false)
    ∷ (clear (some "logs"), true)
    ∷ (set "logs" "m3", false)
    ∷ []

restart_resumes_example :
    ((run (load_cursor (holds (("logs", "m0") ∷ ("jobs", "") ∷ []))) moves).last_message_ids
      ≡ ("jobs", "m2") ∷ ("logs", "m3") ∷ [])
    × ((load_cursor
          (run
            (load_cursor (holds (("logs", "m0") ∷ ("jobs", "") ∷ [])))
            moves).file).last_message_ids
        ≡ ("jobs", "m2") ∷ [])
unfolding loaded with_value Dict.put Dict.remove
restart_resumes_example =
    restart_resumes (holds (("logs", "m0") ∷ ("jobs", "") ∷ [])) moves
      (refl, (refl, (tt, (refl, tt))))

-- A relay that answers every poll with three messages, one of them without an identifier.
abbrev answers : List (Received ℕ)
answers =
    record { topic = some "jobs"; message_id = some "m1"; body = 1 }
    ∷ record { topic = some "jobs"; message_id = none; body = 2 }
    ∷ record { topic = some "jobs"; message_id = some "m4"; body = 3 }
    ∷ []

abbrev answering : PollEnvironment ℕ ℕ
answering = record {
  clock = λ n. 0;
  authenticate = λ n. (n, some ("jwt", 1000));
  post = λ token q n. (n + 1, response 200 answers);
  writes = true;
}

abbrev bearer : AuthManager
bearer = record { token = some "jwt"; token_expiry = some (seconds 1000) }

abbrev at_m0 : Cursors
at_m0 = record { last_message_ids = ("jobs", "m0") ∷ []; cursor_path = false; file = absent }

abbrev at_m4 : Cursors
at_m4 = record { last_message_ids = ("jobs", "m4") ∷ []; cursor_path = false; file = absent }

polled :
    long_poll answering bearer at_m0 ("jobs" ∷ []) 30 0 ≡ (bearer, (at_m4, (1, received answers)))
unfolding long_poll first_request after_request concluded poll_data track_all track get_token
    valid_token set_last_message_id persist_if_path persist Dict.put
polled = refl

abbrev msg : String → ℕ → StoredMessage ℕ
msg id n = record { message_id = id; topic = "jobs"; payload = n; timestamp = n; metadata = [] }

abbrev three : MemoryStorage ℕ
three = record {
  messages = ("u1/jobs", msg "m0" 0 ∷ msg "m1" 1 ∷ msg "m2" 2 ∷ []) ∷ [];
  max_messages = 10;
}

-- The client has seen the first of the three messages.
resumed_reads_all_example :
    consume no_topics three alice "w1" "jobs" 30 true 5 bearer at_m0 (idle {M = WebSocketMessage ℕ})
    ≡ stored_json no_topics three alice "w1" "jobs" 30 true (msg "m1" 1 ∷ msg "m2" 2 ∷ [])
unfolding valid_token Dict.get init get_last_message_id buffer storage_key
resumed_reads_all_example =
    resumed_reads_all no_topics three alice "w1" "jobs" 30 true bearer "jwt" refl refl all_allowed
      idle (init-IsIndexed 5) refl below_limit 5 at_m0 [] (msg "m1" 1 ∷ msg "m2" 2 ∷ [])
      (msg "m0" 0) refl refl (refl, (refl, (refl, tt)), (refl, (refl, tt), (refl, tt, tt)))
      (omega arith)
