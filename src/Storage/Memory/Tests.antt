-- ===== src/Storage/Memory/Tests.antt =====
-- Runs of the message storage.
use pulsar_relay.Prelude.{
  ℕ, String, ◌≡◌, refl, false, none, some, List, [], ◌∷◌, arith, nat_eq, string_eq, pair_eq,
}
use pulsar_relay.Dict
use pulsar_relay.Storage.Memory.{
  StoredMessage, MemoryStorage, storage_key, slice_after, init, buffer, from_cursor, get_messages,
}
use pulsar_relay.Storage.Memory.Retention.{Save, run, history, buffer-run}
use pulsar_relay.Storage.Memory.Reading.{ordered, read_pages, read_pages_complete}
use pulsar_relay.Storage.Memory.Keys.{HasNoSlash, storage_key_injective}

abbrev msg : String → String → ℕ → StoredMessage ℕ
msg id topic n = record {
  message_id = id;
  topic = topic;
  payload = n;
  timestamp = n;
  metadata = [];
}

abbrev saves : List (Save ℕ)
saves =
    record { owner_id = "alice"; message = msg "a" "jobs" 1 }
    ∷ record { owner_id = "alice"; message = msg "b" "jobs" 2 }
    ∷ record { owner_id = "bob"; message = msg "c" "jobs" 3 }
    ∷ record { owner_id = "alice"; message = msg "d" "jobs" 4 }
    ∷ []

buffer-run_example :
    buffer (run (init 2) saves) "alice/jobs" ≡ msg "b" "jobs" 2 ∷ msg "d" "jobs" 4 ∷ []
unfolding history storage_key
buffer-run_example = buffer-run 2 saves "alice/jobs"

abbrev three : MemoryStorage ℕ
three = record {
  messages = ("alice/jobs", msg "a" "jobs" 1 ∷ msg "b" "jobs" 2 ∷ msg "d" "jobs" 4 ∷ []) ∷ [];
  max_messages = 10;
}

read_pages_complete_example :
    read_pages 4 three "alice" "jobs" 2 false none
    ≡ msg "a" "jobs" 1 ∷ msg "b" "jobs" 2 ∷ msg "d" "jobs" 4 ∷ []
unfolding ordered buffer Dict.get storage_key
read_pages_complete_example =
    read_pages_complete 4 three "alice" "jobs" 1 false (omega arith)
      (refl, (refl, (refl, tt)), (refl, (refl, tt), (refl, tt, tt)))

unknown_cursor : get_messages three "alice" "jobs" (some "gone") 1 false ≡ msg "a" "jobs" 1 ∷ []
unfolding get_messages from_cursor slice_after buffer storage_key Dict.get
unknown_cursor = refl

abbrev alice : String
alice = "alice"

abbrev jobs : String
jobs = "jobs"

jobs-HasNoSlash : HasNoSlash jobs
jobs-HasNoSlash = ((λ e. cc), ((λ e. cc), ((λ e. cc), ((λ e. cc), tt))))

storage_key_injective_example : (alice ≡ alice) × (jobs ≡ jobs)
storage_key_injective_example =
    storage_key_injective alice alice jobs jobs jobs-HasNoSlash jobs-HasNoSlash refl
