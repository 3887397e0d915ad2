-- ===== src/Client/Cursors.antt =====
-- client/pulsar_relay_client/transport.py: the cursors, one message identifier for each topic, and
-- the file that keeps them across restarts.
pub mod Restart
use pulsar_relay.Prelude.{
  String, Bool, true, false, Option, none, some, List, [], ◌∷◌, if◌then◌else◌, ◌==◌, nat_eq,
  string_eq, pair_eq,
}
use pulsar_relay.Dict
use pulsar_relay.Dict.{contains}

-- The file: absent, no JSON object, or an object whose values are texts.
pub data CursorFile : Type 0 where
  absent broken : CursorFile
  holds : List (String × String) → CursorFile

-- `cursor_path` says whether the transport has a file.
pub record Cursors : Type 0 where
  pub last_message_ids : List (String × String)
  pub cursor_path : Bool
  pub file : CursorFile

unfoldable pub get_last_message_id : Cursors → String → Option String
get_last_message_id c topic = Dict.get c.last_message_ids topic

-- The file is replaced as a whole, or, where that fails, stays as it is: `writes` says which.
unfoldable pub persist : Bool → Cursors → Cursors
persist writes c = if writes then record c { file = holds c.last_message_ids } else c

unfoldable pub persist_if_path : Bool → Cursors → Cursors
unfolding persist
persist_if_path writes c = if c.cursor_path then persist writes c else c

unfoldable pub set_last_message_id : Bool → Cursors → String → String → Cursors
unfolding persist_if_path
set_last_message_id writes c topic message_id =
    persist_if_path writes
      (record c { last_message_ids = Dict.put c.last_message_ids topic message_id })

unfoldable pub clear_tracked_message_ids : Bool → Cursors → Option String → Cursors
unfolding persist_if_path
clear_tracked_message_ids writes c (some topic) =
    persist_if_path writes (record c { last_message_ids = Dict.remove c.last_message_ids topic })
clear_tracked_message_ids writes c none =
    persist_if_path writes (record c { last_message_ids = [] })

-- {str(k): str(v) for k, v in data.items() if v}
unfoldable pub with_value : List (String × String) → List (String × String)
with_value [] = []
with_value ((topic, message_id) ∷ entries) =
    let rest = with_value entries in if message_id == "" then rest else (topic, message_id) ∷ rest

unfoldable pub loaded : CursorFile → List (String × String)
unfolding with_value
loaded absent = []
loaded broken = []
loaded (holds entries) = with_value entries

-- A transport that starts with a file.
unfoldable pub load_cursor : CursorFile → Cursors
unfolding loaded
load_cursor file = record { last_message_ids = loaded file; cursor_path = true; file = file }
