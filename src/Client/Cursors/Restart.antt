-- ===== src/Client/Cursors/Restart.antt =====
-- A restart resumes at the cursors that were set last.
use pulsar_relay.Prelude.{
  String, ◌≡◌, refl, ap, Bool, true, false, Option, none, some, List, [], ◌∷◌, All, Bool-cases, inl,
  inr, if◌then◌else◌, ◌==◌, nat_eq, string_eq, pair_eq,
}
use pulsar_relay.Dict
use pulsar_relay.Client.Cursors.{
  CursorFile, absent, broken, holds, Cursors, persist, persist_if_path, set_last_message_id,
  clear_tracked_message_ids, with_value, loaded, load_cursor,
}

-- The calls that move the cursors.
pub data Move : Type 0 where
  set : String → String → Move
  clear : Option String → Move

-- The calls, each with whether its write succeeds.
abbrev pub move : Cursors → Move × Bool → Cursors
move c (set topic message_id, writes) = set_last_message_id writes c topic message_id
move c (clear topic, writes) = clear_tracked_message_ids writes c topic

abbrev pub run : Cursors → List (Move × Bool) → Cursors
run c [] = c
run c (m ∷ moves) = run (move c m) moves

-- An empty identifier is never set: `long_poll` passes over it.
abbrev pub SetsSome : Move × Bool → Type 0
SetsSome (set topic message_id, writes) = (message_id == "") ≡ false
SetsSome (clear topic, writes) = Unit

abbrev AllSome : List (String × String) → Type 0
AllSome [] = Unit
AllSome ((topic, message_id) ∷ entries) = ((message_id == "") ≡ false) × AllSome entries

with_value-whole :
    (entries : List (String × String)) → AllSome entries → with_value entries ≡ entries
unfolding with_value
with_value-whole [] h = refl
with_value-whole ((topic, message_id) ∷ entries) h = rw (h.0, with_value-whole entries h.1) refl

put-AllSome :
    (entries : List (String × String)) (topic message_id : String)
    → (message_id == "") ≡ false
    → AllSome entries
    → AllSome (Dict.put entries topic message_id)
unfolding Dict.put
put-AllSome [] topic message_id some_id h = (some_id, tt)
put-AllSome ((t, m) ∷ entries) topic message_id some_id h = elim (Bool-cases (t == topic)) [
  | inl same ↦ rw same (some_id, h.1)
  | inr other ↦ rw other (h.0, put-AllSome entries topic message_id some_id h.1)
]

remove-AllSome :
    (entries : List (String × String)) (topic : String)
    → AllSome entries
    → AllSome (Dict.remove entries topic)
unfolding Dict.remove
remove-AllSome [] topic h = tt
remove-AllSome ((t, m) ∷ entries) topic h = elim (Bool-cases (t == topic)) [
  | inl same ↦ rw same (remove-AllSome entries topic h.1)
  | inr other ↦ rw other (h.0, remove-AllSome entries topic h.1)
]

with_value-AllSome : (entries : List (String × String)) → AllSome (with_value entries)
unfolding with_value
with_value-AllSome [] = tt
with_value-AllSome ((topic, message_id) ∷ entries) = elim (Bool-cases (message_id == "")) [
  | inl empty ↦ rw empty (with_value-AllSome entries)
  | inr some_id ↦ rw some_id (some_id, with_value-AllSome entries)
]

abbrev pub moved : List (String × String) → Move → List (String × String)
moved ids (set topic message_id) = Dict.put ids topic message_id
moved ids (clear (some topic)) = Dict.remove ids topic
moved ids (clear none) = []

-- What the cursors promise: the identifiers in memory, and those that a restart would find, which
-- are the ones in memory at the last write that succeeded.
abbrev pub promised :
    List (String × String) × List (String × String)
    → List (Move × Bool)
    → List (String × String) × List (String × String)
promised st [] = st
promised (ids, durable) ((m, writes) ∷ moves) =
    promised (moved ids m, if writes then moved ids m else durable) moves

moved-AllSome :
    (ids : List (String × String)) (m : Move) (writes : Bool)
    → SetsSome (m, writes)
    → AllSome ids
    → AllSome (moved ids m)
moved-AllSome ids (set topic message_id) writes s h = put-AllSome ids topic message_id s h
moved-AllSome ids (clear (some topic)) writes s h = remove-AllSome ids topic h
moved-AllSome ids (clear none) writes s h = tt

-- The cursors, the identifiers in memory and the durable ones agree.
record Agrees (c : Cursors) (ids durable : List (String × String)) : Type 0 where
  path : c.cursor_path ≡ true
  memory : c.last_message_ids ≡ ids
  disk : loaded c.file ≡ durable
  some_ids : AllSome ids

persist-Agrees :
    (c : Cursors) (ids durable : List (String × String)) (writes : Bool)
    → c.cursor_path ≡ true
    → c.last_message_ids ≡ ids
    → loaded c.file ≡ durable
    → AllSome ids
    → Agrees (persist_if_path writes c) ids (if writes then ids else durable)
unfolding persist_if_path persist loaded
persist-Agrees c ids durable true path memory disk some_ids =
    rw (path, persist_if_path)
      (record {
        path = refl;
        memory = memory;
        disk = rw memory (with_value-whole ids some_ids);
        some_ids = some_ids;
      })
persist-Agrees c ids durable false path memory disk some_ids =
    rw (path, persist_if_path)
      (record { path = refl; memory = memory; disk = disk; some_ids = some_ids })

move-Agrees :
    (c : Cursors) (ids durable : List (String × String)) (m : Move) (writes : Bool)
    → SetsSome (m, writes)
    → Agrees c ids durable
    → Agrees (move c (m, writes)) (moved ids m) (if writes then moved ids m else durable)
unfolding set_last_message_id clear_tracked_message_ids
move-Agrees c ids durable (set topic message_id) writes s a =
    persist-Agrees (record c { last_message_ids = Dict.put c.last_message_ids topic message_id })
      (Dict.put ids topic message_id) durable writes a.path
      (ap (λ l. Dict.put l topic message_id) a.memory) a.disk
      (put-AllSome ids topic message_id s a.some_ids)
move-Agrees c ids durable (clear (some topic)) writes s a =
    persist-Agrees (record c { last_message_ids = Dict.remove c.last_message_ids topic })
      (Dict.remove ids topic) durable writes a.path (ap (λ l. Dict.remove l topic) a.memory) a.disk
      (remove-AllSome ids topic a.some_ids)
move-Agrees c ids durable (clear none) writes s a =
    persist-Agrees (record c { last_message_ids = [] }) [] durable writes a.path refl a.disk tt

run-Agrees :
    (c : Cursors) (ids durable : List (String × String)) (moves : List (Move × Bool))
    → All SetsSome moves
    → Agrees c ids durable
    → Agrees (run c moves) (promised (ids, durable) moves).0 (promised (ids, durable) moves).1
run-Agrees c ids durable [] h a = a
run-Agrees c ids durable ((m, writes) ∷ moves) h a =
    run-Agrees (move c (m, writes)) (moved ids m) (if writes then moved ids m else durable) moves
      h.1 (move-Agrees c ids durable m writes h.0 a)

loaded-AllSome : (file : CursorFile) → AllSome (loaded file)
unfolding loaded
loaded-AllSome absent = tt
loaded-AllSome broken = tt
loaded-AllSome (holds entries) = with_value-AllSome entries

start-Agrees : (file : CursorFile) → Agrees (load_cursor file) (loaded file) (loaded file)
unfolding load_cursor
start-Agrees file = record {
  path = refl;
  memory = refl;
  disk = refl;
  some_ids = loaded-AllSome file;
}

-- After any sequence of settings and clearings of cursors, none of which sets an empty identifier,
-- each with a write that succeeds or fails, a transport that started with a file tracks exactly the
-- cursors that were set and not cleared, and a new transport that starts with its file resumes at
-- those tracked at the last write that succeeded, or, before any, at those of the old file.
pub restart_resumes :
    (file : CursorFile) (moves : List (Move × Bool))
    → All SetsSome moves
    → ((run (load_cursor file) moves).last_message_ids
        ≡ (promised (loaded file, loaded file) moves).0)
      × ((load_cursor (run (load_cursor file) moves).file).last_message_ids
          ≡ (promised (loaded file, loaded file) moves).1)
unfolding load_cursor
restart_resumes file moves h =
    let a = run-Agrees (load_cursor file) (loaded file) (loaded file) moves h (start-Agrees file) in
    (a.memory, a.disk)
