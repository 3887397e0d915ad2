-- ===== src/Storage/Memory.antt =====
-- pulsar_relay/storage/memory.py: `MemoryStorage`. The payload is a JSON value of any type.
pub mod Retention
pub mod Reading
pub mod Keys
mod Tests
use Prim.Native.String.{◌++◌ as text_append}
use pulsar_relay.Prelude.{
  is_none, ℕ, zero, suc, ◌+◌, ◌-◌, ◌*◌, ◌/◌, ◌%◌, ◌≤◌, ◌<◌, min, max, String, eq_iff, ◌≡◌, refl,
  sym, ap, ◌∙◌, ◌≢◌, ◌↔◌, ◌⊎◌, inl, inr, Bool, true, false, not, ◌&&◌, ◌||◌, Option, none, some,
  List, [], ◌∷◌, ◌++◌, map, arith, ltb, leb, nat_beq, if◌then◌else◌, nat_beq_iff, Bool-cases,
  Option-cases, length, take, drop, length-append, length-drop, length-take-le, filter_by, Eq, ◌==◌,
  beq_self, nat_eq, string_eq, pair_beq, pair_beq_iff, pair_eq, texts_beq, texts_iff, All,
}
use mathlib.Core.List.{reverse}
use pulsar_relay.Dict
use pulsar_relay.Dict.{contains, member, add, discard}

pub record StoredMessage {ℓ} (P : Type ℓ) : Type ℓ where
  pub message_id : String
  pub topic : String
  pub payload : P
  pub timestamp : ℕ
  pub metadata : List (String × String)

pub record MemoryStorage {ℓ} (P : Type ℓ) : Type ℓ where
  pub messages : List (String × List (StoredMessage P))
  pub max_messages : ℕ

-- f"{owner_id}/{topic}"
unfoldable pub storage_key : String → String → String
storage_key owner_id topic = text_append owner_id (text_append "/" topic)

-- `deque(maxlen=n).append(x)`: what is over the bound leaves at the left end.
unfoldable pub append_bounded {ℓ} : {A : Type ℓ} → ℕ → List A → A → List A
append_bounded n l x = let l' = l ++ x ∷ [] in drop (length l' - n) l'

-- next(i for i, msg in enumerate(messages) if msg["message_id"] == since), and the slice behind it;
-- `none` is the StopIteration.
unfoldable pub slice_after {ℓ} :
    {P : Type ℓ} → String → List (StoredMessage P) → Option (List (StoredMessage P))
slice_after since [] = none
slice_after since (msg ∷ messages) =
    let rest = slice_after since messages in if msg.message_id == since then some messages else rest

-- `metadata or {}`
abbrev pub metadata_or_empty : Option (List (String × String)) → List (String × String)
metadata_or_empty none = []
metadata_or_empty (some metadata) = metadata

module _ {ℓ} {P : Type ℓ} where
  pub init : ℕ → MemoryStorage P
  init max_messages_per_topic = record { messages = []; max_messages = max_messages_per_topic }

  -- The buffer of a key, empty where there is none.
  unfoldable pub buffer : MemoryStorage P → String → List (StoredMessage P)
  buffer st key = elim (Dict.get st.messages key) [ none ↦ [] | some messages ↦ messages ]

  -- The identifier is the uuid's.
  unfoldable pub save_message :
      MemoryStorage P
      → String
      → String
      → String
      → P
      → ℕ
      → Option (List (String × String))
      → MemoryStorage P
  unfolding buffer append_bounded
  save_message st message_id owner_id topic payload timestamp metadata =
      let key = storage_key owner_id topic in
      let message : StoredMessage P = record {
        message_id = message_id;
        topic = topic;
        payload = payload;
        timestamp = timestamp;
        metadata = metadata_or_empty metadata;
      } in
      record st {
        messages =
            Dict.put st.messages key (append_bounded st.max_messages (buffer st key) message);
      }

  -- An empty cursor is no cursor, and an unknown one is ignored.
  unfoldable pub from_cursor : Option String → List (StoredMessage P) → List (StoredMessage P)
  unfolding slice_after
  from_cursor none messages = messages
  from_cursor (some since) messages =
      if since == ""
      then messages
      else elim (slice_after since messages) [ none ↦ messages | some rest ↦ rest ]

  unfoldable pub get_messages :
      MemoryStorage P → String → String → Option String → ℕ → Bool → List (StoredMessage P)
  unfolding from_cursor buffer
  get_messages st owner_id topic since limit is_reverse =
      let messages = buffer st (storage_key owner_id topic) in
      take limit (from_cursor since (if is_reverse then reverse messages else messages))

  unfoldable pub trim_topic : MemoryStorage P → String → String → ℕ → MemoryStorage P × ℕ
  unfolding buffer
  trim_topic st owner_id topic max_messages =
      let key = storage_key owner_id topic in
      let current_length = length (buffer st key) in
      if leb current_length max_messages then (st, 0) else (
        record st {
          messages =
              Dict.put st.messages key (drop (current_length - max_messages) (buffer st key));
        },
        current_length - max_messages,
      )

  unfoldable pub get_topic_length : MemoryStorage P → String → String → ℕ
  unfolding buffer
  get_topic_length st owner_id topic = length (buffer st (storage_key owner_id topic))

  pub clear : MemoryStorage P → MemoryStorage P
  clear st = record st { messages = [] }
