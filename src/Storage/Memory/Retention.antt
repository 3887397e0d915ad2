-- ===== src/Storage/Memory/Retention.antt =====
-- What the buffer of a topic keeps.
use pulsar_relay.Prelude.{
  drop-nil, last, last-last-append, ℕ, String, eq_iff, ◌≡◌, refl, sym, ◌∙◌, inl, inr, some, List,
  [], ◌∷◌, ◌++◌, arith, if◌then◌else◌, Bool-cases, ◌==◌, beq_self, nat_eq, string_eq, pair_eq,
}
use mathlib.Core.List.{append-nil, append_assoc}
use pulsar_relay.Dict
use pulsar_relay.Dict.{contains, member, add, discard}
use pulsar_relay.Dict.Laws.{get-put}
use pulsar_relay.Storage.Memory.{
  StoredMessage, MemoryStorage, init, storage_key, buffer, append_bounded, save_message,
}

-- The arguments of a call of `save_message`.
pub record Save {ℓ} (P : Type ℓ) : Type ℓ where
  pub owner_id : String
  pub message : StoredMessage P

module _ {ℓ} {P : Type ℓ} where
  pub save : MemoryStorage P → Save P → MemoryStorage P
  save st s =
      save_message st s.message.message_id s.owner_id s.message.topic s.message.payload
        s.message.timestamp (some s.message.metadata)

  pub run : MemoryStorage P → List (Save P) → MemoryStorage P
  run st [] = st
  run st (s ∷ saves) = run (save st s) saves

  -- The messages of all the saves under a key, in order.
  unfoldable pub history : String → List (Save P) → List (StoredMessage P)
  history key [] = []
  history key (s ∷ saves) =
      let rest = history key saves in
      if storage_key s.owner_id s.message.topic == key then s.message ∷ rest else rest

  append_cons_assoc :
      (x : StoredMessage P) (xs ys : List (StoredMessage P)) → xs ++ (x ∷ ys) ≡ (xs ++ x ∷ []) ++ ys
  append_cons_assoc x xs ys = sym (append_assoc xs (x ∷ []) ys)

  max_messages-save :
      (st : MemoryStorage P) (s : Save P) → (save st s).max_messages ≡ st.max_messages
  unfolding save save_message
  max_messages-save st s = refl

  buffer-put :
      (st : MemoryStorage P) (k j : String) (l : List (StoredMessage P))
      → buffer (record st { messages = Dict.put st.messages k l }) j
        ≡ (if k == j then l else buffer st j)
  unfolding buffer
  buffer-put st k j l = ground (arith, get-put st.messages k j l)

  buffer-save :
      (st : MemoryStorage P) (s : Save P) (j : String)
      → buffer (save st s) j ≡ (
          if storage_key s.owner_id s.message.topic == j
          then last st.max_messages
              (buffer st (storage_key s.owner_id s.message.topic) ++ s.message ∷ [])
          else buffer st j)
  unfolding save save_message append_bounded
  buffer-save st s j = buffer-put st (storage_key s.owner_id s.message.topic) j _

  buffer-save_same :
      (st : MemoryStorage P) (s : Save P) (cap : ℕ) (before : List (StoredMessage P))
      → st.max_messages ≡ cap
      → buffer st (storage_key s.owner_id s.message.topic) ≡ last cap before
      → buffer (save st s) (storage_key s.owner_id s.message.topic)
        ≡ last cap (before ++ s.message ∷ [])
  buffer-save_same st s cap before capped h =
      buffer-save st s (storage_key s.owner_id s.message.topic)
      ∙ rw (beq_self (storage_key s.owner_id s.message.topic), h, capped)
          (last-last-append cap before s.message)

  run_from :
      (st : MemoryStorage P) (saves : List (Save P)) (key : String) (cap : ℕ)
      (before : List (StoredMessage P))
      → st.max_messages ≡ cap
      → buffer st key ≡ last cap before
      → buffer (run st saves) key ≡ last cap (before ++ history key saves)
  unfolding run history
  run_from st [] key cap before capped h = rw append-nil h
  run_from st (s ∷ saves) key cap before capped h =
      let capped' = max_messages-save st s ∙ capped in
      elim (Bool-cases (storage_key s.owner_id s.message.topic == key)) [
        | inl same ↦
            let here = (eq_iff (storage_key s.owner_id s.message.topic) key).0 same in
            rw same (
              rw append_cons_assoc (
                run_from (save st s) saves key cap (before ++ s.message ∷ []) capped'
                  (rw here at (buffer-save_same st s cap before capped (rw here h)))))
        | inr other ↦
            rw other (
              run_from (save st s) saves key cap before capped' (buffer-save st s key ∙ rw other h))
      ]

  -- From an empty storage, after any saves, the buffer under a key holds exactly the last
  -- `max_messages` of the messages saved under it, in the order in which they were saved.
  pub buffer-run :
      (max_messages : ℕ) (saves : List (Save P)) (key : String)
      → buffer (run (init max_messages) saves) key ≡ last max_messages (history key saves)
  unfolding init
  buffer-run max_messages saves key =
      run_from (init max_messages) saves key max_messages [] refl
        (unfold buffer Dict.get in sym (drop-nil _))
