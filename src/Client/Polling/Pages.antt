-- ===== src/Client/Polling/Pages.antt =====
-- Every message of a page has an identifier.
use pulsar_relay.Prelude.{
  ℕ, zero, suc, String, ◌≡◌, false, Option, none, some, List, [], ◌∷◌, take, Bool-cases, inl, inr,
  All, ◌==◌, nat_eq, string_eq, pair_eq,
}
use pulsar_relay.Storage.Memory.{
  MemoryStorage, StoredMessage, buffer, storage_key, slice_after, from_cursor, get_messages,
}
use pulsar_relay.Storage.Memory.Reading.{DistinctIds}

-- An identifier is there and not empty.
abbrev pub HasId {ℓ} : {P : Type ℓ} → StoredMessage P → Type 0
HasId m = (m.message_id == "") ≡ false

module _ {ℓ} {P : Type ℓ} where
  pub DistinctIds-HasId : (xs : List (StoredMessage P)) → DistinctIds xs → All HasId xs
  DistinctIds-HasId [] d = tt
  DistinctIds-HasId (x ∷ xs) d = (d.0, DistinctIds-HasId xs d.2)

  take-HasId : (n : ℕ) (xs : List (StoredMessage P)) → All HasId xs → All HasId (take n xs)
  take-HasId zero xs h = tt
  take-HasId (suc n) [] h = tt
  take-HasId (suc n) (x ∷ xs) h = (h.0, take-HasId n xs h.1)

  abbrev SomeHasId : Option (List (StoredMessage P)) → Type 0
  SomeHasId none = Unit
  SomeHasId (some xs) = All HasId xs

  slice-HasId :
      (since : String) (xs : List (StoredMessage P))
      → All HasId xs
      → SomeHasId (slice_after since xs)
  unfolding slice_after
  slice-HasId since [] h = tt
  slice-HasId since (x ∷ xs) h = elim (Bool-cases (x.message_id == since)) [
    | inl found ↦ rw found h.1
    | inr other ↦ rw other (slice-HasId since xs h.1)
  ]

  rest_or-HasId :
      (xs : List (StoredMessage P)) (o : Option (List (StoredMessage P)))
      → All HasId xs
      → SomeHasId o
      → All HasId (elim o [ none ↦ xs | some rest ↦ rest ])
  rest_or-HasId xs none h k = h
  rest_or-HasId xs (some rest) h k = k

  cursor-HasId :
      (cursor : Option String) (xs : List (StoredMessage P))
      → All HasId xs
      → All HasId (from_cursor cursor xs)
  unfolding from_cursor
  cursor-HasId none xs h = h
  cursor-HasId (some since) xs h = elim (Bool-cases (since == "")) [
    | inl empty ↦ rw empty h
    | inr given ↦ rw given (rest_or-HasId xs (slice_after since xs) h (slice-HasId since xs h))
  ]

  pub page-HasId :
      (st : MemoryStorage P) (owner_id topic : String) (cursor : Option String)
      → All HasId (buffer st (storage_key owner_id topic))
      → All HasId (get_messages st owner_id topic cursor 100 false)
  unfolding get_messages
  page-HasId st owner_id topic cursor h = take-HasId 100 _ (cursor-HasId cursor _ h)
