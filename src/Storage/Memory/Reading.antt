-- ===== src/Storage/Memory/Reading.antt =====
-- Reading a topic page by page.
use pulsar_relay.Prelude.{
  take-append-drop, ℕ, zero, suc, ◌<◌, String, eq_iff, ◌≡◌, refl, sym, ap, ◌∙◌, ◌⊎◌, inl, inr, Bool,
  false, Option, none, some, List, [], ◌∷◌, ◌++◌, arith, if◌then◌else◌, length, take, drop,
  length-drop, ◌==◌, nat_eq, string_eq, pair_eq,
}
use mathlib.Core.List.{append_assoc, append-nil, reverse}
use pulsar_relay.Storage.Memory.{
  StoredMessage, MemoryStorage, storage_key, buffer, slice_after, from_cursor, get_messages,
}

module _ {ℓ} {P : Type ℓ} where
  -- The messages of a topic in the order of reading.
  unfoldable pub ordered : MemoryStorage P → String → String → Bool → List (StoredMessage P)
  ordered st owner_id topic is_reverse =
      let messages = buffer st (storage_key owner_id topic) in
      if is_reverse then reverse messages else messages

  -- No message has the identifier.
  abbrev pub Unused : String → List (StoredMessage P) → Type 0
  Unused id [] = Unit
  Unused id (m ∷ messages) = ((m.message_id == id) ≡ false) × Unused id messages

  -- The identifiers are distinct, and none is empty.
  abbrev pub DistinctIds : List (StoredMessage P) → Type 0
  DistinctIds [] = Unit
  DistinctIds (m ∷ messages) =
      ((m.message_id == "") ≡ false) × Unused m.message_id messages × DistinctIds messages

  -- The reader asks for the next page with the last identifier of the page before, until a page is
  -- empty.
  unfoldable pub last_id : List (StoredMessage P) → Option String → Option String
  last_id [] cursor = cursor
  last_id (m ∷ messages) cursor = last_id messages (some m.message_id)

  abbrev pub unless_empty : List (StoredMessage P) → List (StoredMessage P) → List (StoredMessage P)
  unless_empty [] rest = []
  unless_empty (m ∷ page) rest = (m ∷ page) ++ rest

  unfoldable pub read_pages :
      ℕ → MemoryStorage P → String → String → ℕ → Bool → Option String → List (StoredMessage P)
  read_pages zero st owner_id topic limit is_reverse cursor = []
  read_pages (suc fuel) st owner_id topic limit is_reverse cursor =
      let page = get_messages st owner_id topic cursor limit is_reverse in
      let rest = read_pages fuel st owner_id topic limit is_reverse (last_id page cursor) in
      unless_empty page rest

  Unused-later :
      (id : String) (pre : List (StoredMessage P)) (m : StoredMessage P)
      (post : List (StoredMessage P))
      → Unused id (pre ++ m ∷ post)
      → (id == m.message_id) ≡ false
  Unused-later id [] m post u = ground (arith, eq_iff id m.message_id, eq_iff m.message_id id, u.0)
  Unused-later id (x ∷ pre) m post u = Unused-later id pre m post u.1

  append_one :
      (m : StoredMessage P) (xs ys : List (StoredMessage P)) → xs ++ (m ∷ ys) ≡ (xs ++ m ∷ []) ++ ys
  append_one m xs ys = sym (append_assoc xs (m ∷ []) ys)

  slice_after-append :
      (pre : List (StoredMessage P)) (m : StoredMessage P) (post : List (StoredMessage P))
      → DistinctIds (pre ++ m ∷ post)
      → slice_after m.message_id (pre ++ m ∷ post) ≡ some post
  unfolding slice_after
  slice_after-append [] m post d = ground (arith, eq_iff m.message_id m.message_id)
  slice_after-append (x ∷ pre) m post d =
      rw (Unused-later x.message_id pre m post d.1) (slice_after-append pre m post d.2)

  get_messages-ordered :
      (st : MemoryStorage P) (o t : String) (cursor : Option String) (limit : ℕ) (r : Bool)
      → get_messages st o t cursor limit r ≡ take limit (from_cursor cursor (ordered st o t r))
  unfolding get_messages ordered
  get_messages-ordered st o t cursor limit r = refl

  -- The cursor is at the end of `pre`: none at the start, or the identifier of its last message.
  abbrev pub Marks : Option String → List (StoredMessage P) → Type ℓ
  Marks cursor pre =
      ((cursor ≡ none) × (pre ≡ []))
      ⊎ ((before : List (StoredMessage P)) × (m : StoredMessage P) × (cursor ≡ some m.message_id)
          × (pre ≡ before ++ m ∷ []))

  last_id-Marks :
      (pre page : List (StoredMessage P)) (cursor : Option String)
      → Marks cursor pre
      → Marks (last_id page cursor) (pre ++ page)
  unfolding last_id
  last_id-Marks pre [] cursor h = rw append-nil h
  last_id-Marks pre (m ∷ page) cursor h =
      rw (append_one m pre page)
        (last_id-Marks (pre ++ m ∷ []) page (some m.message_id) (inr (pre, m, refl, refl)))

  nonempty_id :
      (pre : List (StoredMessage P)) (m : StoredMessage P) (post : List (StoredMessage P))
      → DistinctIds (pre ++ m ∷ post)
      → (m.message_id == "") ≡ false
  nonempty_id [] m post d = d.0
  nonempty_id (x ∷ pre) m post d = nonempty_id pre m post d.2

  at_message :
      (before : List (StoredMessage P)) (m : StoredMessage P) (post : List (StoredMessage P))
      → DistinctIds (before ++ m ∷ post)
      → from_cursor (some m.message_id) (before ++ m ∷ post) ≡ post
  unfolding from_cursor
  at_message before m post d =
      ground (arith, nonempty_id before m post d, slice_after-append before m post d)

  from_none : (messages : List (StoredMessage P)) → from_cursor none messages ≡ messages
  unfolding from_cursor
  from_none messages = refl

  from_cursor-Marks :
      (cursor : Option String) (pre post : List (StoredMessage P))
      → Marks cursor pre
      → DistinctIds (pre ++ post)
      → from_cursor cursor (pre ++ post) ≡ post
  from_cursor-Marks cursor pre post (inl (start, empty)) d = rw (start, empty) (from_none post)
  from_cursor-Marks cursor pre post (inr (before, m, at, split)) d =
      rw (at, split)
        (rw (← append_one m before post)
          (at_message before m post (rw (← append_one m before post) at (rw split at d))))

  page_at :
      (st : MemoryStorage P) (o t : String) (limit : ℕ) (r : Bool) (cursor : Option String)
      (pre post : List (StoredMessage P))
      → Marks cursor pre
      → ordered st o t r ≡ pre ++ post
      → DistinctIds (pre ++ post)
      → get_messages st o t cursor limit r ≡ take limit post
  page_at st o t limit r cursor pre post marks split d =
      get_messages-ordered st o t cursor limit r
      ∙ ap (take limit) (rw split (from_cursor-Marks cursor pre post marks d))

  pub read_from :
      (fuel : ℕ) (st : MemoryStorage P) (o t : String) (limit : ℕ) (r : Bool)
      (cursor : Option String) (pre post : List (StoredMessage P))
      → length post < fuel
      → Marks cursor pre
      → ordered st o t r ≡ pre ++ post
      → DistinctIds (pre ++ post)
      → read_pages fuel st o t (suc limit) r cursor ≡ post
  unfolding read_pages
  read_from zero st o t limit r cursor pre post enough marks split d = absurd (omega arith)
  read_from (suc fuel) st o t limit r cursor pre [] enough marks split d =
      rw (page_at st o t (suc limit) r cursor pre [] marks split d, read_pages)
  read_from (suc fuel) st o t limit r cursor pre (m ∷ post) enough marks split d =
      let page = take (suc limit) (m ∷ post) in
      let regroup : pre ++ (m ∷ post) ≡ (pre ++ page) ++ drop limit post =
        ap (λ l. pre ++ l) (sym (take-append-drop (suc limit) (m ∷ post)))
        ∙ sym (append_assoc pre page (drop limit post)) in
      rw (page_at st o t (suc limit) r cursor pre (m ∷ post) marks split d, read_pages)
        (ap (λ l. page ++ l)
            (read_from fuel st o t limit r (last_id page cursor) (pre ++ page) (drop limit post)
              (omega (arith, length-drop limit post)) (last_id-Marks pre page cursor marks)
              (split ∙ regroup) (rw regroup at d))
          ∙ take-append-drop (suc limit) (m ∷ post))

  -- A reader that starts with no cursor, with pages of at least one message, and that is given more
  -- pages than there are messages, reads each message of the topic exactly once, oldest first or
  -- newest first, if the identifiers of the messages are distinct and not empty.
  pub read_pages_complete :
      (fuel : ℕ) (st : MemoryStorage P) (owner_id topic : String) (limit : ℕ) (is_reverse : Bool)
      → length (ordered st owner_id topic is_reverse) < fuel
      → DistinctIds (ordered st owner_id topic is_reverse)
      → read_pages fuel st owner_id topic (suc limit) is_reverse none
        ≡ ordered st owner_id topic is_reverse
  read_pages_complete fuel st o t limit r enough d =
      read_from fuel st o t limit r none [] (ordered st o t r) enough (inl (refl, refl)) refl d
