-- ===== src/Core/Cache/Entries.antt =====
-- Where the entries of `TTLCache` come from.
use pulsar_relay.Prelude.{
  ℕ, ◌+◌, ◌<◌, String, eq_iff, ◌≡◌, refl, ◌⊎◌, inl, inr, false, not, ◌&&◌, some, List, [], ◌∷◌,
  arith, ltb, leb, Bool-cases, Option-cases, length, ◌==◌, nat_eq, string_eq, pair_eq,
}
use pulsar_relay.Dict
use pulsar_relay.Dict.{contains}
use pulsar_relay.Dict.Laws.{get-put, get-remove}
use pulsar_relay.Core.Cache.{TtlCache, get, set, invalidate, make_room, evict_oldest}

module _ {ℓ} {V : Type ℓ} where
  remove-entry :
      (d : List (String × (V × ℕ))) (key j : String) (x : V × ℕ)
      → Dict.get (Dict.remove d key) j ≡ some x
      → Dict.get d j ≡ some x
  remove-entry d key j x h = ground (arith, get-remove d key j)

  -- A read adds nothing.
  pub get-entry :
      (now : ℕ) (c : TtlCache V) (key j : String) (x : V × ℕ)
      → Dict.get (get now c key).0.cache j ≡ some x
      → Dict.get c.cache j ≡ some x
  unfolding get
  get-entry now c key j x h = ground (arith, get-remove c.cache key j)

  pub get-ttl : (now : ℕ) (c : TtlCache V) (key : String) → (get now c key).0.ttl ≡ c.ttl
  unfolding get
  get-ttl now c key = ground arith

  pub get-max_size :
      (now : ℕ) (c : TtlCache V) (key : String) → (get now c key).0.max_size ≡ c.max_size
  unfolding get
  get-max_size now c key = ground arith

  -- A value that is read stands in an entry that has not expired.
  pub get_found :
      (now : ℕ) (c : TtlCache V) (key : String) (value : V)
      → (get now c key).1 ≡ some value
      → (expiry : ℕ) × (Dict.get c.cache key ≡ some (value, expiry)) × (ltb expiry now ≡ false)
  unfolding get
  get_found now c key value h = elim (Option-cases (Dict.get c.cache key)) [
    | inl e ↦ absurd (ground arith)
    | inr ((v, expiry), e) ↦ (expiry, ground arith, ground arith)
  ]

  evict_oldest-entry :
      (d d' : List (String × (V × ℕ))) (j : String) (x : V × ℕ)
      → evict_oldest d ≡ some d'
      → Dict.get d' j ≡ some x
      → Dict.get d j ≡ some x
  unfolding evict_oldest
  evict_oldest-entry [] d' j x dropped h = absurd (ground arith)
  evict_oldest-entry ((k, y) ∷ rest) d' j x dropped h =
      remove-entry ((k, y) ∷ rest) k j x (ground (arith, dropped))

  make_room-entry :
      (c : TtlCache V) (key : String) (d : List (String × (V × ℕ))) (j : String) (x : V × ℕ)
      → make_room c key ≡ some d
      → Dict.get d j ≡ some x
      → Dict.get c.cache j ≡ some x
  unfolding make_room
  make_room-entry c key d j x made h =
      elim (Bool-cases (leb c.max_size (length c.cache) && not (contains c.cache key))) [
        | inl full ↦ evict_oldest-entry c.cache d j x (rw full at made) h
        | inr room ↦ ground arith
      ]

  -- A `set` that is done leaves its own entry and entries that were there before.
  pub set-entry :
      (now : ℕ) (c : TtlCache V) (key : String) (value : V) (c' : TtlCache V) (j : String)
      (x : V × ℕ)
      → set now c key value ≡ some c'
      → Dict.get c'.cache j ≡ some x
      → ((key ≡ j) × (x ≡ (value, now + c.ttl))) ⊎ (Dict.get c.cache j ≡ some x)
  unfolding set
  set-entry now c key value c' j x made h = elim (Option-cases (make_room c key)) [
    | inl e ↦ absurd (ground arith)
    | inr (d, e) ↦ elim (Bool-cases (key == j)) [
      | inl same ↦
          inl (ground (arith, eq_iff key j), ground (arith, get-put d key j (value, now + c.ttl)))
      | inr other ↦
          inr (make_room-entry c key d j x e (ground (arith, get-put d key j (value, now + c.ttl))))
    ]
  ]

  evict_oldest_succeeds :
      (d : List (String × (V × ℕ)))
      → 0 < length d
      → (d' : List (String × (V × ℕ))) × (evict_oldest d ≡ some d')
  unfolding evict_oldest
  evict_oldest_succeeds [] pos = absurd (omega arith)
  evict_oldest_succeeds ((k, y) ∷ rest) pos = (Dict.remove ((k, y) ∷ rest) k, refl)

  make_room_succeeds :
      (c : TtlCache V) (key : String)
      → 0 < c.max_size
      → (d : List (String × (V × ℕ))) × (make_room c key ≡ some d)
  unfolding make_room
  make_room_succeeds c key pos =
      elim (Bool-cases (leb c.max_size (length c.cache) && not (contains c.cache key))) [
        | inl full ↦
            let (d, dropped) = evict_oldest_succeeds c.cache (ground arith) in (d, rw full dropped)
        | inr room ↦ (c.cache, rw room refl)
      ]

  pub set_succeeds :
      (now : ℕ) (c : TtlCache V) (key : String) (value : V)
      → 0 < c.max_size
      → (c' : TtlCache V) × (set now c key value ≡ some c')
        × ((c'.max_size ≡ c.max_size) × (c'.ttl ≡ c.ttl))
  unfolding set
  set_succeeds now c key value pos =
      let (d, made) = make_room_succeeds c key pos in
      (record c { cache = Dict.put d key (value, now + c.ttl) }, rw (made, set) refl, (refl, refl))

  -- An entry that is left after an invalidation is another one's, and was there before.
  pub invalidate-entry :
      (c : TtlCache V) (key j : String) (x : V × ℕ)
      → Dict.get (invalidate c key).cache j ≡ some x
      → ((key == j) ≡ false) × (Dict.get c.cache j ≡ some x)
  unfolding invalidate
  invalidate-entry c key j x h = ground (arith, get-remove c.cache key j)

  pub invalidate-max_size :
      (c : TtlCache V) (key : String) → (invalidate c key).max_size ≡ c.max_size
  unfolding invalidate
  invalidate-max_size c key = refl

  pub set_settled :
      (now : ℕ) (c : TtlCache V) (key : String) (value : V) (c' : TtlCache V)
      → set now c key value ≡ some c'
      → (c'.max_size ≡ c.max_size) × (c'.ttl ≡ c.ttl)
  unfolding set
  set_settled now c key value c' made = elim (Option-cases (make_room c key)) [
    | inl e ↦ absurd (ground arith)
    | inr (d, e) ↦ ground arith
  ]
