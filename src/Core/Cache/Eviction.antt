-- ===== src/Core/Cache/Eviction.antt =====
-- Which entry `TTLCache.set` evicts, and the bound on the size.
use pulsar_relay.Prelude.{
  ℕ, ◌+◌, ◌≤◌, ◌<◌, String, eq_iff, ◌≡◌, refl, inl, inr, true, false, none, some, List, [], ◌∷◌,
  arith, leb, if◌then◌else◌, Bool-cases, length, ◌==◌, nat_eq, string_eq, pair_eq,
}
use pulsar_relay.Dict
use pulsar_relay.Dict.{contains}
use pulsar_relay.Dict.Laws.{get-put, get-remove, length-put, length-remove-le}
use pulsar_relay.Core.Cache.{TtlCache, get, set, make_room, evict_oldest}

module _ {ℓ} {V : Type ℓ} where
  contains-remove :
      (d : List (String × (V × ℕ))) (k j : String)
      → contains d j ≡ false
      → contains (Dict.remove d k) j ≡ false
  contains-remove d k j h = ground (arith, get-remove d k j)

  -- Dropping the first entry leaves at least one entry fewer.
  length-evict :
      (k : String) (x : V × ℕ) (rest : List (String × (V × ℕ)))
      → length (Dict.remove ((k, x) ∷ rest) k) ≤ length rest
  unfolding Dict.remove
  length-evict k x rest = ground (arith, eq_iff k k, length-remove-le rest k)

  evict_oldest_lem :
      (d : List (String × (V × ℕ))) (key : String)
      → 0 < length d
      → contains d key ≡ false
      → (d' : List (String × (V × ℕ))) × (evict_oldest d ≡ some d')
        × (length d' + 1 ≤ length d)
        × (contains d' key ≡ false)
  unfolding evict_oldest
  evict_oldest_lem [] key pos new = absurd (omega arith)
  evict_oldest_lem ((k, x) ∷ rest) key pos new = (
    Dict.remove ((k, x) ∷ rest) k,
    refl,
    omega (arith, length-evict k x rest),
    contains-remove ((k, x) ∷ rest) k key new,
  )

  make_room_lem :
      (c : TtlCache V) (key : String)
      → 0 < c.max_size
      → length c.cache ≤ c.max_size
      → (d : List (String × (V × ℕ))) × (make_room c key ≡ some d)
        × ((if contains d key then length d else length d + 1) ≤ c.max_size)
  unfolding make_room
  make_room_lem c key pos fits = elim (Bool-cases (contains c.cache key)) [
    | inl old ↦ (c.cache, ground arith, ground arith)
    | inr new ↦ elim (Bool-cases (leb c.max_size (length c.cache))) [
      | inl full ↦
          let (d, dropped, fewer, absent) = evict_oldest_lem c.cache key (ground arith) new in
          (d, ground arith, ground arith)
      | inr room ↦ (c.cache, ground arith, ground arith)
    ]
  ]

  -- With a positive `max_size` and a cache within it, `set` does not raise, and the cache stays
  -- within `max_size`.
  pub set_bounded :
      (now : ℕ) (c : TtlCache V) (key : String) (value : V)
      → 0 < c.max_size
      → length c.cache ≤ c.max_size
      → (c' : TtlCache V) × (set now c key value ≡ some c') × (length c'.cache ≤ c'.max_size)
  unfolding set
  set_bounded now c key value pos fits =
      let (d, made, small) = make_room_lem c key pos fits in
      (
        record c { cache = Dict.put d key (value, now + c.ttl) },
        rw (made, set),
        ground (arith, length-put d key (value, now + c.ttl)),
      )

  -- In a full cache whose oldest entry is `k0`, the `set` of a new key succeeds: it stores the new
  -- key, drops `k0`, and leaves every other key as it was.
  pub set_evicts :
      (now : ℕ) (c : TtlCache V) (key : String) (value : V) {k0 : String} {x : V × ℕ}
      {rest : List (String × (V × ℕ))}
      → c.cache ≡ (k0, x) ∷ rest
      → c.max_size ≤ length c.cache
      → contains c.cache key ≡ false
      → (c' : TtlCache V) × (set now c key value ≡ some c')
        × ((j : String)
            → Dict.get c'.cache j ≡ (
                if key == j
                then some (value, now + c.ttl)
                else if k0 == j
                then none
                else Dict.get c.cache j))
  unfolding set make_room evict_oldest
  set_evicts now c key value {k0} {x} {rest} first full new =
      let d = Dict.remove ((k0, x) ∷ rest) k0 in
      (
        record c { cache = Dict.put d key (value, now + c.ttl) },
        ground arith,
        λ j. ground (arith, get-put d key j (value, now + c.ttl), get-remove ((k0, x) ∷ rest) k0 j),
      )

  -- A successful read changes nothing.
  get_hit :
      (t : ℕ) (c : TtlCache V) (key : String) {hit : V}
      → (get t c key).1 ≡ some hit
      → ((get t c key).0 ≡ c) × (contains c.cache key ≡ true)
  unfolding get
  get_hit t c key h = ground arith

  -- A hit does not save an entry: if the oldest entry of a full cache is read successfully, and a
  -- new key is set right after, the entry that was just read is the one that is gone.
  pub set-get_evicts_hit :
      (t now : ℕ) (c : TtlCache V) (key : String) (value : V) {k0 : String} {x : V × ℕ}
      {rest : List (String × (V × ℕ))} {hit : V}
      → c.cache ≡ (k0, x) ∷ rest
      → c.max_size ≤ length c.cache
      → contains c.cache key ≡ false
      → (get t c k0).1 ≡ some hit
      → (c' : TtlCache V) × (set now (get t c k0).0 key value ≡ some c')
        × (Dict.get c'.cache k0 ≡ none)
  set-get_evicts_hit t now c key value {k0} {x} {rest} first full new hit =
      let (same, found) = get_hit t c k0 hit in
      let (c', stored, reads) = set_evicts now c key value first full new in
      (c', rw same stored, ground (arith, reads k0, eq_iff key k0, eq_iff k0 k0))
