-- ===== src/Core/Cache.antt =====
-- pulsar_relay/core/cache.py: `TTLCache`.
pub mod Expiry
pub mod Eviction
pub mod Entries
mod Tests
use pulsar_relay.Prelude.{
  ℕ, zero, suc, ◌+◌, ◌-◌, ◌*◌, ◌/◌, ◌%◌, ◌≤◌, ◌<◌, min, max, String, eq_iff, ◌≡◌, refl, sym, ap,
  ◌∙◌, ◌≢◌, ◌↔◌, ◌⊎◌, inl, inr, Bool, true, false, not, ◌&&◌, ◌||◌, Option, none, some, List, [],
  ◌∷◌, ◌++◌, map, arith, ltb, leb, nat_beq, if◌then◌else◌, nat_beq_iff, Bool-cases, Option-cases,
  length, take, drop, length-append, length-drop, length-take-le, filter_by, Eq, ◌==◌, beq_self,
  nat_eq, string_eq, pair_beq, pair_beq_iff, pair_eq, All,
}
use pulsar_relay.Dict
use pulsar_relay.Dict.{contains}

-- The entries are (value, expiry_time) by key, in the order of a Python dict. Times are ticks.
pub record TtlCache {ℓ} (V : Type ℓ) : Type ℓ where
  pub ttl : ℕ
  pub max_size : ℕ
  pub cache : List (String × (V × ℕ))

module _ {ℓ} {V : Type ℓ} where
  pub init : ℕ → ℕ → TtlCache V
  init ttl max_size = record { ttl = ttl; max_size = max_size; cache = [] }

  -- An expired entry is dropped by the read that meets it.
  pub get : ℕ → TtlCache V → String → TtlCache V × Option V
  get now c key = elim (Dict.get c.cache key) [
    | none ↦ (c, none)
    | some (value, expiry) ↦
        if ltb expiry now
        then (record c { cache = Dict.remove c.cache key }, none)
        else (c, some value)
  ]

  -- `next(iter(d))` and `del`: `none` is the StopIteration of an empty dict.
  pub evict_oldest : List (String × (V × ℕ)) → Option (List (String × (V × ℕ)))
  evict_oldest [] = none
  evict_oldest ((oldest_key, entry) ∷ rest) =
      some (Dict.remove ((oldest_key, entry) ∷ rest) oldest_key)

  pub make_room : TtlCache V → String → Option (List (String × (V × ℕ)))
  unfolding evict_oldest
  make_room c key =
      if leb c.max_size (length c.cache) && not (contains c.cache key)
      then evict_oldest c.cache
      else some c.cache

  pub set : ℕ → TtlCache V → String → V → Option (TtlCache V)
  unfolding make_room
  set now c key value = elim (make_room c key) [
    | none ↦ none
    | some entries ↦ some (record c { cache = Dict.put entries key (value, now + c.ttl) })
  ]

  pub invalidate : TtlCache V → String → TtlCache V
  invalidate c key = record c { cache = Dict.remove c.cache key }

  pub clear : TtlCache V → TtlCache V
  clear c = record c { cache = [] }
