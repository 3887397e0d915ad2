-- ===== src/Core/Cache/Tests.antt =====
-- Runs of the cache.
use pulsar_relay.Prelude.{
  ℕ, ◌≤◌, ◌<◌, ◌≡◌, refl, none, some, [], ◌∷◌, arith, nat_eq, string_eq, pair_eq,
}
use pulsar_relay.Dict
use pulsar_relay.Dict.{contains}
use pulsar_relay.Core.Cache.{TtlCache, get, set, evict_oldest, make_room}

-- A full cache of two entries.
abbrev full : TtlCache ℕ
full = record { ttl = 10; max_size = 2; cache = ("a", (1, 15)) ∷ ("b", (2, 16)) ∷ [] }

abbrev after_set : TtlCache ℕ
after_set = record { ttl = 10; max_size = 2; cache = ("b", (2, 16)) ∷ ("c", (3, 17)) ∷ [] }

two_two : 2 ≤ 2
two_two = omega arith

zero_two : 0 < 2
zero_two = omega arith

set-full : set 7 full "c" 3 ≡ some after_set
unfolding set make_room evict_oldest Dict.put Dict.get Dict.remove
set-full = refl

get_expired : (get 18 after_set "c").1 ≡ none
unfolding get Dict.get
get_expired = refl
