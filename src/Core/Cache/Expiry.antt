-- ===== src/Core/Cache/Expiry.antt =====
-- How long an entry of `TTLCache` is served.
use pulsar_relay.Prelude.{
  ℕ, ◌+◌, String, eq_iff, ◌≡◌, inl, inr, none, some, arith, leb, if◌then◌else◌, Option-cases,
  nat_eq, string_eq, pair_eq,
}
use pulsar_relay.Dict.Laws.{get-put}
use pulsar_relay.Core.Cache.{TtlCache, get, set, make_room}

module _ {ℓ} {V : Type ℓ} where
  -- After a successful `set` at time `now`, a `get` of that key at time `t` returns the value
  -- exactly while `t` is at most `now + ttl`, and nothing later.
  pub get-set :
      (now : ℕ) (c : TtlCache V) (key : String) (value : V) {c' : TtlCache V}
      → set now c key value ≡ some c'
      → (t : ℕ) → (get t c' key).1 ≡ (if leb t (now + c.ttl) then some value else none)
  unfolding set get
  get-set now c key value h t = elim (Option-cases (make_room c key)) [
    | inl e ↦ absurd (ground arith)
    | inr (entries, e) ↦
        ground (arith, get-put entries key key (value, now + c.ttl), eq_iff key key)
  ]
