-- ===== src/Core/Idempotency.antt =====
-- pulsar_relay/core/idempotency.py: `InMemoryIdempotencyStorage`.
pub mod Claims
mod Tests
use pulsar_relay.Prelude.{
  ℕ, zero, suc, ◌+◌, ◌-◌, ◌*◌, ◌/◌, ◌%◌, ◌≤◌, ◌<◌, min, max, String, eq_iff, ◌≡◌, refl, sym, ap,
  ◌∙◌, ◌≢◌, ◌↔◌, ◌⊎◌, inl, inr, Bool, true, false, not, ◌&&◌, ◌||◌, Option, none, some, List, [],
  ◌∷◌, ◌++◌, map, arith, ltb, leb, nat_beq, if◌then◌else◌, nat_beq_iff, Bool-cases, Option-cases,
  length, take, drop, length-append, length-drop, length-take-le, filter_by, Eq, ◌==◌, beq_self,
  nat_eq, string_eq, pair_beq, pair_beq_iff, pair_eq, All,
}
use pulsar_relay.Dict
use pulsar_relay.Dict.{contains, member, add, discard}
use pulsar_relay.Clock.{second, seconds}

-- A response body is a JSON object: its fields, with values in `V`. The empty one is `{}`.
abbrev pub Body {ℓ} : Type ℓ → Type ℓ
Body V = List (String × V)

-- What is stored for a key: the sentinel "__in_flight__", or a recorded response body.
pub data Stored {ℓ} (V : Type ℓ) : Type ℓ where
  in_flight : Stored V
  response : Body V → Stored V

-- (owner_id, key) -> (expiry_epoch, stored)
abbrev pub Idempotency {ℓ} : Type ℓ → Type ℓ
Idempotency V = List ((String × String) × (ℕ × Stored V))

abbrev pub default_idempotency_ttl_seconds : ℕ
default_idempotency_ttl_seconds = 600

-- time.time() + max(1, ttl_seconds)
abbrev pub expiry_after : ℕ → ℕ → ℕ
expiry_after now ttl_seconds = now + seconds (max 1 ttl_seconds)

module _ {ℓ} {V : Type ℓ} where
  abbrev pub fresh : ℕ → ℕ × Stored V → Bool
  fresh now (expiry, _) = ltb now expiry

  abbrev pub body_of : Stored V → Body V
  body_of in_flight = []
  body_of (response body) = body

  unfoldable pub claim_new : ℕ → Idempotency V → String × String → ℕ → Idempotency V
  claim_new now entries composite ttl_seconds =
      Dict.put entries composite (expiry_after now ttl_seconds, in_flight)

  -- The entries after the call, and the cached body: `none` where the caller owns the claim.
  unfoldable pub try_claim :
      ℕ → Idempotency V → String → String → ℕ → Idempotency V × Option (Body V)
  unfolding claim_new
  try_claim now entries owner_id key ttl_seconds = elim (Dict.get entries (owner_id, key)) [
    | none ↦ (claim_new now entries (owner_id, key) ttl_seconds, none)
    | some existing ↦
        if fresh now existing
        then (entries, some (body_of existing.1))
        else (claim_new now entries (owner_id, key) ttl_seconds, none)
  ]

  unfoldable pub record_response : ℕ → Idempotency V → String → String → Body V → ℕ → Idempotency V
  record_response now entries owner_id key body ttl_seconds =
      Dict.put entries (owner_id, key) (expiry_after now ttl_seconds, response body)
