-- ===== src/Core/Idempotency/Claims.antt =====
-- A key is claimed once in its window, and a recorded response is replayed.
use pulsar_relay.Prelude.{
  ℕ, ◌≤◌, ◌<◌, String, ◌≡◌, ◌≢◌, false, Option, none, some, List, [], ◌∷◌, arith, nat_eq, string_eq,
  pair_eq, texts_beq, texts_iff, All,
}
use pulsar_relay.Dict
use pulsar_relay.Dict.{contains, member, add, discard}
use pulsar_relay.Dict.Laws.{get-put}
use pulsar_relay.Core.Idempotency.{
  Body, Stored, in_flight, response, Idempotency, expiry_after, try_claim, record_response,
}

-- The calls of all requests, in the order in which they are made, with their times.
pub data Call {ℓ} (V : Type ℓ) : Type ℓ where
  claims : ℕ → String × String → ℕ → Call V
  records : ℕ → String × String → Body V → ℕ → Call V

module _ {ℓ} {V : Type ℓ} where
  unfoldable pub step : Idempotency V → Call V → Idempotency V
  step entries (claims now composite ttl) = (try_claim now entries composite.0 composite.1 ttl).0
  step entries (records now composite body ttl) =
      record_response now entries composite.0 composite.1 body ttl

  unfoldable pub run : Idempotency V → List (Call V) → Idempotency V
  unfolding step
  run entries [] = entries
  run entries (c ∷ calls) = run (step entries c) calls

  -- A claim before `limit`, or a recording that does not end before `limit`.
  abbrev pub KeepsClaim : ℕ → Call V → Type 0
  KeepsClaim limit (claims t composite ttl) = t < limit
  KeepsClaim limit (records t composite body ttl) = limit ≤ expiry_after t ttl

  -- A claim before `limit`, or a recording for another key.
  abbrev pub KeepsBody : String × String → ℕ → Call V → Type 0
  KeepsBody key limit (claims t composite ttl) = t < limit
  KeepsBody key limit (records t composite body ttl) = texts_beq composite key ≡ false

  -- The entry of a key lives at least until `limit`.
  abbrev Lives : ℕ → Option (ℕ × Stored V) → Type 0
  Lives limit none = ⊥
  Lives limit (some (expiry, _)) = limit ≤ expiry

  step-Lives :
      (entries : Idempotency V) (key : String × String) (limit : ℕ) (c : Call V)
      → KeepsClaim limit c
      → Lives limit (Dict.get entries key)
      → Lives limit (Dict.get (step entries c) key)
  unfolding step try_claim record_response
  step-Lives entries key limit (claims t composite ttl) before lives = ground (
    arith,
    get-put entries composite key (expiry_after t ttl, in_flight),
    texts_iff composite key,
  )
  step-Lives entries key limit (records t composite body ttl) long lives = ground (
    arith,
    get-put entries composite key (expiry_after t ttl, response body),
    texts_iff composite key,
  )

  run-Lives :
      (entries : Idempotency V) (key : String × String) (limit : ℕ) (calls : List (Call V))
      → All (KeepsClaim limit) calls
      → Lives limit (Dict.get entries key)
      → Lives limit (Dict.get (run entries calls) key)
  unfolding run
  run-Lives entries key limit [] h lives = lives
  run-Lives entries key limit (c ∷ calls) h lives =
      run-Lives (step entries c) key limit calls h.1 (step-Lives entries key limit c h.0 lives)

  claimed-Lives :
      (now : ℕ) (entries : Idempotency V) (key : String × String) (ttl : ℕ)
      → (try_claim now entries key.0 key.1 ttl).1 ≡ none
      → Lives (expiry_after now ttl) (Dict.get (try_claim now entries key.0 key.1 ttl).0 key)
  unfolding try_claim
  claimed-Lives now entries key ttl owned =
      ground (arith, get-put entries key key (expiry_after now ttl, in_flight), texts_iff key key)

  taken_of_Lives :
      (t : ℕ) (entries : Idempotency V) (key : String × String) (ttl limit : ℕ)
      → t < limit
      → Lives limit (Dict.get entries key)
      → (try_claim t entries key.0 key.1 ttl).1 ≢ none
  unfolding try_claim
  taken_of_Lives t entries key ttl limit before lives = ground arith

  -- If a request owns the claim of a key at time `now`, then no later claim of that key before the
  -- claim's expiry owns it too, whatever claims are made before that expiry and whatever responses
  -- are recorded, for this key or others, that do not expire before it.
  pub claim_exclusive :
      (now : ℕ) (entries : Idempotency V) (key : String × String) (ttl : ℕ) (calls : List (Call V))
      (t ttl' : ℕ)
      → (try_claim now entries key.0 key.1 ttl).1 ≡ none
      → All (KeepsClaim (expiry_after now ttl)) calls
      → t < expiry_after now ttl
      → (try_claim t (run (try_claim now entries key.0 key.1 ttl).0 calls) key.0 key.1 ttl').1
        ≢ none
  claim_exclusive now entries key ttl calls t ttl' owned h before =
      taken_of_Lives t _ key ttl' _ before
        (run-Lives _ key _ calls h (claimed-Lives now entries key ttl owned))

  step-body :
      (entries : Idempotency V) (key : String × String) (limit : ℕ) (body : Body V) (c : Call V)
      → KeepsBody key limit c
      → Dict.get entries key ≡ some (limit, response body)
      → Dict.get (step entries c) key ≡ some (limit, response body)
  unfolding step try_claim record_response
  step-body entries key limit body (claims t composite ttl) before kept = ground (
    arith,
    get-put entries composite key (expiry_after t ttl, in_flight),
    texts_iff composite key,
  )
  step-body entries key limit body (records t composite other ttl) ne kept = ground (
    arith,
    get-put entries composite key (expiry_after t ttl, response other),
    texts_iff composite key,
  )

  run-body :
      (entries : Idempotency V) (key : String × String) (limit : ℕ) (body : Body V)
      (calls : List (Call V))
      → All (KeepsBody key limit) calls
      → Dict.get entries key ≡ some (limit, response body)
      → Dict.get (run entries calls) key ≡ some (limit, response body)
  unfolding run
  run-body entries key limit body [] h kept = kept
  run-body entries key limit body (c ∷ calls) h kept =
      run-body (step entries c) key limit body calls h.1
        (step-body entries key limit body c h.0 kept)

  get-record_self :
      (now : ℕ) (entries : Idempotency V) (key : String × String) (body : Body V) (ttl : ℕ)
      → Dict.get (record_response now entries key.0 key.1 body ttl) key
        ≡ some (expiry_after now ttl, response body)
  unfolding record_response
  get-record_self now entries key body ttl =
      ground
        (arith, get-put entries key key (expiry_after now ttl, response body), texts_iff key key)

  try_claim_of_body :
      (t : ℕ) (entries : Idempotency V) (key : String × String) (ttl limit : ℕ) (body : Body V)
      → t < limit
      → Dict.get entries key ≡ some (limit, response body)
      → try_claim t entries key.0 key.1 ttl ≡ (entries, some body)
  unfolding try_claim
  try_claim_of_body t entries key ttl limit body before kept = ground arith

  -- After a response is recorded for a key, every claim of the key before the record's expiry is
  -- answered with exactly that response and changes nothing, whatever claims are made before that
  -- expiry and whatever responses are recorded for other keys in between.
  pub record_replayed :
      (now : ℕ) (entries : Idempotency V) (key : String × String) (body : Body V) (ttl : ℕ)
      (calls : List (Call V)) (t ttl' : ℕ)
      → All (KeepsBody key (expiry_after now ttl)) calls
      → t < expiry_after now ttl
      → try_claim t (run (record_response now entries key.0 key.1 body ttl) calls) key.0 key.1 ttl'
        ≡ (run (record_response now entries key.0 key.1 body ttl) calls, some body)
  record_replayed now entries key body ttl calls t ttl' h before =
      try_claim_of_body t _ key ttl' _ body before
        (run-body _ key _ body calls h (get-record_self now entries key body ttl))
