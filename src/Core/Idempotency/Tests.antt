-- ===== src/Core/Idempotency/Tests.antt =====
-- Runs of the idempotency storage.
use pulsar_relay.Prelude.{
  ℕ, ◌<◌, ◌≡◌, refl, ◌≢◌, none, List, [], ◌∷◌, arith, nat_eq, string_eq, pair_eq,
}
use pulsar_relay.Dict
use pulsar_relay.Core.Idempotency.{Body, Idempotency, try_claim, claim_new}
use pulsar_relay.Core.Idempotency.Claims.{Call, claims, records, run, claim_exclusive}

abbrev empty : Idempotency ℕ
empty = []

abbrev body : Body ℕ
body = ("message_id", 7) ∷ []

claim_empty : (try_claim 5 empty "alice" "k" 1).1 ≡ none
unfolding try_claim Dict.get
claim_empty = refl

-- An expired claim is taken over.
claim_expired : (try_claim 1000005 (try_claim 5 empty "alice" "k" 1).0 "alice" "k" 1).1 ≡ none
unfolding try_claim claim_new Dict.get Dict.put
claim_expired = refl

abbrev between : List (Call ℕ)
between =
    claims 6 ("bob", "k") 1 ∷ records 7 ("bob", "k") body 600 ∷ claims 8 ("alice", "k") 600 ∷ []

five : 1000004 < 1000005
five = omega arith

claim_exclusive_example :
    (try_claim 1000004 (run (try_claim 5 empty "alice" "k" 1).0 between) "alice" "k" 1).1 ≢ none
claim_exclusive_example =
    claim_exclusive 5 empty ("alice", "k") 1 between 1000004 1 claim_empty
      (omega arith, (omega arith, (omega arith, tt))) five
