-- ===== src/Client/Publish/Rule.antt =====
-- What holds of the world before and after every request holds of it after a publication.
use pulsar_relay.Prelude.{
  ℕ, String, ◌≡◌, false, Option, none, some, List, leb, nat_beq, Bool-cases, inl, inr,
}
use pulsar_relay.Client.Retry.{Result, default_policy, returned, raised}
use pulsar_relay.Client.Retry.Rule.{GoodAttempt, GoodLoop, retry-Good}
use pulsar_relay.Client.Auth.{AuthManager, invalidate}
use pulsar_relay.Client.Auth.Cache.{get_token-Inv}
use pulsar_relay.Client.Publish.{
  Environment, Publication, published, checked, finish, attempt_all, second_round, after_round,
  first_round, publish,
}

module _ {ℓ} {S R : Type ℓ} (Inv : S → Type ℓ) (Good : ℕ → R → Type ℓ) where
  -- A published body was answered with a status below 400.
  abbrev pub GoodPublication : Publication R → Type ℓ
  GoodPublication (published body) = (status : ℕ) × Good status body × (leb 400 status ≡ false)
  GoodPublication _ = Unit

  abbrev pub GoodLeft : Option (AuthManager × (S × Publication R)) → Type ℓ
  GoodLeft none = Unit
  GoodLeft (some (m, (s, result))) = Inv s × GoodPublication result

module _ {ℓ} {S B R : Type ℓ} (Inv : S → Type ℓ) (Good : ℕ → R → Type ℓ) where
  module _ (env : Environment S B R) (key : String) (body : B)
      (asks : (s : S) → Inv s → Inv (env.authenticate s).0)
      (posts : (token : String) (s : S)
        → Inv s
        → Inv (env.post (record { token = token; idempotency_key = key; body = body }) s).0
          × GoodAttempt Inv Good
              (env.post (record { token = token; idempotency_key = key; body = body }) s).1) where
    attempt_all-Good :
        (fuel : ℕ) (token : String) (s : S)
        → Inv s
        → GoodLoop Inv Good
            (attempt_all env fuel (record { token = token; idempotency_key = key; body = body }) s)
    unfolding attempt_all
    attempt_all-Good fuel token s inv =
        retry-Good Inv Good fuel default_policy
          (env.post (record { token = token; idempotency_key = key; body = body })) s (posts token)
          inv

    checked-Good :
        (status : ℕ) (answer : R)
        → Good status answer
        → GoodPublication Inv Good (checked env status answer)
    checked-Good status answer h = elim (Bool-cases (leb 400 status)) [
      | inl error ↦ rw error tt
      | inr fine ↦ rw fine (status, h, fine)
    ]

    finish-Good :
        (m : AuthManager) (o : Option (S × List ℕ × Result R))
        → GoodLoop Inv Good o
        → GoodLeft Inv Good (finish env m o)
    unfolding finish
    finish-Good m none h = tt
    finish-Good m (some (s, sleeps, raised e)) h = (h.0, tt)
    finish-Good m (some (s, sleeps, returned status answer)) h =
        (h.0, checked-Good status answer h.1)

    second_round-Good :
        (fuel : ℕ) (got : AuthManager × (S × Option String))
        → Inv got.1.0
        → GoodLeft Inv Good (second_round env fuel key body got)
    unfolding second_round
    second_round-Good fuel (m, (s, none)) inv = (inv, tt)
    second_round-Good fuel (m, (s, some token)) inv =
        finish-Good m _ (attempt_all-Good fuel token s inv)

    after_round-Good :
        (fuel : ℕ) (m : AuthManager) (o : Option (S × List ℕ × Result R))
        → GoodLoop Inv Good o
        → GoodLeft Inv Good (after_round env fuel key body m o)
    unfolding after_round
    after_round-Good fuel m none h = tt
    after_round-Good fuel m (some (s, sleeps, raised e)) h = (h.0, tt)
    after_round-Good fuel m (some (s, sleeps, returned status answer)) h =
        elim (Bool-cases (nat_beq status 401)) [
          | inl denied ↦ rw denied (
              second_round-Good fuel _
                (get_token-Inv env.clock env.authenticate Inv asks (invalidate m) s h.0))
          | inr allowed ↦ rw allowed (h.0, checked-Good status answer h.1)
        ]

    first_round-Good :
        (fuel : ℕ) (got : AuthManager × (S × Option String))
        → Inv got.1.0
        → GoodLeft Inv Good (first_round env fuel key body got)
    unfolding first_round
    first_round-Good fuel (m, (s, none)) inv = (inv, tt)
    first_round-Good fuel (m, (s, some token)) inv =
        after_round-Good fuel m _ (attempt_all-Good fuel token s inv)

    -- What authentications and requests with this key and body keep, the whole publication keeps,
    -- and what it publishes is an answer to one of those requests.
    pub publish-Good :
        (fuel : ℕ) (m : AuthManager) (s : S)
        → Inv s
        → GoodLeft Inv Good (publish env fuel key body m s)
    unfolding publish
    publish-Good fuel m s inv =
        first_round-Good fuel _ (get_token-Inv env.clock env.authenticate Inv asks m s inv)
