-- ===== src/Client/Retry/Rule.antt =====
-- What an operation keeps, the retry loop keeps.
use pulsar_relay.Prelude.{
  ℕ, zero, suc, ◌+◌, ◌≡◌, refl, Option, none, some, List, leb, nat_beq, Bool-cases, inl, inr,
}
use pulsar_relay.Client.Retry.{
  Attempt, response, connection_error, timeout, request_error, is_client_error, RetryPolicy,
  Verdict, final, rejected, again, verdict, Result, returned, raised, at_cap, next_delay,
  after_sleep, retry_loop, retry_with_backoff,
}

-- `Inv` holds of the world, and `Good` of every answer.
module _ {ℓ} {S R : Type ℓ} (Inv : S → Type ℓ) (Good : ℕ → R → Type ℓ) where
  -- What an attempt answers.
  abbrev pub GoodAttempt : Attempt R → Type ℓ
  GoodAttempt (response status body) = Good status body
  GoodAttempt _ = Unit

  pub GoodAttempt-always :
      ((status : ℕ) (body : R) → Good status body) → (a : Attempt R) → GoodAttempt a
  GoodAttempt-always h (response status body) = h status body
  GoodAttempt-always h connection_error = tt
  GoodAttempt-always h timeout = tt
  GoodAttempt-always h (request_error status) = tt

  abbrev pub GoodResult : Result R → Type ℓ
  GoodResult (returned status body) = Good status body
  GoodResult (raised e) = Unit

  abbrev pub GoodLoop : Option (S × List ℕ × Result R) → Type ℓ
  GoodLoop none = Unit
  GoodLoop (some (s, sleeps, result)) = Inv s × GoodResult result

  abbrev GoodVerdict : Verdict R → Type ℓ
  GoodVerdict (final status body) = Good status body
  GoodVerdict _ = Unit

  response-Good :
      (status : ℕ) (body : R) → Good status body → GoodVerdict (verdict (response status body))
  unfolding verdict
  response-Good status body h = elim (Bool-cases (is_client_error status)) [
    | inl client ↦ elim (Bool-cases (nat_beq status 401)) [
      | inl denied ↦ rw (client, denied, verdict) h
      | inr other ↦ rw (client, other, verdict) tt
    ]
    | inr fine ↦ elim (Bool-cases (leb 500 status)) [
      | inl server ↦ rw (fine, server, verdict) tt
      | inr success ↦ rw (fine, success, verdict) h
    ]
  ]

  request_error-Good : (status : ℕ) → GoodVerdict (verdict (request_error (some status)))
  unfolding verdict
  request_error-Good status = elim (Bool-cases (is_client_error status)) [
    | inl client ↦ rw (client, verdict) tt
    | inr other ↦ rw (other, verdict) tt
  ]

  verdict-Good : (a : Attempt R) → GoodAttempt a → GoodVerdict (verdict a)
  unfolding verdict
  verdict-Good (response status body) h = response-Good status body h
  verdict-Good connection_error h = tt
  verdict-Good timeout h = tt
  verdict-Good (request_error none) h = tt
  verdict-Good (request_error (some status)) h = request_error-Good status

  after_sleep-Good :
      (delay : ℕ) (o : Option (S × List ℕ × Result R)) → GoodLoop o → GoodLoop (after_sleep delay o)
  after_sleep-Good delay none h = h
  after_sleep-Good delay (some (s, sleeps, result)) h = h

  decided-Good :
      (fuel : ℕ) (p : RetryPolicy) (operation : S → S × Attempt R) (s : S) (attempt delay : ℕ)
      (v : Verdict R)
      → Inv (operation s).0
      → GoodVerdict v
      → GoodLoop (retry_loop fuel p operation (operation s).0 (attempt + 1) (next_delay p delay))
      → verdict (operation s).1 ≡ v
      → GoodLoop (retry_loop (suc fuel) p operation s attempt delay)
  unfolding retry_loop
  decided-Good fuel p operation s attempt delay (final status body) inv good rest h =
      rw (h, retry_loop) (inv, good)
  decided-Good fuel p operation s attempt delay rejected inv good rest h =
      rw (h, retry_loop) (inv, tt)
  decided-Good fuel p operation s attempt delay again inv good rest h =
      elim (Bool-cases (at_cap p.max_attempts (attempt + 1))) [
        | inl full ↦ rw (h, full, retry_loop) (inv, tt)
        | inr below ↦ rw (h, below, retry_loop) (after_sleep-Good delay _ rest)
      ]

  retry_loop-Good :
      (fuel : ℕ) (p : RetryPolicy) (operation : S → S × Attempt R) (s : S) (attempt delay : ℕ)
      → ((s : S) → Inv s → Inv (operation s).0 × GoodAttempt (operation s).1)
      → Inv s
      → GoodLoop (retry_loop fuel p operation s attempt delay)
  unfolding retry_loop
  retry_loop-Good zero p operation s attempt delay keeps inv = tt
  retry_loop-Good (suc fuel) p operation s attempt delay keeps inv =
      decided-Good fuel p operation s attempt delay (verdict (operation s).1) (keeps s inv).0
        (verdict-Good (operation s).1 (keeps s inv).1)
        (retry_loop-Good fuel p operation (operation s).0 (attempt + 1) (next_delay p delay) keeps
          (keeps s inv).0)
        refl

  pub retry-Good :
      (fuel : ℕ) (p : RetryPolicy) (operation : S → S × Attempt R) (s : S)
      → ((s : S) → Inv s → Inv (operation s).0 × GoodAttempt (operation s).1)
      → Inv s
      → GoodLoop (retry_with_backoff fuel p operation s)
  unfolding retry_with_backoff
  retry-Good fuel p operation s keeps inv =
      retry_loop-Good fuel p operation s 0 p.initial_delay keeps inv
