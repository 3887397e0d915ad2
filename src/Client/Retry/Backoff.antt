-- ===== src/Client/Retry/Backoff.antt =====
-- When the retry loop ends, what it returns, how often it calls and how long it sleeps.
use Prim.Native.Nat.{◌^◌}
use native.Mathlib.Nat.{pow-suc}
use pulsar_relay.Prelude.{
  ℕ, zero, suc, ◌+◌, ◌≤◌, ◌<◌, min, max, ◌≡◌, refl, ap, ◌∙◌, false, Option, none, some, List, [],
  ◌∷◌, arith, leb, length, inl, inr, Bool-cases,
}
use pulsar_relay.Client.Retry.{
  Attempt, RetryPolicy, default_policy, Verdict, final, rejected, again, verdict, client_error,
  gave_up, Result, returned, raised, at_cap, next_delay, retry_loop, retry_with_backoff,
}

-- The first `n` delays from `delay` on.
unfoldable pub delays : RetryPolicy → ℕ → ℕ → List ℕ
delays p zero delay = []
delays p (suc n) delay = delay ∷ delays p n (next_delay p delay)

-- The `n` powers of 2 from 2 ^ i on, each at most 60.
unfoldable pub doubling : ℕ → ℕ → List ℕ
doubling i zero = []
doubling i (suc n) = min (2 ^ i) 60 ∷ doubling (suc i) n

next_delay_default : (i : ℕ) → next_delay default_policy (min (2 ^ i) 60) ≡ min (2 ^ suc i) 60
next_delay_default i = omega (arith, pow-suc 2 i)

delays-eq-doubling : (n i : ℕ) → delays default_policy n (min (2 ^ i) 60) ≡ doubling i n
unfolding delays doubling
delays-eq-doubling zero i = refl
delays-eq-doubling (suc n) i = rw (next_delay_default i, delays-eq-doubling n (suc i)) refl

-- What a loop ends with when this is the verdict on its last call.
abbrev pub outcome {κ} : {R : Type κ} → Verdict R → Result R
outcome (final status body) = returned status body
outcome rejected = raised client_error
outcome again = raised gave_up

cap_grows : (cap : Option ℕ) (a b : ℕ) → a ≤ b → at_cap cap b ≡ false → at_cap cap a ≡ false
cap_grows none a b le h = refl
cap_grows (some cap) a b le h = ground arith

module _ {ℓ κ} {S : Type ℓ} {R : Type κ} where
  -- The environment after `n` calls of the operation.
  unfoldable pub calls : ℕ → (S → S × Attempt R) → S → S
  calls zero operation s = s
  calls (suc n) operation s = calls n operation (operation s).0

  pub calls-suc :
      (n : ℕ) (operation : S → S × Attempt R) (s : S)
      → calls (suc n) operation s ≡ (operation (calls n operation s)).0
  unfolding calls
  calls-suc zero operation s = refl
  calls-suc (suc n) operation s = calls-suc n operation (operation s).0

  -- The verdict on call number `n`, counted from 0.
  abbrev pub verdict_at : ℕ → (S → S × Attempt R) → S → Verdict R
  verdict_at n operation s = verdict (operation (calls n operation s)).1

  -- The loop ends with the verdict on its last call, at the cap or before.
  abbrev Ends : ℕ → RetryPolicy → ℕ → (S → S × Attempt R) → S → ℕ → ℕ → Type (ℓ ⊔ κ)
  Ends fuel p cap operation s attempt delay =
      (sleeps : List ℕ) × (retry_loop fuel p operation s attempt delay
        ≡ some (
          calls (suc (length sleeps)) operation s,
          sleeps,
          outcome (verdict_at (length sleeps) operation s),
        ))
      × (attempt + length sleeps + 1 ≤ max cap (attempt + 1))
      × (sleeps ≡ delays p (length sleeps) delay)

  again-Ends :
      (fuel : ℕ) (p : RetryPolicy) (cap : ℕ) (operation : S → S × Attempt R) (s : S)
      (attempt delay : ℕ)
      → verdict (operation s).1 ≡ again
      → at_cap p.max_attempts (attempt + 1) ≡ false
      → attempt + 1 < cap
      → Ends fuel p cap operation (operation s).0 (attempt + 1) (next_delay p delay)
      → Ends (suc fuel) p cap operation s attempt delay
  unfolding retry_loop calls delays
  again-Ends fuel p cap operation s attempt delay h below lt (sleeps, run, count, schedule) =
      (delay ∷ sleeps, rw (h, below, run, retry_loop) refl, omega arith, ap (◌∷◌ delay) schedule)

  decided-Ends :
      (fuel : ℕ) (p : RetryPolicy) (cap : ℕ) (operation : S → S × Attempt R) (s : S)
      (attempt delay : ℕ) (v : Verdict R)
      → p.max_attempts ≡ some cap
      → cap ≤ attempt + suc fuel
      → (1 ≤ fuel
          → cap ≤ attempt + 1 + fuel
          → Ends fuel p cap operation (operation s).0 (attempt + 1) (next_delay p delay))
      → verdict (operation s).1 ≡ v
      → Ends (suc fuel) p cap operation s attempt delay
  unfolding retry_loop calls delays
  decided-Ends fuel p cap operation s attempt delay (final status body) e room rest h =
      ([], rw (h, retry_loop) refl, omega arith, refl)
  decided-Ends fuel p cap operation s attempt delay rejected e room rest h =
      ([], rw (h, retry_loop) refl, omega arith, refl)
  decided-Ends fuel p cap operation s attempt delay again e room rest h =
      elim (Bool-cases (leb cap (attempt + 1))) [
        | inl full ↦ ([], rw (h, e, full, retry_loop) refl, omega arith, refl)
        | inr below ↦
            again-Ends fuel p cap operation s attempt delay h (rw e below) (ground arith)
              (rest (ground arith) (ground arith))
      ]

  loop-Ends :
      (fuel : ℕ) (p : RetryPolicy) (cap : ℕ) (operation : S → S × Attempt R) (s : S)
      (attempt delay : ℕ)
      → p.max_attempts ≡ some cap
      → 1 ≤ fuel
      → cap ≤ attempt + fuel
      → Ends fuel p cap operation s attempt delay
  loop-Ends zero p cap operation s attempt delay e one room = absurd (omega arith)
  loop-Ends (suc fuel) p cap operation s attempt delay e one room =
      decided-Ends fuel p cap operation s attempt delay (verdict (operation s).1) e room
        (loop-Ends fuel p cap operation (operation s).0 (attempt + 1) (next_delay p delay) e) refl

  -- With a cap on the attempts the loop ends, and `max cap 1` rounds of fuel suffice: it calls the
  -- operation once more than it sleeps and at most `max cap 1` times, its sleeps follow the
  -- schedule of growing delays, and it ends with the verdict on its last call: the response, a client
  -- error, or that it gave up.
  pub retry_ends :
      (fuel : ℕ) (p : RetryPolicy) (cap : ℕ) (operation : S → S × Attempt R) (s : S)
      → p.max_attempts ≡ some cap
      → max cap 1 ≤ fuel
      → (sleeps : List ℕ) × (retry_with_backoff fuel p operation s
          ≡ some (
            calls (suc (length sleeps)) operation s,
            sleeps,
            outcome (verdict_at (length sleeps) operation s),
          ))
        × (length sleeps + 1 ≤ max cap 1)
        × (sleeps ≡ delays p (length sleeps) p.initial_delay)
  unfolding retry_with_backoff
  retry_ends fuel p cap operation s e room =
      let (sleeps, run, count, schedule) =
        loop-Ends fuel p cap operation s 0 p.initial_delay e (omega arith) (omega arith) in
      (sleeps, run, omega arith, schedule)

  loop_reaches :
      (k fuel : ℕ) (p : RetryPolicy) (operation : S → S × Attempt R) (s : S) (attempt delay : ℕ)
      (status : ℕ) (body : R)
      → k < fuel
      → at_cap p.max_attempts (attempt + k) ≡ false
      → ((i : ℕ) → i < k → verdict_at i operation s ≡ again)
      → verdict_at k operation s ≡ final status body
      → retry_loop fuel p operation s attempt delay
        ≡ some (calls (suc k) operation s, delays p k delay, returned status body)
  unfolding retry_loop calls delays
  loop_reaches k zero p operation s attempt delay status body lt room busy done =
      absurd (omega arith)
  loop_reaches zero (suc fuel) p operation s attempt delay status body lt room busy done =
      rw (done, retry_loop) refl
  loop_reaches (suc k) (suc fuel) p operation s attempt delay status body lt room busy done =
      rw
        (
          busy 0 (omega arith),
          cap_grows p.max_attempts (attempt + 1) (attempt + suc k) (omega arith) room,
          loop_reaches k fuel p operation (operation s).0 (attempt + 1) (next_delay p delay) status
              body (omega arith)
              (cap_grows p.max_attempts (attempt + 1 + k) (attempt + suc k) (omega arith) room)
              (λ i h. busy (suc i) (omega arith)) done,
          retry_loop,
        )
        refl

  pub retry_outlasts :
      (k fuel : ℕ) (operation : S → S × Attempt R) (s : S) (status : ℕ) (body : R)
      → k < fuel
      → ((i : ℕ) → i < k → verdict_at i operation s ≡ again)
      → verdict_at k operation s ≡ final status body
      → retry_with_backoff fuel default_policy operation s
        ≡ some (calls (suc k) operation s, doubling 0 k, returned status body)
  unfolding retry_with_backoff
  retry_outlasts k fuel operation s status body lt busy done =
      loop_reaches k fuel default_policy operation s 0 1 status body lt refl busy done
      ∙ ap (λ sleeps. some (calls (suc k) operation s, sleeps, returned status body))
          (delays-eq-doubling k 0)
