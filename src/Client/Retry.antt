-- ===== src/Client/Retry.antt =====
-- client/pulsar_relay_client/transport.py: `_retry_with_backoff`. Delays are whole seconds, as the
-- defaults are.
pub mod Backoff
pub mod Rule
use pulsar_relay.Prelude.{
  ℕ, zero, suc, ◌+◌, ◌*◌, min, Bool, true, false, ◌&&◌, Option, none, some, List, [], ◌∷◌, ltb, leb,
  nat_beq, if◌then◌else◌,
}

-- What one HTTP request comes to: a response with its status code and body, or an exception of the
-- `requests` library. Any other of its exceptions may carry the status of a response.
pub data Attempt {ℓ} (R : Type ℓ) : Type ℓ where
  response : ℕ → R → Attempt R
  connection_error timeout : Attempt R
  request_error : Option ℕ → Attempt R

pub record RetryPolicy : Type 0 where
  pub initial_delay : ℕ
  pub max_delay : ℕ
  pub backoff_factor : ℕ
  pub max_attempts : Option ℕ

-- The defaults of the parameters, with which every caller calls.
abbrev pub default_policy : RetryPolicy
default_policy = record {
  initial_delay = 1;
  max_delay = 60;
  backoff_factor = 2;
  max_attempts = none;
}

-- What the body of the loop makes of an attempt.
pub data Verdict {ℓ} (R : Type ℓ) : Type ℓ where
  -- the response is returned
  final : ℕ → R → Verdict R
  -- a client error, raised as RelayTransportError
  rejected : Verdict R
  -- to be tried again
  again : Verdict R

abbrev pub is_client_error : ℕ → Bool
is_client_error status = leb 400 status && ltb status 500

unfoldable pub verdict {ℓ} : {R : Type ℓ} → Attempt R → Verdict R
verdict (response status body) =
    if is_client_error status
    then (if nat_beq status 401 then final status body else rejected)
    else (if leb 500 status then again else final status body)
verdict connection_error = again
verdict timeout = again
verdict (request_error none) = again
verdict (request_error (some status)) = if is_client_error status then rejected else again

pub data TransportError : Type 0 where
  client_error gave_up : TransportError

pub data Result {ℓ} (R : Type ℓ) : Type ℓ where
  returned : ℕ → R → Result R
  raised : TransportError → Result R

-- attempt >= max_attempts
abbrev pub at_cap : Option ℕ → ℕ → Bool
at_cap none attempt = false
at_cap (some cap) attempt = leb cap attempt

-- delay = min(delay * backoff_factor, max_delay)
abbrev pub next_delay : RetryPolicy → ℕ → ℕ
next_delay p delay = min (delay * p.backoff_factor) p.max_delay

module _ {ℓ κ} {S : Type ℓ} {R : Type κ} where
  -- A sleep before the rest of the loop.
  abbrev pub after_sleep : ℕ → Option (S × List ℕ × Result R) → Option (S × List ℕ × Result R)
  after_sleep delay none = none
  after_sleep delay (some (s, sleeps, result)) = some (s, delay ∷ sleeps, result)

  -- The loop: the last state of the environment, the sleeps, and what is returned or raised; `none`
  -- is a loop that still runs after `fuel` attempts.
  unfoldable pub retry_loop :
      ℕ → RetryPolicy → (S → S × Attempt R) → S → ℕ → ℕ → Option (S × List ℕ × Result R)
  unfolding verdict
  retry_loop zero p operation s attempt delay = none
  retry_loop (suc fuel) p operation s attempt delay = elim (verdict (operation s).1) [
    | final status body ↦ some ((operation s).0, [], returned status body)
    | rejected ↦ some ((operation s).0, [], raised client_error)
    | again ↦ elim (at_cap p.max_attempts (attempt + 1)) [
      | true ↦ some ((operation s).0, [], raised gave_up)
      | false ↦
          after_sleep delay
            (retry_loop fuel p operation (operation s).0 (attempt + 1) (next_delay p delay))
    ]
  ]

  unfoldable pub retry_with_backoff :
      ℕ → RetryPolicy → (S → S × Attempt R) → S → Option (S × List ℕ × Result R)
  unfolding retry_loop
  retry_with_backoff fuel p operation s = retry_loop fuel p operation s 0 p.initial_delay
