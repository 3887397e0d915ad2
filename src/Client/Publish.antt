-- ===== src/Client/Publish.antt =====
-- client/pulsar_relay_client/transport.py: `post_message` and `post_bulk_messages`.
pub mod Rule
pub mod Keys
pub mod Once
pub mod Arrival
use pulsar_relay.Prelude.{
  ℕ, String, Bool, true, false, Option, none, some, List, [], ◌∷◌, if◌then◌else◌, leb, nat_beq,
}
use pulsar_relay.Client.Retry.{
  Attempt, RetryPolicy, default_policy, TransportError, Result, returned, raised,
  retry_with_backoff,
}
use pulsar_relay.Client.Auth.{AuthManager, invalidate, get_token}

-- An HTTP request: the bearer token and the `Idempotency-Key` of its headers, and its body.
pub record Request {ℓ} (B : Type ℓ) : Type ℓ where
  pub token : String
  pub idempotency_key : String
  pub body : B

-- `message_data` of `post_message`: what is None is left out.
pub record MessageData {ℓ} (P : Type ℓ) : Type ℓ where
  pub topic : String
  pub payload : P
  pub ttl : Option ℕ
  pub metadata : Option (List (String × String))

-- What stands outside the client: the clock, the authenticator and `session.post`, each over the
-- state of the world.
pub record Environment {ℓ} (S B R : Type ℓ) : Type ℓ where
  pub clock : S → ℕ
  pub authenticate : S → S × Option (String × ℕ)
  pub post : Request B → S → S × Attempt R

pub data Publication {ℓ} (R : Type ℓ) : Type ℓ where
  published : R → Publication R
  -- a RelayTransportError
  transport_error : TransportError → Publication R
  -- a RelayAuthError of the authenticator
  auth_error : Publication R
  -- the HTTPError of the last raise_for_status
  http_error : ℕ → Publication R

module _ {ℓ} {S B R : Type ℓ} (env : Environment S B R) where
  -- What a call leaves: the token cache, the world, and the result; `none` is a retry loop that
  -- still runs when the fuel is out.
  abbrev pub Left : Type ℓ
  Left = Option (AuthManager × (S × Publication R))

  -- `response.raise_for_status` and `response.json`
  abbrev pub checked : ℕ → R → Publication R
  checked status body = if leb 400 status then http_error status else published body

  -- The second round, after a 401, or the end.
  unfoldable pub finish : AuthManager → Option (S × List ℕ × Result R) → Left
  finish m none = none
  finish m (some (s, sleeps, raised e)) = some (m, (s, transport_error e))
  finish m (some (s, sleeps, returned status body)) = some (m, (s, checked status body))

  -- One round of the retry loop with the headers of a token.
  unfoldable pub attempt_all : ℕ → Request B → S → Option (S × List ℕ × Result R)
  attempt_all fuel request s = retry_with_backoff fuel default_policy (env.post request) s

  unfoldable pub second_round : ℕ → String → B → AuthManager × (S × Option String) → Left
  unfolding finish attempt_all
  second_round fuel key body (m, (s, none)) = some (m, (s, auth_error))
  second_round fuel key body (m, (s, some token)) =
      finish m (attempt_all fuel (record { token = token; idempotency_key = key; body = body }) s)

  unfoldable pub after_round : ℕ → String → B → AuthManager → Option (S × List ℕ × Result R) → Left
  unfolding second_round
  after_round fuel key body m none = none
  after_round fuel key body m (some (s, sleeps, raised e)) = some (m, (s, transport_error e))
  after_round fuel key body m (some (s, sleeps, returned status answer)) =
      if nat_beq status 401
      then second_round fuel key body (get_token env.clock env.authenticate (invalidate m) s)
      else some (m, (s, checked status answer))

  unfoldable pub first_round : ℕ → String → B → AuthManager × (S × Option String) → Left
  unfolding after_round attempt_all
  first_round fuel key body (m, (s, none)) = some (m, (s, auth_error))
  first_round fuel key body (m, (s, some token)) =
      after_round fuel key body m
        (attempt_all fuel (record { token = token; idempotency_key = key; body = body }) s)

  -- The common steps of the two methods; the key is the uuid drawn once per call.
  unfoldable pub publish : ℕ → String → B → AuthManager → S → Left
  unfolding first_round
  publish fuel idem_key body m s =
      first_round fuel idem_key body (get_token env.clock env.authenticate m s)

module _ {ℓ} {S P R : Type ℓ} where
  pub post_message :
      Environment S (MessageData P) R
      → ℕ
      → String
      → String
      → P
      → Option ℕ
      → Option (List (String × String))
      → AuthManager
      → S
      → Option (AuthManager × (S × Publication R))
  unfolding publish
  post_message env fuel idem_key topic payload ttl metadata m s =
      publish env fuel idem_key
        (record { topic = topic; payload = payload; ttl = ttl; metadata = metadata }) m s

  pub post_bulk_messages :
      Environment S (List (MessageData P)) R
      → ℕ
      → String
      → List (MessageData P)
      → AuthManager
      → S
      → Option (AuthManager × (S × Publication R))
  unfolding publish
  post_bulk_messages env fuel idem_key messages m s = publish env fuel idem_key messages m s
