-- ===== src/Client/Tests.antt =====
-- Runs of the client against small servers.
use pulsar_relay.Prelude.{
  ℕ, zero, suc, ◌+◌, ◌≤◌, ◌<◌, max, String, ◌≡◌, ◌≢◌, refl, Option, none, some, List, [], ◌∷◌, ◌++◌,
  if◌then◌else◌, arith, All, length, leb, nat_eq, string_eq, pair_eq,
}
use pulsar_relay.Clock.{seconds}
use pulsar_relay.Core.Idempotency.{default_idempotency_ttl_seconds, expiry_after}
use pulsar_relay.Api.Models.{replies}
use pulsar_relay.Api.Messages.{create_message}
use pulsar_relay.Api.Messages.Retry.{retry_replayed}
use pulsar_relay.Api.Relay.{Relay}
use pulsar_relay.Api.Messages.Tests.{
  alice, alice_owner, start, world, begun, claimed, answer, finished, relay_of, begun_eq,
  claimed_eq, key_eq, finished_eq,
}
use pulsar_relay.Client.Retry.{
  Attempt, response, RetryPolicy, verdict, raised, gave_up, retry_with_backoff, retry_loop,
}
use pulsar_relay.Client.Retry.Backoff.{delays, calls, verdict_at, outcome, retry_ends}
use pulsar_relay.Client.Auth.{
  AuthManager, init, valid_token, get_token, invalidate, Credentials, Answer, success,
  refresh_authenticate, auth_error, no_refresh_token, remember_token,
}
use pulsar_relay.Client.Auth.Rotation.{rotate, authenticate_sends_latest}
use pulsar_relay.Client.Publish.{
  Request, MessageData, Environment, Publication, published, publish, first_round, second_round,
  after_round, finish, attempt_all,
}
use pulsar_relay.Client.Publish.Keys.{logged, Carries, publish_one_key}
use pulsar_relay.Client.Publish.Once.{
  no_connection, bad_gateway, Fate, unreached, token_refused, handled, message_of, Body, relay_env,
  published_once,
}
use pulsar_relay.Client.Publish.Arrival.{arrives_renewed}

-- A server that is down for a number of calls, and then answers.
abbrev recovering : ℕ → ℕ × Attempt ℕ
recovering zero = (0, response 200 7)
recovering (suc n) = (n, response 503 0)

abbrev twice : RetryPolicy
twice = record { initial_delay = 1; max_delay = 60; backoff_factor = 2; max_attempts = some 2 }

retry_ends_example :
    (sleeps : List ℕ) × (retry_with_backoff 2 twice recovering 9
      ≡ some (
        calls (suc (length sleeps)) recovering 9,
        sleeps,
        outcome (verdict_at (length sleeps) recovering 9),
      ))
    × (length sleeps + 1 ≤ max 2 1)
    × (sleeps ≡ delays twice (length sleeps) 1)
retry_ends_example = retry_ends 2 twice 2 recovering 9 refl (omega arith)

-- Two attempts and a second of sleep, then the client gives up.
gives_up : retry_with_backoff 2 twice recovering 9 ≡ some (7, 1 ∷ [], raised gave_up)
unfolding retry_with_backoff retry_loop verdict
gives_up = refl

-- The state is the time in microseconds; a token lasts 1,000 seconds.
abbrev issues : ℕ → ℕ × Option (String × ℕ)
issues now = (now + 5, some ("jwt", 1000))

cold : valid_token init 0 ≡ none
unfolding valid_token
cold = refl

-- A relay that answers a refresh with the next token; its state is the token that it accepts.
abbrev next_token : String → String → String × Answer
next_token sent accepted =
    ("r2", success (record { access_token = "jwt"; expires_in = none; refresh_token = some "r2" }))

abbrev first_creds : Credentials
first_creds = record { relay_url = "https://relay"; refresh_token = "r1"; issued_at = 0 }

authenticate_sends_latest_example :
    (first_creds.refresh_token ≡ ""
      → refresh_authenticate (λ s. 0) next_token "https://relay" (first_creds, "r1")
        ≡ ((first_creds, "r1"), auth_error no_refresh_token))
    × (first_creds.refresh_token ≢ ""
        → ((rotate (λ s. 0) next_token "https://relay" (first_creds, "r1")).1 ≡ "r2")
          × ((rotate (λ s. 0) next_token "https://relay" (first_creds, "r1")).0.refresh_token
              ≡ "r2")
          × ((rotate
                (λ s. 0)
                next_token
                "https://relay"
                (rotate (λ s. 0) next_token "https://relay" (first_creds, "r1"))).1
              ≡ "r2"))
authenticate_sends_latest_example =
    authenticate_sends_latest (λ s. 0) next_token "https://relay" first_creds "r1"

-- The first request is refused for its token, and the second one answered; the state counts.
abbrev refusing : Environment ℕ String ℕ
refusing = record {
  clock = λ n. 0;
  authenticate = λ n. (n, some ("jwt", 1000));
  post = λ request n. (suc n, if leb 1 n then response 201 n else response 401 0);
}

abbrev sent : Option (AuthManager × ((ℕ × List (Request String)) × Publication ℕ))
sent = publish (logged refusing) 1 "k" "hi" init (0, [])

abbrev bearer : AuthManager
bearer = record { token = some "jwt"; token_expiry = some (seconds 1000) }

abbrev hi : Request String
hi = record { token = "jwt"; idempotency_key = "k"; body = "hi" }

sent_eq : sent ≡ some (bearer, ((2, hi ∷ hi ∷ []), published 1))
unfolding publish first_round after_round second_round attempt_all finish get_token valid_token
    invalidate remember_token retry_with_backoff retry_loop verdict
sent_eq = refl

publish_one_key_example : All (Carries "k" "hi") (hi ∷ hi ∷ [])
publish_one_key_example =
    publish_one_key refusing 1 "k" "hi" init bearer 0 2 (hi ∷ hi ∷ []) (published 1) sent_eq

-- The relay's state after the first request, whose answer is lost.
abbrev recorded : Relay ℕ
recorded = relay_of finished

abbrev job : MessageData ℕ
job = record { topic = "jobs"; payload = 7; ttl = none; metadata = none }

-- The relay handles the retry, and a gateway answers; then there is no connection.
abbrev losses : List Fate
losses = handled "t2" "m2" 1000006 (some bad_gateway) ∷ unreached no_connection ∷ []

abbrev fates : List Fate
fates = losses ++ handled "t3" "m3" 3000006 none ∷ []

warm : valid_token bearer 0 ≡ some "jwt"
unfolding valid_token
warm = refl

-- The relay refuses the cached token first, and the client renews it.
abbrev renewed_bearer : AuthManager
renewed_bearer = record { token = some "new"; token_expiry = some (seconds 1000) }

abbrev renews : List Fate → Option (String × ℕ)
renews left = some ("new", 1000)

renewed_eq :
    get_token {S = Relay ℕ × List Fate}
      (λ st. 0)
      (λ st. (st, renews st.1))
      (invalidate bearer)
      (recorded, fates)
    ≡ (renewed_bearer, ((recorded, fates), some "new"))
unfolding get_token valid_token remember_token invalidate
renewed_eq = refl

replayed_before :
    (topic_id message_id : String) (t : ℕ)
    → t < expiry_after 6 default_idempotency_ttl_seconds
    → create_message world recorded topic_id message_id t
        (message_of world alice job)
        alice
        (some "k")
      ≡ some (recorded, replies answer)
replayed_before topic_id message_id t early =
    retry_replayed world start begun recorded "t1" "m1" topic_id message_id 5 6 t
      (message_of world alice job) alice alice_owner (some "k") "k" claimed answer key_eq claimed_eq
      begun_eq finished_eq early

arrived :
    publish
      (relay_env world alice (λ st. 0) renews)
      3
      "k"
      job
      bearer
      (recorded, token_refused ∷ fates)
    ≡ some (renewed_bearer, ((recorded, []), published (some answer)))
arrived =
    arrives_renewed world alice recorded "k" job answer
      (expiry_after 6 default_idempotency_ttl_seconds) replayed_before "jwt" "new" (λ st. 0) renews
      bearer renewed_bearer losses [] "t3" "m3" 3000006 2 warm renewed_eq (tt, (tt, tt))
      (omega arith, (tt, tt)) (omega arith) (omega arith)

published_once_example :
    (recorded ≡ recorded) × ((b : Body) → published (some answer) ≡ published b → b ≡ some answer)
published_once_example =
    published_once world alice (λ st. 0) renews 3 bearer renewed_bearer (token_refused ∷ fates) []
      (published (some answer)) start begun recorded recorded "t1" "m1" 5 6 job alice_owner "k"
      claimed answer key_eq claimed_eq begun_eq finished_eq
      (tt, (omega arith, (tt, (omega arith, tt)))) arrived
