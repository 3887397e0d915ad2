-- ===== src/Client/Publish/Once.antt =====
-- A publication against the relay's own handler, `create_message`, over a network that loses
-- requests and answers.
use mathlib.Core.Path.{subst}
use pulsar_relay.Prelude.{
  ℕ, ◌<◌, String, ◌≡◌, refl, false, Option, none, some, List, [], ◌∷◌, leb, All,
}
use pulsar_relay.Core.Idempotency.{Idempotency, default_idempotency_ttl_seconds, expiry_after}
use pulsar_relay.Auth.Users.{User}
use pulsar_relay.Api.Models.{
  forbidden, server_error, Reply, replies, fails, Value, MessageResponse, Message,
}
use pulsar_relay.Api.Relay.{Relay, World}
use pulsar_relay.Api.Messages.{begin_message, finish_message, create_message, proceeds, present}
use pulsar_relay.Api.Messages.Retry.{retry_replayed}
use pulsar_relay.Client.Retry.{Attempt, response, connection_error, timeout}
use pulsar_relay.Client.Auth.{AuthManager}
use pulsar_relay.Client.Publish.{
  Request, MessageData, Environment, Publication, published, transport_error, auth_error,
  http_error, publish,
}
use pulsar_relay.Client.Publish.Rule.{GoodLeft, GoodPublication, publish-Good}
use pulsar_relay.Client.Retry.Rule.{GoodAttempt}

-- How an answer, or a request, is lost; a gateway answers 502 in the relay's place.
pub data Loss : Type 0 where
  no_connection no_answer bad_gateway : Loss

-- What happens to a request: it does not reach the relay, its token is refused with a 401, or it is
-- handled, with the new topic's and message's identifiers and the time, and its answer may be lost.
pub data Fate : Type 0 where
  unreached : Loss → Fate
  token_refused : Fate
  handled : String → String → ℕ → Option Loss → Fate

-- A body is the relay's or none of the relay's.
abbrev pub Body : Type 0
Body = Option MessageResponse

abbrev pub lost : Loss → Attempt Body
lost no_connection = connection_error
lost no_answer = timeout
lost bad_gateway = response 502 none

abbrev pub with_loss : Attempt Body → Option Loss → Attempt Body
with_loss a none = a
with_loss a (some loss) = lost loss

-- A handled request is handled before `limit`.
abbrev pub Before : ℕ → Fate → Type 0
Before limit (unreached loss) = Unit
Before limit token_refused = Unit
Before limit (handled topic_id message_id now loss) = now < limit

-- A success carries this answer.
abbrev pub Says : MessageResponse → ℕ → Body → Type 0
Says answer status body = leb 400 status ≡ false → body ≡ some answer

module _ {P : Type 0} (world : World) (user : User) where
  -- What the framework makes of the handler: 201, the error's code, or 500 for an exception.
  abbrev pub answered : Relay P → Option (Relay P × Reply MessageResponse) → Relay P × Attempt Body
  answered r none = (r, response 500 none)
  answered r (some (r', replies answer)) = (r', response 201 (some answer))
  answered r (some (r', fails forbidden)) = (r', response 403 none)
  answered r (some (r', fails server_error)) = (r', response 500 none)

  abbrev pub message_of : MessageData P → Message P
  message_of body = record { topic = body.topic; payload = body.payload; metadata = body.metadata }

  -- The request meets the next fate; where none is left there is no connection.
  abbrev pub post_to_relay :
      Request (MessageData P) → Relay P × List Fate → (Relay P × List Fate) × Attempt Body
  post_to_relay request (r, []) = ((r, []), connection_error)
  post_to_relay request (r, unreached loss ∷ fates) = ((r, fates), lost loss)
  post_to_relay request (r, token_refused ∷ fates) = ((r, fates), response 401 none)
  post_to_relay request (r, handled topic_id message_id now loss ∷ fates) =
      let after = answered r (
        create_message world r topic_id message_id now (message_of request.body) user
          (some request.idempotency_key)) in
      ((after.0, fates), with_loss after.1 loss)

  -- The client's clock and authenticator are any.
  abbrev pub relay_env :
      (Relay P × List Fate → ℕ)
      → (List Fate → Option (String × ℕ))
      → Environment (Relay P × List Fate) (MessageData P) Body
  relay_env clock tokens = record {
    clock = clock;
    authenticate = λ st. (st, tokens st.1);
    post = post_to_relay;
  }

  abbrev pub Held : ℕ → Relay P → Relay P × List Fate → Type 0
  Held limit r st = (st.0 ≡ r) × All (Before limit) st.1

  module _ (r : Relay P) (key : String) (body : MessageData P) (answer : MessageResponse)
      (limit : ℕ)
      (replay : (topic_id message_id : String) (t : ℕ)
        → t < limit
        → create_message world r topic_id message_id t (message_of body) user (some key)
          ≡ some (r, replies answer)) where
    lost-Says : (loss : Loss) → GoodAttempt (Held limit r) (Says answer) (lost loss)
    lost-Says no_connection = tt
    lost-Says no_answer = tt
    lost-Says bad_gateway = λ h. cc

    with_loss-Says :
        (loss : Option Loss)
        → GoodAttempt (Held limit r) (Says answer) (with_loss (response 201 (some answer)) loss)
    with_loss-Says none = λ h. refl
    with_loss-Says (some loss) = lost-Says loss

    post-Held :
        (token : String) (r' : Relay P) (fates : List Fate)
        → r' ≡ r
        → All (Before limit) fates
        → (let request : Request (MessageData P) = record {
          token = token;
          idempotency_key = key;
          body = body;
        } in
            Held limit r (post_to_relay request (r', fates)).0
            × GoodAttempt (Held limit r) (Says answer) (post_to_relay request (r', fates)).1)
    post-Held token r' [] e h = ((e, tt), tt)
    post-Held token r' (unreached loss ∷ fates) e h = ((e, h.1), lost-Says loss)
    post-Held token r' (token_refused ∷ fates) e h = ((e, h.1), λ fine. cc)
    post-Held token r' (handled topic_id message_id now loss ∷ fates) e h =
        rw (e, replay topic_id message_id now h.0) ((refl, h.1), with_loss-Says loss)

    publish-Held :
        (clock : Relay P × List Fate → ℕ) (tokens : List Fate → Option (String × ℕ)) (fuel : ℕ)
        (m : AuthManager) (fates : List Fate)
        → All (Before limit) fates
        → GoodLeft
            (Held limit r)
            (Says answer)
            (publish (relay_env clock tokens) fuel key body m (r, fates))
    publish-Held clock tokens fuel m fates h =
        publish-Good (Held limit r) (Says answer) (relay_env clock tokens) key body
          (λ st held. held) (λ token st held. post-Held token st.0 st.1 held.0 held.1) fuel m
          (r, fates) (refl, h)

  published_body :
      (answer : MessageResponse) (limit : ℕ) (r : Relay P) (result : Publication Body)
      → GoodPublication (Held limit r) (Says answer) result
      → (b : Body) → result ≡ published b
      → b ≡ some answer
  published_body answer limit r (published b') h b e = let said : b' ≡ some answer = h.1 h.2 in cc
  published_body answer limit r (transport_error t) h b e = cc
  published_body answer limit r auth_error h b e = cc
  published_body answer limit r (http_error status) h b e = cc

  -- Exactly once, from the client to the store: on a relay that keeps idempotency records, let a
  -- first request with the publication's key, which is not empty, get past the relay's claim and be
  -- answered with `answer`, and let that answer be lost. Whatever requests, answers and connections
  -- the client's further attempts lose, and wherever the relay refuses the token with a 401 (which
  -- starts the client's second round), as long as the attempts that the relay handles come before
  -- the record of the answer expires (600 seconds), the relay is left exactly as the first request
  -- left it, with nothing saved or broadcast again, and if the client's call returns a body, then
  -- it is `answer`.
  pub published_once :
      (clock : Relay P × List Fate → ℕ) (tokens : List Fate → Option (String × ℕ)) (fuel : ℕ)
      (m m' : AuthManager) (fates fates' : List Fate) (result : Publication Body)
      (r r1 r2 r' : Relay P) (topic_id message_id : String) (now0 now : ℕ) (body : MessageData P)
      (user1 : User) (key : String) (entries : Idempotency Value) (answer : MessageResponse)
      → present (some key) ≡ some key
      → r1.idempotency ≡ some entries
      → begin_message world r topic_id now0 (message_of body) user (some key) ≡ (r1, proceeds user1)
      → finish_message world r1 message_id now (message_of body) user1 (some key)
        ≡ some (r2, answer)
      → All (Before (expiry_after now default_idempotency_ttl_seconds)) fates
      → publish (relay_env clock tokens) fuel key body m (r2, fates)
        ≡ some (m', ((r', fates'), result))
      → (r' ≡ r2) × ((b : Body) → result ≡ published b → b ≡ some answer)
  published_once clock tokens fuel m m' fates fates' result r r1 r2 r' topic_id message_id now0 now
        body user1 key entries answer named claimed began finished before left =
      let limit = expiry_after now default_idempotency_ttl_seconds in
      let held = subst (GoodLeft (Held limit r2) (Says answer)) left (
        publish-Held r2 key body answer limit
          (λ topic_id' message_id' t early.
            retry_replayed world r r1 r2 topic_id message_id topic_id' message_id' now0 now t
              (message_of body) user user1 (some key) key entries answer named claimed began
              finished early)
          clock tokens fuel m fates before) in
      (held.0.0, published_body answer limit r2 result held.1)
