-- ===== src/Api/Messages/Retry.antt =====
-- A retried request is answered from the record of the first one.
use mathlib.Core.Path.{subst}
use pulsar_relay.Prelude.{
  ℕ, ◌<◌, String, ◌≡◌, refl, ap, ◌∙◌, inl, inr, Option, none, some, [], arith, Option-cases, nat_eq,
  string_eq, pair_eq,
}
use pulsar_relay.Dict
use pulsar_relay.Core.Idempotency.{
  Idempotency, record_response, default_idempotency_ttl_seconds, expiry_after,
}
use pulsar_relay.Core.Idempotency.Claims.{record_replayed, run}
use pulsar_relay.Auth.Users.{User}
use pulsar_relay.Api.Messages.{
  get_topic, after_settled, after_claim, after_fan_out, conclude, claim_key, begin_message,
  replayed, proceeds, present, fan_out, finish_message, create_message, broadcast_local,
  broadcast_polls, remember, saved,
}
use pulsar_relay.Api.Relay.{check_write, get_or_create_topic, Relay, World}
use pulsar_relay.Api.Models.{
  Message, WebSocketMessage, Value, replies, MessageResponse, model_dump, model_validate,
  response_of, as_text, as_timestamp,
}
use pulsar_relay.Api.Messages.Access.{Usable, Begun, begin_message-Begun}

model_validate-model_dump :
    (response : MessageResponse) → model_validate (model_dump response) ≡ some response
unfolding model_validate model_dump response_of as_text as_timestamp Dict.get
model_validate-model_dump response = refl

module _ {ℓ} {P : Type ℓ} (world : World) where
  pub fan_out-keeps :
      (r r' : Relay P) (channel : String) (message : WebSocketMessage P)
      → fan_out world r channel message ≡ some r'
      → (r'.topics ≡ r.topics) × (r'.idempotency ≡ r.idempotency)
  unfolding fan_out broadcast_local broadcast_polls
  fan_out-keeps r r' channel message h = ground arith

  -- What a finished request leaves behind.
  Finished :
      Relay P → ℕ → User → String → Idempotency Value → Option (Relay P × MessageResponse) → Type 0
  Finished r now user key entries none = Unit
  Finished r now user key entries (some (r', response)) =
      (r'.topics ≡ r.topics)
      × (r'.idempotency
          ≡ some (
              record_response now entries user.user_id key (model_dump response)
                default_idempotency_ttl_seconds))

  after_fan_out-Finished :
      (r : Relay P) (now : ℕ) (user : User) (key : String) (entries : Idempotency Value)
      (response : MessageResponse) (result : Option (Relay P))
      → r.idempotency ≡ some entries
      → ((r' : Relay P)
          → result ≡ some r'
          → (r'.topics ≡ r.topics) × (r'.idempotency ≡ r.idempotency))
      → Finished r now user key entries (after_fan_out world now user (some key) response result)
  unfolding after_fan_out Finished remember
  after_fan_out-Finished r now user key entries response none e h = tt
  after_fan_out-Finished r now user key entries response (some r') e h =
      let kept : (r'.topics ≡ r.topics) × (r'.idempotency ≡ r.idempotency) = h r' refl in
      rw (kept.1, e) (kept.0, refl)

  finish_message-Finished :
      (r : Relay P) (message_id : String) (now : ℕ) (message : Message P) (user : User)
      (idem_key : Option String) (key : String) (entries : Idempotency Value)
      → present idem_key ≡ some key
      → r.idempotency ≡ some entries
      → Finished r now user key entries
          (finish_message world r message_id now message user idem_key)
  unfolding finish_message saved
  finish_message-Finished r message_id now message user idem_key key entries h e =
      rw h (after_fan_out-Finished r now user key entries _ _ e (λ r1 f. fan_out-keeps _ r1 _ _ f))

  -- A claim of a recorded key is answered with the recorded response.
  claim_key-replayed :
      (r : Relay P) (now t : ℕ) (user : User) (key : String) (entries : Idempotency Value)
      (response : MessageResponse)
      → r.idempotency
        ≡ some (
            record_response now entries user.user_id key
              (model_dump response)
              default_idempotency_ttl_seconds)
      → t < expiry_after now default_idempotency_ttl_seconds
      → claim_key world r t user (some key) ≡ (r, replayed response)
  unfolding claim_key run model_dump after_claim model_validate response_of as_text as_timestamp
      Dict.get
  claim_key-replayed r now t user key entries response e before =
      rw
        (
          e,
          record_replayed now entries (user.user_id, key) (model_dump response)
              default_idempotency_ttl_seconds [] t default_idempotency_ttl_seconds tt before,
          claim_key,
        )
        refl

  pub get_or_create_topic-Usable :
      (r : Relay P) (topic_id : String) (now : ℕ) (name : String) (user : User)
      (key : Option String)
      → Usable r.topics name user
      → after_settled world now key (get_or_create_topic world r topic_id now name user)
        ≡ claim_key world r now user key
  unfolding get_or_create_topic check_write Usable after_settled
  get_or_create_topic-Usable r topic_id now name user key usable =
      elim (Option-cases (get_topic r.topics user.user_id name)) [
        | inl missing ↦ ground arith
        | inr (topic, found) ↦ rw (found, usable.1, get_or_create_topic) refl
      ]

  replay :
      (r : Relay P) (topic_id message_id : String) (now t : ℕ) (message : Message P) (user : User)
      (idem_key : Option String) (key : String) (entries : Idempotency Value)
      (response : MessageResponse)
      → present idem_key ≡ some key
      → Usable r.topics message.topic user
      → r.idempotency
        ≡ some (
            record_response now entries user.user_id key
              (model_dump response)
              default_idempotency_ttl_seconds)
      → t < expiry_after now default_idempotency_ttl_seconds
      → create_message world r topic_id message_id t message user idem_key
        ≡ some (r, replies response)
  unfolding create_message begin_message conclude
  replay r topic_id message_id now t message user idem_key key entries response h usable e before =
      ap (conclude world message_id t message idem_key) {y = (r, replayed response)} (
        get_or_create_topic-Usable r topic_id t message.topic user (present idem_key) usable
        ∙ rw h (claim_key-replayed r now t user key entries response e before))

  -- If a request with an `Idempotency-Key` gets past the claim, writes its message at `now` and answers
  -- `response`, then the same request made again before the record of that answer expires (600
  -- seconds after `now`) is answered with the same `response`, and the relay's whole state stays as
  -- it is: no second message is saved or broadcast.
  pub retry_replayed :
      (r r1 r2 : Relay P) (topic_id message_id topic_id' message_id' : String) (now0 now t : ℕ)
      (message : Message P) (user user1 : User) (idem_key : Option String) (key : String)
      (entries : Idempotency Value) (response : MessageResponse)
      → present idem_key ≡ some key
      → r1.idempotency ≡ some entries
      → begin_message world r topic_id now0 message user idem_key ≡ (r1, proceeds user1)
      → finish_message world r1 message_id now message user1 idem_key ≡ some (r2, response)
      → t < expiry_after now default_idempotency_ttl_seconds
      → create_message world r2 topic_id' message_id' t message user idem_key
        ≡ some (r2, replies response)
  unfolding Begun Finished
  retry_replayed r r1 r2 topic_id message_id topic_id' message_id' now0 now t message user user1
        idem_key key entries response h e began finished before =
      let b : Begun world r message.topic user (r1, proceeds user1) =
        subst (Begun world r message.topic user) began
          (begin_message-Begun world r topic_id now0 message user idem_key) in
      let f : Finished r1 now user1 key entries (some (r2, response)) =
        subst (Finished r1 now user1 key entries) finished
          (finish_message-Finished r1 message_id now message user1 idem_key key entries h e) in
      replay r2 topic_id' message_id' now t message user idem_key key entries response h
        (rw f.0 b.1) (rw⁻¹ b.0 f.1) before
