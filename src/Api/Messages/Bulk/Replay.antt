-- ===== src/Api/Messages/Bulk/Replay.antt =====
-- A retried bulk request is answered from the record of the first one.
use mathlib.Core.Path.{subst}
use pulsar_relay.Prelude.{
  ℕ, suc, ◌<◌, String, ◌≡◌, refl, sym, ap, ◌∙◌, Option, none, some, List, [], ◌∷◌, arith, nat_eq,
  string_eq, pair_eq,
}
use pulsar_relay.Dict
use pulsar_relay.Core.Idempotency.{
  Idempotency, record_response, default_idempotency_ttl_seconds, expiry_after,
}
use pulsar_relay.Core.Idempotency.Claims.{record_replayed, run}
use pulsar_relay.Auth.Users.{User}
use pulsar_relay.Api.Models.{
  Reply, replies, fails, Value, Message, BulkMessageResponse, bulk_dump, bulk_validate, bulk_of,
}
use pulsar_relay.Api.Relay.{Relay, World}
use pulsar_relay.Api.Messages.{channel_of, present, fan_out, saved}
use pulsar_relay.Api.Messages.Retry.{fan_out-keeps}
use pulsar_relay.Api.Messages.Bulk.{
  Draws, Tally, bulk_replayed, no_tally, after_bulk_claim, claim_bulk_key, after_write,
  write_message, write_messages, ws_message, write_bulk, bulk_remember, broadcast_failed,
  after_bulk_outcome, create_bulk_messages,
}

bulk_validate-bulk_dump :
    (response : BulkMessageResponse) → bulk_validate (bulk_dump response) ≡ some response
unfolding bulk_validate bulk_dump bulk_of Dict.get
bulk_validate-bulk_dump response = refl

module _ {ℓ} {P : Type ℓ} (world : World) where
  broadcast_failed-idempotency :
      (r : Relay P) (channel : String)
      → (broadcast_failed world r channel).idempotency ≡ r.idempotency
  unfolding broadcast_failed
  broadcast_failed-idempotency r channel = ground arith

  after_write-idempotency :
      (d : Draws) (channel topic : String) (i : ℕ) (t : Tally) (stored : Relay P)
      (o : Option (Relay P))
      → ((r' : Relay P) → o ≡ some r' → r'.idempotency ≡ stored.idempotency)
      → (after_write world d channel i topic t stored o).0.idempotency ≡ stored.idempotency
  unfolding after_write
  after_write-idempotency d channel topic i t stored (some r') h = h r' refl
  after_write-idempotency d channel topic i t stored none h =
      broadcast_failed-idempotency stored channel

  write_message-idempotency :
      (d : Draws) (user : User) (i : ℕ) (message : Message P) (st : Relay P × Tally)
      → (write_message world d user i message st).0.idempotency ≡ st.0.idempotency
  unfolding write_message saved
  write_message-idempotency d user i message (r, t) =
      let channel = channel_of user.user_id message.topic in
      let stored = saved world r (d.message_id i) (d.time i) message user in
      after_write-idempotency d channel message.topic i t stored
        (fan_out world stored channel (ws_message world d i message))
        (λ r' e. (fan_out-keeps world stored r' channel (ws_message world d i message) e).1)

  write_messages-idempotency :
      (d : Draws) (user : User) (i : ℕ) (messages : List (Message P)) (st : Relay P × Tally)
      → (write_messages world d user i messages st).0.idempotency ≡ st.0.idempotency
  unfolding write_messages
  write_messages-idempotency d user i [] st = refl
  write_messages-idempotency d user i (message ∷ messages) st =
      write_messages-idempotency d user (suc i) messages (write_message world d user i message st)
      ∙ write_message-idempotency d user i message st

  -- What a written request with a key leaves in the idempotency storage.
  Recorded : ℕ → User → String → Idempotency Value → Relay P × Reply BulkMessageResponse → Type 0
  Recorded now user key entries (r', fails e) = ⊥
  Recorded now user key entries (r', replies response) =
      r'.idempotency
      ≡ some (
          record_response now entries user.user_id key (bulk_dump response)
            default_idempotency_ttl_seconds)

  write_bulk-Recorded :
      (d : Draws) (now : ℕ) (messages : List (Message P)) (key : String) (r : Relay P) (user : User)
      (entries : Idempotency Value)
      → r.idempotency ≡ some entries
      → Recorded now user key entries (write_bulk world d now messages (some key) r user)
  unfolding write_bulk bulk_remember Recorded
  write_bulk-Recorded d now messages key r user entries e =
      rw (write_messages-idempotency d user 0 messages (r, no_tally) ∙ e, bulk_remember) refl

  claim_bulk_key-replayed :
      (r : Relay P) (now t : ℕ) (user : User) (key : String) (entries : Idempotency Value)
      (response : BulkMessageResponse)
      → r.idempotency
        ≡ some (
            record_response now entries user.user_id key
              (bulk_dump response)
              default_idempotency_ttl_seconds)
      → t < expiry_after now default_idempotency_ttl_seconds
      → claim_bulk_key world r t user (some key) ≡ (r, bulk_replayed response)
  unfolding claim_bulk_key run bulk_dump after_bulk_claim bulk_validate bulk_of Dict.get
  claim_bulk_key-replayed r now t user key entries response e before =
      rw
        (
          e,
          record_replayed now entries (user.user_id, key) (bulk_dump response)
              default_idempotency_ttl_seconds [] t default_idempotency_ttl_seconds tt before,
          claim_bulk_key,
        )
        refl

  -- If a bulk request with an `Idempotency-Key` writes its messages and answers `response` at
  -- `now`, then any bulk request of the user with that key before the record of the answer expires
  -- is answered with the same `response`, and the relay's whole state stays as it is.
  pub bulk_retry_replayed :
      (r r2 : Relay P) (d d' : Draws) (now now' : ℕ) (messages messages' : List (Message P))
      (user : User) (idem_key : Option String) (key : String) (entries : Idempotency Value)
      (response : BulkMessageResponse)
      → present idem_key ≡ some key
      → r.idempotency ≡ some entries
      → write_bulk world d now messages (present idem_key) r user ≡ (r2, replies response)
      → d'.now < expiry_after now default_idempotency_ttl_seconds
      → create_bulk_messages world r2 d' now' messages' user idem_key ≡ (r2, replies response)
  unfolding create_bulk_messages after_bulk_outcome Recorded
  bulk_retry_replayed r r2 d d' now now' messages messages' user idem_key key entries response h e
        written before =
      let kept : Recorded now user key entries (r2, replies response) =
        subst (Recorded now user key entries)
          (ap (λ k. write_bulk world d now messages k r user) (sym h) ∙ written)
          (write_bulk-Recorded d now messages key r user entries e) in
      rw h (
        ap (after_bulk_outcome world d' now' messages' user (some key))
          (claim_bulk_key-replayed r2 now d'.now user key entries response kept before))
