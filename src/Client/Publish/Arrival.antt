-- ===== src/Client/Publish/Arrival.antt =====
-- A publication outlasts the network's failures.
use pulsar_relay.Prelude.{
  ℕ, zero, suc, ◌<◌, String, ◌≡◌, refl, ap, ◌∙◌, Option, none, some, List, [], ◌∷◌, ◌++◌, length,
  All, arith,
}
use pulsar_relay.Auth.Users.{User}
use pulsar_relay.Api.Models.{replies, MessageResponse}
use pulsar_relay.Api.Relay.{Relay, World}
use pulsar_relay.Api.Messages.{create_message}
use pulsar_relay.Core.Idempotency.{Idempotency}
use pulsar_relay.Client.Retry.{
  Attempt, response, again, verdict, returned, default_policy, retry_loop, retry_with_backoff,
}
use pulsar_relay.Client.Retry.Backoff.{calls, calls-suc, verdict_at, doubling, retry_outlasts}
use pulsar_relay.Client.Auth.{AuthManager, valid_token, invalidate, get_token}
use pulsar_relay.Client.Auth.Cache.{get_token_warm}
use pulsar_relay.Client.Publish.{
  MessageData, published, attempt_all, first_round, after_round, second_round, finish, publish,
}
use pulsar_relay.Client.Publish.Once.{
  Loss, no_connection, no_answer, bad_gateway, Fate, unreached, token_refused, handled, Body, lost,
  Before, message_of, post_to_relay, relay_env,
}

-- The client hears nothing of the relay.
abbrev pub IsLost : Fate → Type 0
IsLost (unreached loss) = Unit
IsLost token_refused = ⊥
IsLost (handled topic_id message_id now none) = ⊥
IsLost (handled topic_id message_id now (some loss)) = Unit

lost-again : (loss : Loss) → verdict (lost loss) ≡ again
unfolding verdict
lost-again no_connection = refl
lost-again no_answer = refl
lost-again bad_gateway = refl

module _ {P : Type 0} (world : World) (user : User) (r : Relay P) (key : String)
    (body : MessageData P) (answer : MessageResponse) (limit : ℕ)
    (replay : (topic_id message_id : String) (t : ℕ)
      → t < limit
      → create_message world r topic_id message_id t (message_of world user body) user (some key)
        ≡ some (r, replies answer))
    (token : String) where
  abbrev send : Relay P × List Fate → (Relay P × List Fate) × Attempt Body
  send = post_to_relay world user (record { token = token; idempotency_key = key; body = body })

  lost_step :
      (fate : Fate) (fates : List Fate)
      → IsLost fate
      → Before limit fate
      → ((send (r, fate ∷ fates)).0 ≡ (r, fates)) × (verdict (send (r, fate ∷ fates)).1 ≡ again)
  lost_step (unreached loss) fates h b = (refl, lost-again loss)
  lost_step token_refused fates h b = elim h [ ]
  lost_step (handled topic_id message_id now none) fates h b = elim h [ ]
  lost_step (handled topic_id message_id now (some loss)) fates h b =
      rw (replay topic_id message_id now b) (refl, lost-again loss)

  lost_reach :
      (losses fates : List Fate)
      → All IsLost losses
      → All (Before limit) losses
      → calls (length losses) send (r, losses ++ fates) ≡ (r, fates)
  unfolding calls
  lost_reach [] fates h b = refl
  lost_reach (fate ∷ losses) fates h b =
      ap (calls (length losses) send) (lost_step fate (losses ++ fates) h.0 b.0).0
      ∙ lost_reach losses fates h.1 b.1

  lost_busy :
      (losses fates : List Fate)
      → All IsLost losses
      → All (Before limit) losses
      → (i : ℕ) → i < length losses
      → verdict_at i send (r, losses ++ fates) ≡ again
  unfolding calls
  lost_busy [] fates h b i lt = absurd (omega arith)
  lost_busy (fate ∷ losses) fates h b zero lt = (lost_step fate (losses ++ fates) h.0 b.0).1
  lost_busy (fate ∷ losses) fates h b (suc i) lt =
      ap (verdict_at i send) (lost_step fate (losses ++ fates) h.0 b.0).0
      ∙ lost_busy losses fates h.1 b.1 i (omega arith)

  heard :
      (topic_id message_id : String) (now : ℕ) (fates : List Fate)
      → now < limit
      → send (r, handled topic_id message_id now none ∷ fates)
        ≡ ((r, fates), response 201 (some answer))
  heard topic_id message_id now fates early = rw (replay topic_id message_id now early) refl

  -- The attempts that are lost, and the one that is heard.
  attempts :
      (losses fates : List Fate) (topic_id message_id : String) (now fuel : ℕ)
      → All IsLost losses
      → All (Before limit) losses
      → now < limit
      → length losses < fuel
      → retry_with_backoff fuel default_policy send
          (r, losses ++ handled topic_id message_id now none ∷ fates)
        ≡ some ((r, fates), doubling 0 (length losses), returned 201 (some answer))
  unfolding verdict
  attempts losses fates topic_id message_id now fuel h b early enough =
      let reached = lost_reach losses (handled topic_id message_id now none ∷ fates) h b in
      let answered = heard topic_id message_id now fates early in
      retry_outlasts (length losses) fuel send
        (r, losses ++ handled topic_id message_id now none ∷ fates) 201 (some answer) enough
        (lost_busy losses (handled topic_id message_id now none ∷ fates) h b)
        (ap (λ st. verdict (send st).1) reached ∙ ap (λ o. verdict o.1) answered)
      ∙ ap (λ st. some (st, doubling 0 (length losses), returned 201 (some answer)))
          (calls-suc (length losses) send _
            ∙ ap (λ st. (send st).0) reached
            ∙ ap (λ o. o.0) answered)

-- A first round that ends with a 401, and a second round, with a new token, that arrives.
pub arrives_renewed :
    {P : Type 0} (world : World) (user : User) (r : Relay P) (key : String) (body : MessageData P)
    (answer : MessageResponse) (limit : ℕ)
    → ((topic_id message_id : String) (t : ℕ)
        → t < limit
        → create_message world r topic_id message_id t (message_of world user body) user (some key)
          ≡ some (r, replies answer))
    → (token token' : String) (clock : Relay P × List Fate → ℕ)
      (tokens : List Fate → Option (String × ℕ)) (m m' : AuthManager) (losses fates : List Fate)
      (topic_id message_id : String) (now fuel : ℕ)
    → (let rest = losses ++ handled topic_id message_id now none ∷ fates in
        valid_token m (clock (r, token_refused ∷ rest)) ≡ some token
        → get_token clock (λ st. (st, tokens st.1)) (invalidate m) (r, rest)
          ≡ (m', ((r, rest), some token'))
        → All IsLost losses
        → All (Before limit) losses
        → now < limit
        → length losses < suc fuel
        → publish
            (relay_env world user clock tokens)
            (suc fuel)
            key
            body
            m
            (r, token_refused ∷ rest)
          ≡ some (m', ((r, fates), published (some answer))))
unfolding publish first_round after_round second_round finish attempt_all retry_with_backoff
    retry_loop verdict
arrives_renewed world user r key body answer limit replay token token' clock tokens m m' losses
      fates topic_id message_id now fuel warm renewed h b early enough =
    let env = relay_env world user clock tokens in
    ap (first_round env (suc fuel) key body)
      (get_token_warm clock (λ st. (st, tokens st.1)) m _ token warm)
    ∙ ap (second_round env (suc fuel) key body) renewed
    ∙ ap (finish env m') (
        attempts world user r key body answer limit replay token' losses fates topic_id message_id
          now (suc fuel) h b early enough)
