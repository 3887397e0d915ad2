-- ===== src/Client/Polling/Tracking.antt =====
-- Where the cursors stand after a poll.
use mathlib.Core.Path.{subst}
use pulsar_relay.Prelude.{
  ℕ, String, ◌≡◌, refl, ap, ◌∙◌, Bool, not, ◌&&◌, Option, none, some, List, [], ◌∷◌, leb, nat_beq,
  arith, if◌then◌else◌, Bool-cases, Option-cases, inl, inr, ◌==◌, nat_eq, string_eq, pair_eq,
}
use pulsar_relay.Dict.Laws.{get-put}
use pulsar_relay.Client.Auth.{AuthManager, get_token}
use pulsar_relay.Client.Cursors.{
  Cursors, get_last_message_id, set_last_message_id, persist_if_path, persist,
}
use pulsar_relay.Client.Polling.{
  PollData, Received, PollAnswer, response, timed_out, request_error, PollResult, received, failed,
  auth_failed, PollEnvironment, poll_data, track, track_all, concluded, second_request,
  after_request, first_request, long_poll,
}

-- The identifier that a message names for a topic: both texts are there and not empty.
abbrev pub names {ℓ} : {B : Type ℓ} → Received B → String → Option String
names message t = elim message.topic [
  | none ↦ none
  | some topic ↦ elim message.message_id [
    | none ↦ none
    | some message_id ↦
        if not (topic == "") && not (message_id == "") && topic == t then some message_id else none
  ]
]

abbrev pub or_else : Option String → Option String → Option String
or_else none old = old
or_else (some message_id) old = some message_id

-- The last identifier that the messages name for a topic, or the old one.
unfoldable pub latest {ℓ} :
    {B : Type ℓ} → String → List (Received B) → Option String → Option String
latest t [] old = old
latest t (message ∷ messages) old = latest t messages (or_else (names message t) old)

cursor-set :
    (writes : Bool) (c : Cursors) (topic message_id t : String)
    → get_last_message_id (set_last_message_id writes c topic message_id) t
      ≡ (if topic == t then some message_id else get_last_message_id c t)
unfolding get_last_message_id set_last_message_id persist_if_path persist
cursor-set writes c topic message_id t =
    ground (arith, get-put c.last_message_ids topic t message_id)

module _ {ℓ} {B : Type ℓ} where
  cursor-track :
      (writes : Bool) (c : Cursors) (message : Received B) (t : String)
      → get_last_message_id (track writes c message) t
        ≡ or_else (names message t) (get_last_message_id c t)
  unfolding track
  cursor-track writes c message t = elim (Option-cases message.topic) [
    | inl no_topic ↦ ground arith
    | inr (topic, has_topic) ↦ elim (Option-cases message.message_id) [
      | inl no_id ↦ ground arith
      | inr (message_id, has_id) ↦ ground (arith, cursor-set writes c topic message_id t)
    ]
  ]

  pub cursor-track_all :
      (writes : Bool) (c : Cursors) (messages : List (Received B)) (t : String)
      → get_last_message_id (track_all writes c messages) t
        ≡ latest t messages (get_last_message_id c t)
  unfolding track_all latest
  cursor-track_all writes c [] t = refl
  cursor-track_all writes c (message ∷ messages) t =
      cursor-track_all writes (track writes c message) messages t
      ∙ ap (latest t messages) (cursor-track writes c message t)

  -- The messages that a poll hands to its caller.
  abbrev pub messages_in : PollResult B → List (Received B)
  messages_in (received messages) = messages
  messages_in failed = []
  messages_in auth_failed = []

module _ {ℓ} {S B : Type ℓ} (env : PollEnvironment S B) where
  Tracked : Cursors → AuthManager × (Cursors × (S × PollResult B)) → Type 0
  Tracked c (m, (c', (s, result))) =
      (t : String)
      → get_last_message_id c' t ≡ latest t (messages_in result) (get_last_message_id c t)

  concluded-Tracked :
      (m : AuthManager) (c : Cursors) (answer : S × PollAnswer B)
      → Tracked c (concluded env m c answer)
  unfolding concluded Tracked latest
  concluded-Tracked m c (s, timed_out) = λ t. refl
  concluded-Tracked m c (s, request_error) = λ t. refl
  concluded-Tracked m c (s, response status messages) = elim (Bool-cases (leb 400 status)) [
    | inl error ↦ rw error (λ t. refl)
    | inr fine ↦ rw fine (λ t. cursor-track_all env.writes c messages t)
  ]

  second_request-Tracked :
      (c : Cursors) (q : PollData) (got : AuthManager × (S × Option String))
      → Tracked c (second_request env c q got)
  unfolding second_request Tracked latest
  second_request-Tracked c q (m, (s, none)) = λ t. refl
  second_request-Tracked c q (m, (s, some token)) = concluded-Tracked m c (env.post token q s)

  after_request-Tracked :
      (m : AuthManager) (c : Cursors) (q : PollData) (answer : S × PollAnswer B)
      → Tracked c (after_request env m c q answer)
  unfolding after_request Tracked latest
  after_request-Tracked m c q (s, timed_out) = λ t. refl
  after_request-Tracked m c q (s, request_error) = λ t. refl
  after_request-Tracked m c q (s, response status messages) =
      elim (Bool-cases (nat_beq status 401)) [
        | inl denied ↦ rw denied (second_request-Tracked c q _)
        | inr allowed ↦ rw allowed (concluded-Tracked m c (s, response status messages))
      ]

  first_request-Tracked :
      (c : Cursors) (q : PollData) (got : AuthManager × (S × Option String))
      → Tracked c (first_request env c q got)
  unfolding first_request Tracked latest
  first_request-Tracked c q (m, (s, none)) = λ t. refl
  first_request-Tracked c q (m, (s, some token)) = after_request-Tracked m c q (env.post token q s)

  -- However a poll ends (with messages, with a time-out, with an error of the relay or of the network,
  -- in its first or its second request), the cursor of a topic is afterwards the last identifier that
  -- the messages handed to the caller name for the topic, and stays as it was where they name none.
  pub poll_tracks :
      (m m' : AuthManager) (c c' : Cursors) (topics : List String) (timeout : ℕ) (s s' : S)
      (result : PollResult B)
      → long_poll env m c topics timeout s ≡ (m', (c', (s', result)))
      → (t : String)
      → get_last_message_id c' t ≡ latest t (messages_in result) (get_last_message_id c t)
  unfolding long_poll Tracked
  poll_tracks m m' c c' topics timeout s s' result e = subst (Tracked c) e (
      first_request-Tracked c (poll_data c topics timeout)
        (get_token env.clock env.authenticate m s))
