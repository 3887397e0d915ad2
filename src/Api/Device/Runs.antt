-- ===== src/Api/Device/Runs.antt =====
-- Runs of the device flow: any sequence of calls and of polls.
use pulsar_relay.Prelude.{
  ℕ, String, eq_iff, ◌≡◌, ◌≢◌, inl, inr, true, Option, none, some, List, [], ◌∷◌, arith,
  Option-cases, take, nat_eq, string_eq, pair_eq, All,
}
use pulsar_relay.Dict
use pulsar_relay.Dict.Laws.{get-put}
use pulsar_relay.Auth.Users.{UserStorage}
use pulsar_relay.Auth.Refresh.{RefreshTokenStorage}
use pulsar_relay.Api.Device.{Drawn, Services, poll_device_token}
use pulsar_relay.Api.Device.Polls.{poll-MovesOn}
use pulsar_relay.Auth.DeviceFlow.{
  approved, denied, expired, DeviceCode, DeviceCodeStorage, DeviceRequest, init, new_device_code,
  first_free, build, store, create, get_by_user_code, update, approve_device, approve, deny_device,
  deny, consume,
}
use pulsar_relay.Auth.DeviceFlow.Lifecycle.{
  IsKeyed, status_of, moves, moves_refl, moves_trans, keyed_put, keyed_remove, approve-moves,
  deny-moves, consume-moves,
}

-- What a run of the relay does with the sessions: the calls of the storage, and whole polls of the
-- endpoint, each with the users and refresh tokens as they are then.
pub data Call : Type 0 where
  creates : List String → String → ℕ → DeviceRequest → Call
  approves : ℕ → String → String → Call
  denies : String → Call
  consumes : String → Call
  polls : UserStorage → RefreshTokenStorage → ℕ → Drawn → String → String → Call

abbrev pub state_of :
    DeviceCodeStorage → Option (DeviceCodeStorage × DeviceCode × String) → DeviceCodeStorage
state_of st none = st
state_of st (some (st', device, device_code)) = st'

module _ (services : Services) where
  unfoldable pub step : DeviceCodeStorage → Call → DeviceCodeStorage
  unfolding create approve deny consume
  step st (creates drawn device_code now request) =
      state_of st (create services.hash_device_code services.upper st drawn device_code now request)
  step st (approves now user_code user_id) =
      (approve services.hash_device_code services.upper st now user_code user_id).0
  step st (denies user_code) = (deny services.hash_device_code services.upper st user_code).0
  step st (consumes device_code) =
      (consume services.hash_device_code services.upper st device_code).0
  step st (polls users refresh now drawn grant_type device_code) =
      (poll_device_token services (record { codes = st; users = users; refresh = refresh }) now
        drawn grant_type device_code).0.codes

  -- The call creates no session of this hash.
  abbrev pub Spares : String → Call → Type 0
  Spares h (creates drawn device_code now request) = services.hash_device_code device_code ≢ h
  Spares h _ = Unit

  create-moves :
      (st : DeviceCodeStorage) (drawn : List String) (device_code : String) (now : ℕ)
      (request : DeviceRequest) (h : String)
      → services.hash_device_code device_code ≢ h
      → moves (status_of st h) (
          status_of
            (state_of st
              (create services.hash_device_code services.upper st drawn device_code now request))
            h)
        ≡ true
  unfolding create build store
  create-moves st drawn device_code now request h ne =
      elim (Option-cases (first_free st.user_code_index (take 10 drawn))) [
        | inl taken ↦ rw (taken, create, build) (moves_refl (status_of st h))
        | inr (user_code, free) ↦ ground (
          arith,
          moves_refl (status_of st h),
          get-put st.records (services.hash_device_code device_code) h
              (new_device_code (services.hash_device_code device_code) user_code now request),
          eq_iff (services.hash_device_code device_code) h,
        )
      ]

  step-moves :
      (st : DeviceCodeStorage) (c : Call) (h : String)
      → IsKeyed st
      → Spares h c
      → moves (status_of st h) (status_of (step st c) h) ≡ true
  unfolding step
  step-moves st (creates drawn device_code now request) h keyed ne =
      create-moves st drawn device_code now request h ne
  step-moves st (approves now user_code user_id) h keyed ne =
      approve-moves services.hash_device_code services.upper st now user_code user_id h keyed
  step-moves st (denies user_code) h keyed ne =
      deny-moves services.hash_device_code services.upper st user_code h keyed
  step-moves st (consumes device_code) h keyed ne =
      consume-moves services.hash_device_code services.upper st device_code h
  step-moves st (polls users refresh now drawn grant_type device_code) h keyed ne =
      (poll-MovesOn services (record { codes = st; users = users; refresh = refresh }) now drawn
          grant_type device_code keyed).1
        h

  approve-IsKeyed :
      (st : DeviceCodeStorage) (now : ℕ) (user_code user_id : String)
      → IsKeyed st
      → IsKeyed (approve services.hash_device_code services.upper st now user_code user_id).0
  unfolding approve approve_device update
  approve-IsKeyed st now user_code user_id keyed h found e =
      elim (Option-cases (get_by_user_code services.hash_device_code services.upper st user_code)) [
        | inl missing ↦ ground (arith, keyed h found)
        | inr (device, here) ↦ ground (
          arith,
          keyed h found,
          keyed_put st (record device { status = expired }) keyed h found,
          keyed_put st (record device { status = approved; user_id = some user_id }) keyed h found,
        )
      ]

  deny-IsKeyed :
      (st : DeviceCodeStorage) (user_code : String)
      → IsKeyed st
      → IsKeyed (deny services.hash_device_code services.upper st user_code).0
  unfolding deny deny_device update
  deny-IsKeyed st user_code keyed h found e =
      elim (Option-cases (get_by_user_code services.hash_device_code services.upper st user_code)) [
        | inl missing ↦ ground (arith, keyed h found)
        | inr (device, here) ↦
            ground
              (arith, keyed h found, keyed_put st (record device { status = denied }) keyed h found)
      ]

  create-IsKeyed :
      (st : DeviceCodeStorage) (drawn : List String) (device_code : String) (now : ℕ)
      (request : DeviceRequest)
      → IsKeyed st
      → IsKeyed (
          state_of st
            (create services.hash_device_code services.upper st drawn device_code now request))
  unfolding create build store new_device_code
  create-IsKeyed st drawn device_code now request keyed h found e =
      elim (Option-cases (first_free st.user_code_index (take 10 drawn))) [
        | inl taken ↦ ground (arith, keyed h found)
        | inr (user_code, free) ↦ ground (
          arith,
          keyed_put st
              (new_device_code (services.hash_device_code device_code) user_code now request) keyed
              h found,
        )
      ]

  step-IsKeyed : (st : DeviceCodeStorage) (c : Call) → IsKeyed st → IsKeyed (step st c)
  unfolding step consume
  step-IsKeyed st (creates drawn device_code now request) keyed =
      create-IsKeyed st drawn device_code now request keyed
  step-IsKeyed st (approves now user_code user_id) keyed =
      approve-IsKeyed st now user_code user_id keyed
  step-IsKeyed st (denies user_code) keyed = deny-IsKeyed st user_code keyed
  step-IsKeyed st (consumes device_code) keyed = λ h found e.
      ground (
        arith,
        keyed h found,
        keyed_remove st (services.hash_device_code device_code) keyed h found,
      )
  step-IsKeyed st (polls users refresh now drawn grant_type device_code) keyed =
      (poll-MovesOn services (record { codes = st; users = users; refresh = refresh }) now drawn
        grant_type device_code keyed).0

  unfoldable pub run : DeviceCodeStorage → List Call → DeviceCodeStorage
  unfolding step
  run st [] = st
  run st (c ∷ calls) = run (step st c) calls

  run_from-IsKeyed :
      (st : DeviceCodeStorage) (calls : List Call) → IsKeyed st → IsKeyed (run st calls)
  unfolding run
  run_from-IsKeyed st [] keyed = keyed
  run_from-IsKeyed st (c ∷ calls) keyed =
      run_from-IsKeyed (step st c) calls (step-IsKeyed st c keyed)

  run_from-moves :
      (st : DeviceCodeStorage) (calls : List Call) (h : String)
      → IsKeyed st
      → All (Spares h) calls
      → moves (status_of st h) (status_of (run st calls) h) ≡ true
  unfolding run
  run_from-moves st [] h keyed spared = moves_refl (status_of st h)
  run_from-moves st (c ∷ calls) h keyed spared =
      moves_trans (status_of st h) (status_of (step st c) h) _ (step-moves st c h keyed spared.0)
        (run_from-moves (step st c) calls h (step-IsKeyed st c keyed) spared.1)

  init-IsKeyed : IsKeyed init
  unfolding init Dict.get
  init-IsKeyed h found e = ground arith

  -- From an empty storage, after any calls `before` and then any calls `after` that do not create the
  -- session again, polls of the endpoint among them: between the two points a session's status is
  -- the same, or it was pending before, or the session has expired or is gone. So an approved
  -- session is never denied or pending later, nor a denied one approved or pending; one that has
  -- expired stays so or goes, and one that is gone does not come back.
  pub run-moves :
      (before after : List Call) (h : String)
      → All (Spares h) after
      → moves (status_of (run init before) h) (status_of (run (run init before) after) h) ≡ true
  run-moves before after h spared =
      run_from-moves (run init before) after h (run_from-IsKeyed init before init-IsKeyed) spared
