-- ===== src/Api/Device/Exchange.antt =====
-- When a daemon gets its tokens.
use pulsar_relay.Prelude.{
  is_none, ℕ, String, eq_iff, ◌≡◌, refl, inl, inr, Bool, true, false, not, ◌&&◌, none, some, arith,
  leb, Bool-cases, Option-cases, ◌==◌, nat_eq, string_eq, pair_eq,
}
use pulsar_relay.Dict.Laws.{get-remove}
use pulsar_relay.Auth.DeviceFlow.{get_by_device_code, consume}
use pulsar_relay.Api.Device.{get_device, consume_device, grant, poll_device_token}
use pulsar_relay.Auth.Users.{User}
use pulsar_relay.Auth.DeviceFlow.{Status, approved, DeviceCode}
use pulsar_relay.Api.Device.{
  PollReply, failed, granted, DeviceRelay, Drawn, Services, too_early, user_of, consume_device,
  issue, exchange, poll_live, poll_session,
}

abbrev pub is_granted : PollReply → Bool
is_granted (failed e) = false
is_granted (granted access_token refresh_token secondary) = true

abbrev pub is_approved : Status → Bool
is_approved approved = true
is_approved _ = false

module _ (services : Services) where
  -- The session is approved by a stored user, is not expired and is not polled too early.
  abbrev pub is_due : DeviceRelay → ℕ → DeviceCode → Bool
  is_due r now device =
      not (leb device.expires_at now)
      && is_approved device.status
      && not (too_early now device)
      && not (is_none (user_of services r.users device.user_id))

  granted-issue :
      (r : DeviceRelay) (now : ℕ) (drawn : Drawn) (device : DeviceCode) (user : User)
      → is_granted (issue services r now drawn device user).1 ≡ true
  unfolding issue
  granted-issue r now drawn device user = ground arith

  granted-exchange :
      (r : DeviceRelay) (now : ℕ) (drawn : Drawn) (device_code : String) (device : DeviceCode)
      → is_granted (exchange services r now drawn device_code device).1
        ≡ not (is_none (user_of services r.users device.user_id))
  unfolding exchange
  granted-exchange r now drawn device_code device =
      elim (Option-cases (user_of services r.users device.user_id)) [
        | inl missing ↦ rw (missing, exchange) refl
        | inr (user, found) ↦
            rw (found, exchange)
              (granted-issue (consume_device services r device_code) now drawn device user)
      ]

  granted-poll_session :
      (r : DeviceRelay) (now : ℕ) (drawn : Drawn) (device_code : String) (device : DeviceCode)
      → is_granted (poll_session services r now drawn device_code device).1 ≡ is_due r now device
  unfolding poll_session poll_live
  granted-poll_session r now drawn device_code device = ground (
    arith,
    granted-exchange r now drawn device_code (record device { last_polled_at = some now }),
  )

  -- A poll is answered with tokens exactly if its grant type is the one of the device flow and its
  -- code belongs to a session that a stored user has approved, that has not expired, and that was not
  -- polled within its interval.
  pub granted_exact :
      (r : DeviceRelay) (now : ℕ) (drawn : Drawn) (grant_type device_code : String)
      → is_granted (poll_device_token services r now drawn grant_type device_code).1 ≡ (
          grant_type == grant && elim (get_device services r device_code) [
            | none ↦ false
            | some device ↦ is_due r now device
          ])
  unfolding poll_device_token
  granted_exact r now drawn grant_type device_code = elim (Bool-cases (grant_type == grant)) [
    | inl flow ↦ elim (Option-cases (get_device services r device_code)) [
      | inl missing ↦ rw (flow, missing, poll_device_token) refl
      | inr (device, found) ↦
          rw (flow, found, poll_device_token) (granted-poll_session r now drawn device_code device)
    ]
    | inr other ↦ rw other refl
  ]

  codes-issue :
      (r : DeviceRelay) (now : ℕ) (drawn : Drawn) (device : DeviceCode) (user : User)
      → (issue services r now drawn device user).0.codes ≡ r.codes
  unfolding issue
  codes-issue r now drawn device user = ground arith

  gone-consume_device :
      (r : DeviceRelay) (device_code : String)
      → get_device services (consume_device services r device_code) device_code ≡ none
  unfolding get_device get_by_device_code consume_device consume
  gone-consume_device r device_code = ground (
    arith,
    get-remove r.codes.records (services.hash_device_code device_code)
        (services.hash_device_code device_code),
    eq_iff (services.hash_device_code device_code) (services.hash_device_code device_code),
  )

  gone_of_codes :
      (r r' : DeviceRelay) (device_code : String)
      → r'.codes ≡ r.codes
      → get_device services r device_code ≡ none
      → get_device services r' device_code ≡ none
  unfolding get_device
  gone_of_codes r r' device_code same gone = rw same gone

  gone-exchange :
      (r : DeviceRelay) (now : ℕ) (drawn : Drawn) (device_code : String) (device : DeviceCode)
      → is_granted (exchange services r now drawn device_code device).1 ≡ true
      → get_device services (exchange services r now drawn device_code device).0 device_code ≡ none
  unfolding exchange
  gone-exchange r now drawn device_code device h =
      elim (Option-cases (user_of services r.users device.user_id)) [
        | inl missing ↦ ground arith
        | inr (user, found) ↦
            rw (found, exchange)
              (gone_of_codes (consume_device services r device_code) _ device_code
                (codes-issue (consume_device services r device_code) now drawn device user)
                (gone-consume_device r device_code))
      ]

  gone-poll_session :
      (r : DeviceRelay) (now : ℕ) (drawn : Drawn) (device_code : String) (device : DeviceCode)
      → is_granted (poll_session services r now drawn device_code device).1 ≡ true
      → get_device services (poll_session services r now drawn device_code device).0 device_code
        ≡ none
  unfolding poll_session poll_live
  gone-poll_session r now drawn device_code device h =
      ground
        (arith, gone-exchange r now drawn device_code (record device { last_polled_at = some now }))

  gone-poll :
      (r : DeviceRelay) (now : ℕ) (drawn : Drawn) (grant_type device_code : String)
      → is_granted (poll_device_token services r now drawn grant_type device_code).1 ≡ true
      → get_device services
          (poll_device_token services r now drawn grant_type device_code).0
          device_code
        ≡ none
  unfolding poll_device_token
  gone-poll r now drawn grant_type device_code h =
      elim (Option-cases (get_device services r device_code)) [
        | inl missing ↦ ground arith
        | inr (device, found) ↦ ground (arith, gone-poll_session r now drawn device_code device)
      ]

  -- A device code is exchanged at most once: after a poll that is answered with tokens, the next poll
  -- with the same code, at any time, is not.
  pub exchanged_once :
      (r : DeviceRelay) (now : ℕ) (drawn : Drawn) (grant_type device_code : String) (now' : ℕ)
      (drawn' : Drawn) (grant_type' : String)
      → is_granted (poll_device_token services r now drawn grant_type device_code).1 ≡ true
      → is_granted
          (poll_device_token services
            (poll_device_token services r now drawn grant_type device_code).0
            now'
            drawn'
            grant_type'
            device_code).1
        ≡ false
  exchanged_once r now drawn grant_type device_code now' drawn' grant_type' h = ground (
    arith,
    gone-poll r now drawn grant_type device_code h,
    granted_exact (poll_device_token services r now drawn grant_type device_code).0 now' drawn'
        grant_type' device_code,
  )
