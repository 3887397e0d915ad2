-- ===== src/Api/Device/Polls.antt =====
-- What a poll of the device endpoint does to the sessions.
use mathlib.Core.Path.{subst}
use pulsar_relay.Prelude.{
  ℕ, String, eq_iff, ◌≡◌, refl, sym, inl, inr, true, some, arith, leb, Bool-cases, Option-cases,
  ◌==◌, nat_eq, string_eq, pair_eq,
}
use pulsar_relay.Dict
use pulsar_relay.Dict.Laws.{get-put}
use pulsar_relay.Auth.Users.{User}
use pulsar_relay.Auth.DeviceFlow.{
  Status, pending, approved, denied, expired, DeviceCode, DeviceCodeStorage, update, consume,
  get_by_device_code,
}
use pulsar_relay.Auth.DeviceFlow.Lifecycle.{
  IsKeyed, status_of, moves, moves_refl, keyed_put, keyed_remove, consume-moves,
}
use pulsar_relay.Api.Device.{
  DeviceRelay, Drawn, Services, grant, too_early, get_device, update_device, consume_device, issue,
  user_of, exchange, poll_live, mark_expired, poll_session, poll_device_token,
}

-- Every session is still under its own hash, and its status has stayed or moved on.
abbrev pub MovesOn : DeviceCodeStorage → DeviceCodeStorage → Type 0
MovesOn st st' = IsKeyed st' × ((h : String) → moves (status_of st h) (status_of st' h) ≡ true)

stays-MovesOn : (st : DeviceCodeStorage) → IsKeyed st → MovesOn st st
stays-MovesOn st keyed = (keyed, λ h. moves_refl (status_of st h))

module _ (services : Services) (r : DeviceRelay) (keyed : IsKeyed r.codes) where
  update-MovesOn :
      (device device' : DeviceCode)
      → Dict.get r.codes.records device.device_code_hash ≡ some device
      → device'.device_code_hash ≡ device.device_code_hash
      → moves (some device.status) (some device'.status) ≡ true
      → MovesOn r.codes (update_device services r device').codes
  unfolding update_device update
  update-MovesOn device device' found same step = (
    λ h other e. keyed_put r.codes device' keyed h other e,
    λ h. ground (
      arith,
      get-put r.codes.records device'.device_code_hash h device',
      eq_iff device'.device_code_hash h,
      moves_refl (status_of r.codes h),
    ),
  )

  consume-MovesOn :
      (device_code : String) → MovesOn r.codes (consume_device services r device_code).codes
  unfolding consume_device consume
  consume-MovesOn device_code = (
    λ h other e. ground (
      arith,
      keyed h other,
      keyed_remove r.codes (services.hash_device_code device_code) keyed h other,
    ),
    λ h. consume-moves services.hash_device_code services.upper r.codes device_code h,
  )

issue-codes :
    (services : Services) (r : DeviceRelay) (now : ℕ) (drawn : Drawn) (device : DeviceCode)
    (user : User)
    → (issue services r now drawn device user).0.codes ≡ r.codes
unfolding issue
issue-codes services r now drawn device user = elim (Bool-cases device.pair) [
  | inl pair ↦ rw pair refl
  | inr single ↦ rw single refl
]

expires : (s : Status) → moves (some s) (some expired) ≡ true
expires pending = refl
expires approved = refl
expires denied = refl
expires expired = refl

module _ (services : Services) (r : DeviceRelay) (keyed : IsKeyed r.codes) (now : ℕ) (drawn : Drawn)
    (device_code : String) (device : DeviceCode)
    (found : Dict.get r.codes.records device.device_code_hash ≡ some device) where
  exchange-MovesOn :
      (polled : DeviceCode)
      → polled.device_code_hash ≡ device.device_code_hash
      → moves (some device.status) (some polled.status) ≡ true
      → MovesOn r.codes (exchange services r now drawn device_code polled).0.codes
  unfolding exchange
  exchange-MovesOn polled same step =
      elim (Option-cases (user_of services r.users polled.user_id)) [
        | inl missing ↦
            rw (missing, exchange) (update-MovesOn services r keyed device polled found same step)
        | inr (user, known) ↦
            let gone = consume_device services r device_code in
            rw (known, exchange, issue-codes services gone now drawn polled user)
              (consume-MovesOn services r keyed device_code)
      ]

  live-MovesOn :
      (status : Status)
      → device.status ≡ status
      → MovesOn r.codes (poll_live services r now drawn device_code device).0.codes
  unfolding poll_live
  live-MovesOn denied is = rw is (consume-MovesOn services r keyed device_code)
  live-MovesOn expired is = rw is (stays-MovesOn r.codes keyed)
  live-MovesOn pending is = elim (Bool-cases (too_early now device)) [
    | inl early ↦ rw (is, early) (stays-MovesOn r.codes keyed)
    | inr due ↦ rw (is, due) (update-MovesOn services r keyed device _ found refl (rw is refl))
  ]
  live-MovesOn approved is = elim (Bool-cases (too_early now device)) [
    | inl early ↦ rw (is, early) (stays-MovesOn r.codes keyed)
    | inr due ↦
        rw (is, due)
          (exchange-MovesOn (record device { last_polled_at = some now; status = approved }) refl
            (rw is refl))
  ]

  mark_expired-MovesOn :
      (status : Status)
      → device.status ≡ status
      → MovesOn r.codes (mark_expired services r device).codes
  unfolding mark_expired
  mark_expired-MovesOn expired is = rw is (stays-MovesOn r.codes keyed)
  mark_expired-MovesOn pending is = rw is (
      update-MovesOn services r keyed device (record device { status = expired }) found refl
        (expires device.status))
  mark_expired-MovesOn approved is = rw is (
      update-MovesOn services r keyed device (record device { status = expired }) found refl
        (expires device.status))
  mark_expired-MovesOn denied is = rw is (
      update-MovesOn services r keyed device (record device { status = expired }) found refl
        (expires device.status))

  session-MovesOn : MovesOn r.codes (poll_session services r now drawn device_code device).0.codes
  unfolding poll_session
  session-MovesOn = elim (Bool-cases (leb device.expires_at now)) [
    | inl over ↦ rw over (mark_expired-MovesOn device.status refl)
    | inr live ↦ rw live (live-MovesOn device.status refl)
  ]

pub poll-MovesOn :
    (services : Services) (r : DeviceRelay) (now : ℕ) (drawn : Drawn)
    (grant_type device_code : String)
    → IsKeyed r.codes
    → MovesOn r.codes (poll_device_token services r now drawn grant_type device_code).0.codes
unfolding poll_device_token get_device get_by_device_code
poll-MovesOn services r now drawn grant_type device_code keyed =
    elim (Bool-cases (grant_type == grant)) [
      | inr other ↦ rw other (stays-MovesOn r.codes keyed)
      | inl right ↦
          elim (Option-cases (Dict.get r.codes.records (services.hash_device_code device_code))) [
            | inl unknown ↦ rw (right, unknown) (stays-MovesOn r.codes keyed)
            | inr (device, found) ↦
                rw (right, found)
                  (session-MovesOn services r keyed now drawn device_code device (
                    subst (λ h. Dict.get r.codes.records h ≡ some device)
                      (sym (keyed (services.hash_device_code device_code) device found)) found))
          ]
    ]
