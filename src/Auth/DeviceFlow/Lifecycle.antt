-- ===== src/Auth/DeviceFlow/Lifecycle.antt =====
-- The life of a session: it is decided once, may expire, and is consumed once.
use pulsar_relay.Prelude.{
  ℕ, String, eq_iff, ◌≡◌, refl, inl, inr, Bool, true, false, Option, none, some, arith,
  Option-cases, nat_eq, string_eq, pair_eq,
}
use pulsar_relay.Dict
use pulsar_relay.Dict.{contains}
use pulsar_relay.Dict.Laws.{get-put, get-remove}
use pulsar_relay.Auth.DeviceFlow.{
  Status, pending, approved, denied, expired, DeviceCode, DeviceCodeStorage, get_by_user_code,
  update, approve_device, approve, deny_device, deny, consume,
}

-- Every session is stored under its own hash.
abbrev pub IsKeyed : DeviceCodeStorage → Type 0
IsKeyed st =
    (h : String) (device : DeviceCode)
    → Dict.get st.records h ≡ some device
    → device.device_code_hash ≡ h

abbrev pub status_of : DeviceCodeStorage → String → Option Status
status_of st h = elim (Dict.get st.records h) [ none ↦ none | some device ↦ some device.status ]

-- What the stored sessions are after a session is put under its own hash.
pub keyed_put :
    (st : DeviceCodeStorage) (device : DeviceCode)
    → IsKeyed st
    → (h : String) (found : DeviceCode)
    → Dict.get (Dict.put st.records device.device_code_hash device) h ≡ some found
    → found.device_code_hash ≡ h
keyed_put st device keyed h found e = ground (
  arith,
  get-put st.records device.device_code_hash h device,
  eq_iff device.device_code_hash h,
  keyed h found,
)

pub keyed_remove :
    (st : DeviceCodeStorage) (k : String)
    → IsKeyed st
    → (h : String) (found : DeviceCode) → Dict.get (Dict.remove st.records k) h ≡ some found
    → found.device_code_hash ≡ h
keyed_remove st k keyed h found e =
    ground (arith, get-remove st.records k h, eq_iff k h, keyed h found)

-- A status moves only from pending, or expires, or goes away.
abbrev pub moves : Option Status → Option Status → Bool
moves none none = true
moves none (some _) = false
moves (some s) none = true
moves (some pending) (some _) = true
moves (some approved) (some approved) = true
moves (some denied) (some denied) = true
moves (some _) (some expired) = true
moves (some _) (some _) = false

pub moves_refl : (s : Option Status) → moves s s ≡ true
moves_refl none = refl
moves_refl (some pending) = refl
moves_refl (some approved) = refl
moves_refl (some denied) = refl
moves_refl (some expired) = refl

pub moves_trans : (a b c : Option Status) → moves a b ≡ true → moves b c ≡ true → moves a c ≡ true
moves_trans a b c h h' = ground arith

module _ (hash_device_code : String → String) (upper : String → String) where
  -- A pending session that is replaced by one of its hash.
  moves-update :
      (st : DeviceCodeStorage) (device device' : DeviceCode) (h : String)
      → Dict.get st.records device.device_code_hash ≡ some device
      → device.status ≡ pending
      → device'.device_code_hash ≡ device.device_code_hash
      → moves (status_of st h) (status_of (update hash_device_code upper st device') h) ≡ true
  unfolding update
  moves-update st device device' h found waiting same = ground (
    arith,
    get-put st.records device'.device_code_hash h device',
    eq_iff device'.device_code_hash h,
    moves_refl (status_of st h),
  )

  pub found_at_hash :
      (st : DeviceCodeStorage) (user_code : String) (device : DeviceCode)
      → IsKeyed st
      → get_by_user_code hash_device_code upper st user_code ≡ some device
      → Dict.get st.records device.device_code_hash ≡ some device
  unfolding get_by_user_code
  found_at_hash st user_code device keyed e =
      elim (Option-cases (Dict.get st.user_code_index (upper user_code))) [
        | inl missing ↦ ground arith
        | inr (h, indexed) ↦ ground (arith, keyed h device)
      ]

  approve_device-moves :
      (st : DeviceCodeStorage) (now : ℕ) (device : DeviceCode) (user_id h : String)
      → Dict.get st.records device.device_code_hash ≡ some device
      → moves
          (status_of st h)
          (status_of (approve_device hash_device_code upper st now device user_id).0 h)
        ≡ true
  unfolding approve_device
  approve_device-moves st now device user_id h found = ground (
    arith,
    moves_refl (status_of st h),
    moves-update st device (record device { status = expired }) h found,
    moves-update st device (record device { status = approved; user_id = some user_id }) h found,
  )

  pub approve-moves :
      (st : DeviceCodeStorage) (now : ℕ) (user_code user_id h : String)
      → IsKeyed st
      → moves
          (status_of st h)
          (status_of (approve hash_device_code upper st now user_code user_id).0 h)
        ≡ true
  unfolding approve
  approve-moves st now user_code user_id h keyed =
      elim (Option-cases (get_by_user_code hash_device_code upper st user_code)) [
        | inl missing ↦ rw (missing, approve) (moves_refl (status_of st h))
        | inr (device, found) ↦
            rw (found, approve)
              (approve_device-moves st now device user_id h
                (found_at_hash st user_code device keyed found))
      ]

  pub deny-moves :
      (st : DeviceCodeStorage) (user_code h : String)
      → IsKeyed st
      → moves (status_of st h) (status_of (deny hash_device_code upper st user_code).0 h) ≡ true
  unfolding deny deny_device
  deny-moves st user_code h keyed =
      elim (Option-cases (get_by_user_code hash_device_code upper st user_code)) [
        | inl missing ↦ rw (missing, deny) (moves_refl (status_of st h))
        | inr (device, found) ↦ ground (
          arith,
          moves_refl (status_of st h),
          moves-update st device (record device { status = denied }) h
              (found_at_hash st user_code device keyed found),
        )
      ]

  pub consume-moves :
      (st : DeviceCodeStorage) (device_code h : String)
      → moves (status_of st h) (status_of (consume hash_device_code upper st device_code).0 h)
        ≡ true
  unfolding consume
  consume-moves st device_code h = ground (
    arith,
    moves_refl (status_of st h),
    get-remove st.records (hash_device_code device_code) h,
    eq_iff (hash_device_code device_code) h,
  )
