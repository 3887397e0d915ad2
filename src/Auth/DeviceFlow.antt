-- ===== src/Auth/DeviceFlow.antt =====
-- pulsar_relay/auth/device_flow.py: `InMemoryDeviceCodeStorage`, with the record of
-- pulsar_relay/auth/models.py.
pub mod Lifecycle
use pulsar_relay.Prelude.{
  take-append-drop, drop-nil, last, last-last-append, length-last-le, drop-drop, drop-append,
  is_none, ℕ, zero, suc, ◌+◌, ◌-◌, ◌*◌, ◌/◌, ◌%◌, ◌≤◌, ◌<◌, min, max, String, eq_iff, ◌≡◌, refl,
  sym, ap, ◌∙◌, ◌≢◌, ◌↔◌, ◌⊎◌, inl, inr, Bool, true, false, not, ◌&&◌, ◌||◌, Option, none, some,
  List, [], ◌∷◌, ◌++◌, map, arith, ltb, leb, nat_beq, if◌then◌else◌, nat_beq_iff, Bool-cases,
  Option-cases, length, take, drop, length-append, length-drop, length-take-le, filter_by, Eq, ◌==◌,
  beq_self, nat_eq, string_eq, pair_beq, pair_beq_iff, pair_eq, texts_beq, texts_iff, All,
}
use pulsar_relay.Dict
use pulsar_relay.Dict.{contains}

pub data Status : Type 0 where
  pending approved denied expired : Status

pub record DeviceCode : Type 0 where
  pub device_code_hash : String
  pub user_code : String
  pub verification_uri : String
  pub verification_uri_complete : String
  pub issued_at : ℕ
  pub expires_at : ℕ
  pub interval : ℕ
  pub last_polled_at : Option ℕ
  pub status : Status
  pub user_id : Option String
  pub client_hint : Option String
  pub pair : Bool

pub record DeviceCodeStorage : Type 0 where
  -- device_code_hash -> DeviceCode
  pub records : List (String × DeviceCode)
  pub user_code_index : List (String × String)

unfoldable pub init : DeviceCodeStorage
init = record { records = []; user_code_index = [] }

-- The arguments of `create`; `complete` fills the user code into the URI's template.
pub record DeviceRequest : Type 0 where
  pub verification_uri : String
  pub complete : String → String
  pub ttl : ℕ
  pub interval : ℕ
  pub client_hint : Option String
  pub pair : Bool

-- The first drawn user code that no session has.
unfoldable pub first_free : List (String × String) → List String → Option String
first_free index [] = none
first_free index (user_code ∷ drawn) =
    let rest = first_free index drawn in if contains index user_code then rest else some user_code

unfoldable pub new_device_code : String → String → ℕ → DeviceRequest → DeviceCode
new_device_code device_code_hash user_code now request = record {
  device_code_hash = device_code_hash;
  user_code = user_code;
  verification_uri = request.verification_uri;
  verification_uri_complete = request.complete user_code;
  issued_at = now;
  expires_at = now + request.ttl;
  interval = request.interval;
  last_polled_at = none;
  status = pending;
  user_id = none;
  client_hint = request.client_hint;
  pair = request.pair;
}

-- Up to ten user codes are drawn; `none` is the RuntimeError.
unfoldable pub build :
    DeviceCodeStorage → List String → String → ℕ → DeviceRequest → Option DeviceCode
unfolding first_free new_device_code
build st drawn device_code_hash now request = elim (first_free st.user_code_index (take 10 drawn)) [
  | none ↦ none
  | some user_code ↦ some (new_device_code device_code_hash user_code now request)
]

unfoldable pub store : DeviceCodeStorage → DeviceCode → DeviceCodeStorage
store st device = record {
  records = Dict.put st.records device.device_code_hash device;
  user_code_index = Dict.put st.user_code_index device.user_code device.device_code_hash;
}

-- The hash is sha256, and the capitals of a text are Python's `upper`: parameters.
module _ (hash_device_code : String → String) (upper : String → String) where
  unfoldable pub create :
      DeviceCodeStorage
      → List String
      → String
      → ℕ
      → DeviceRequest
      → Option (DeviceCodeStorage × DeviceCode × String)
  unfolding build store
  create st drawn device_code now request =
      elim (build st drawn (hash_device_code device_code) now request) [
        | none ↦ none
        | some device ↦ some (store st device, device, device_code)
      ]

  unfoldable pub get_by_device_code : DeviceCodeStorage → String → Option DeviceCode
  get_by_device_code st device_code = Dict.get st.records (hash_device_code device_code)

  unfoldable pub get_by_user_code : DeviceCodeStorage → String → Option DeviceCode
  get_by_user_code st user_code = elim (Dict.get st.user_code_index (upper user_code)) [
    | none ↦ none
    | some h ↦ Dict.get st.records h
  ]

  unfoldable pub update : DeviceCodeStorage → DeviceCode → DeviceCodeStorage
  update st device = record st { records = Dict.put st.records device.device_code_hash device }

  -- The step of `approve` on a session that is there.
  unfoldable pub approve_device :
      DeviceCodeStorage → ℕ → DeviceCode → String → DeviceCodeStorage × Option DeviceCode
  unfolding update
  approve_device st now device user_id = elim device.status [
    | pending ↦
        let approved_device : DeviceCode = record device {
          status = approved;
          user_id = some user_id;
        } in
        if leb device.expires_at now
        then (update st (record device { status = expired }), none)
        else (update st approved_device, some approved_device)
    | _ ↦ (st, none)
  ]

  unfoldable pub approve :
      DeviceCodeStorage → ℕ → String → String → DeviceCodeStorage × Option DeviceCode
  unfolding get_by_user_code approve_device
  approve st now user_code user_id = elim (get_by_user_code st user_code) [
    | none ↦ (st, none)
    | some device ↦ approve_device st now device user_id
  ]

  unfoldable pub deny_device :
      DeviceCodeStorage → DeviceCode → DeviceCodeStorage × Option DeviceCode
  unfolding update
  deny_device st device = elim device.status [
    | pending ↦
        let denied_device : DeviceCode = record device { status = denied } in
        (update st denied_device, some denied_device)
    | _ ↦ (st, none)
  ]

  unfoldable pub deny : DeviceCodeStorage → String → DeviceCodeStorage × Option DeviceCode
  unfolding get_by_user_code deny_device
  deny st user_code = elim (get_by_user_code st user_code) [
    | none ↦ (st, none)
    | some device ↦ deny_device st device
  ]

  unfoldable pub consume : DeviceCodeStorage → String → DeviceCodeStorage × Option DeviceCode
  consume st device_code = elim (Dict.get st.records (hash_device_code device_code)) [
    | none ↦ (st, none)
    | some device ↦ (
      record {
        records = Dict.remove st.records (hash_device_code device_code);
        user_code_index = Dict.remove st.user_code_index device.user_code;
      },
      some device,
    )
  ]
