-- ===== src/Auth/OidcState.antt =====
-- pulsar_relay/auth/oidc_state.py: `InMemoryOIDCStateStorage`, with its record of
-- pulsar_relay/auth/models.py.
pub mod SingleUse
mod Tests
use pulsar_relay.Prelude.{
  take-append-drop, drop-nil, last, last-last-append, length-last-le, drop-drop, drop-append,
  is_none, ℕ, zero, suc, ◌+◌, ◌-◌, ◌*◌, ◌/◌, ◌%◌, ◌≤◌, ◌<◌, min, max, String, eq_iff, ◌≡◌, refl,
  sym, ap, ◌∙◌, ◌≢◌, ◌↔◌, ◌⊎◌, inl, inr, Bool, true, false, not, ◌&&◌, ◌||◌, Option, none, some,
  List, [], ◌∷◌, ◌++◌, map, arith, ltb, leb, nat_beq, if◌then◌else◌, nat_beq_iff, Bool-cases,
  Option-cases, length, take, drop, length-append, length-drop, length-take-le, filter_by, Eq, ◌==◌,
  beq_self, nat_eq, string_eq, pair_beq, pair_beq_iff, pair_eq, texts_beq, texts_iff, All,
}
use pulsar_relay.Dict
use pulsar_relay.Dict.{contains}

pub record OidcStateRecord : Type 0 where
  pub state : String
  pub provider_name : String
  pub code_verifier : String
  pub nonce : String
  pub redirect_uri : String
  pub next_url : Option String
  pub device_user_code : Option String
  pub issued_at : ℕ
  pub expires_at : ℕ

abbrev pub OidcStates : Type 0
OidcStates = List (String × OidcStateRecord)

-- The state, the verifier and the nonce are random.
pub record Drawn : Type 0 where
  pub state : String
  pub code_verifier : String
  pub nonce : String

-- The arguments of `create`.
pub record LoginRequest : Type 0 where
  pub provider_name : String
  pub redirect_uri : String
  pub ttl : ℕ
  pub next_url : Option String
  pub device_user_code : Option String

unfoldable pub new_record : Drawn → ℕ → LoginRequest → OidcStateRecord
new_record drawn now request = record {
  state = drawn.state;
  provider_name = request.provider_name;
  code_verifier = drawn.code_verifier;
  nonce = drawn.nonce;
  redirect_uri = request.redirect_uri;
  next_url = request.next_url;
  device_user_code = request.device_user_code;
  issued_at = now;
  expires_at = now + request.ttl;
}

unfoldable pub create : OidcStates → Drawn → ℕ → LoginRequest → OidcStates × OidcStateRecord
unfolding new_record
create records drawn now request =
    (Dict.put records drawn.state (new_record drawn now request), new_record drawn now request)

-- The record is gone also where it has expired.
unfoldable pub consume : OidcStates → ℕ → String → OidcStates × Option OidcStateRecord
consume records now state = elim (Dict.get records state) [
  | none ↦ (records, none)
  | some found ↦
      if leb found.expires_at now
      then (Dict.remove records state, none)
      else (Dict.remove records state, some found)
]
