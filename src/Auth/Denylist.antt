-- ===== src/Auth/Denylist.antt =====
-- pulsar_relay/auth/denylist.py: the in-memory deny-list of access tokens.
pub mod Revocation
mod Tests
use pulsar_relay.Prelude.{
  ℕ, ◌+◌, ◌-◌, ◌/◌, Bool, true, false, Option, none, some, List, [], ◌∷◌, String, if◌then◌else◌,
  ltb, string_eq,
}
use pulsar_relay.Dict
use pulsar_relay.Clock.{second, seconds}

-- jti -> expiry timestamp
abbrev pub Denylist : Type 0
Denylist = List (String × ℕ)

-- A negative `ttl_seconds` counts as 0.
unfoldable pub add : ℕ → Denylist → String → ℕ → Denylist
add now revoked jti ttl_seconds = Dict.put revoked jti (now + seconds ttl_seconds)

-- The check drops an entry that has expired.
unfoldable pub is_revoked : ℕ → Denylist → String → Denylist × Bool
is_revoked now revoked jti = elim (Dict.get revoked jti) [
  | none ↦ (revoked, false)
  | some expiry ↦ if ltb expiry now then (Dict.remove revoked jti, false) else (revoked, true)
]

-- `int` truncates the fraction of a second, and `max` puts 0 for a time that has passed.
unfoldable pub seconds_until_exp : ℕ → ℕ → ℕ
seconds_until_exp now exp_timestamp = (seconds exp_timestamp - now) / second
