-- ===== src/Auth/Denylist/Revocation.antt =====
-- How long a revocation holds.
use pulsar_relay.Prelude.{
  ℕ, ◌+◌, ◌≤◌, ◌<◌, ◌≡◌, ◌≢◌, true, false, some, List, [], ◌∷◌, String, arith, leb, eq_iff,
  string_eq,
}
use pulsar_relay.Dict
use pulsar_relay.Dict.Laws.{get-put, get-remove}
use pulsar_relay.Clock.{second, seconds}
use pulsar_relay.Auth.Denylist.{Denylist, add, is_revoked, seconds_until_exp}

-- What a run of the relay does with the list, each with the time at which it does it.
pub data Call : Type 0 where
  adds : ℕ → String → ℕ → Call
  checks : ℕ → String → Call

pub step : Denylist → Call → Denylist
step revoked (adds now jti ttl) = add now revoked jti ttl
step revoked (checks now jti) = (is_revoked now revoked jti).0

pub run : Denylist → List Call → Denylist
unfolding step
run revoked [] = revoked
run revoked (c ∷ calls) = run (step revoked c) calls

-- A call that is made by `limit`, and that does not revoke `jti` itself.
abbrev pub Spares : String → ℕ → Call → Type 0
Spares jti limit (adds now other ttl) = (other ≢ jti) × (now ≤ limit)
Spares jti limit (checks now other) = now ≤ limit

abbrev pub AllSpare : String → ℕ → List Call → Type 0
AllSpare jti limit [] = Unit
AllSpare jti limit (c ∷ calls) = Spares jti limit c × AllSpare jti limit calls

step-get :
    (revoked : Denylist) (jti : String) (limit : ℕ) (c : Call)
    → Spares jti limit c
    → Dict.get revoked jti ≡ some limit
    → Dict.get (step revoked c) jti ≡ some limit
unfolding step add is_revoked
step-get revoked jti limit (adds now other ttl) h e =
    ground (arith, get-put revoked other jti (now + seconds ttl), eq_iff other jti)
step-get revoked jti limit (checks now other) h e =
    ground (arith, get-remove revoked other jti, eq_iff other jti)

run-get :
    (revoked : Denylist) (jti : String) (limit : ℕ) (calls : List Call)
    → AllSpare jti limit calls
    → Dict.get revoked jti ≡ some limit
    → Dict.get (run revoked calls) jti ≡ some limit
unfolding run
run-get revoked jti limit [] h e = e
run-get revoked jti limit (c ∷ calls) h e =
    run-get (step revoked c) jti limit calls h.1 (step-get revoked jti limit c h.0 e)

get-add_self :
    (now : ℕ) (revoked : Denylist) (jti : String) (ttl : ℕ)
    → Dict.get (add now revoked jti ttl) jti ≡ some (now + seconds ttl)
unfolding add
get-add_self now revoked jti ttl =
    ground (arith, get-put revoked jti jti (now + seconds ttl), eq_iff jti jti)

is_revoked_of_get :
    (t : ℕ) (revoked : Denylist) (jti : String) (limit : ℕ)
    → Dict.get revoked jti ≡ some limit
    → (is_revoked t revoked jti).1 ≡ leb t limit
unfolding is_revoked
is_revoked_of_get t revoked jti limit e = ground arith

-- A token that is revoked at time `now` for `ttl` seconds is reported as revoked at a time `t`
-- exactly if `t` is at most `now` plus `ttl` seconds, whatever other tokens are added and whatever
-- tokens are checked in between, as long as those calls come within that window and do not add the
-- same token again.
pub revoked_for_ttl :
    (now : ℕ) (revoked : Denylist) (jti : String) (ttl : ℕ) (calls : List Call) (t : ℕ)
    → AllSpare jti (now + seconds ttl) calls
    → (is_revoked t (run (add now revoked jti ttl) calls) jti).1 ≡ leb t (now + seconds ttl)
revoked_for_ttl now revoked jti ttl calls t h =
    is_revoked_of_get t _ jti _ (run-get _ jti _ calls h (get-add_self now revoked jti ttl))

-- A logout at time `now` adds the token for the seconds until its `exp`. The token is then still
-- revoked at every time `t` that is at least a second before its `exp`, other calls in between
-- as before.
pub logout_covers :
    (now : ℕ) (revoked : Denylist) (jti : String) (exp : ℕ) (calls : List Call) (t : ℕ)
    → AllSpare jti (now + seconds (seconds_until_exp now exp)) calls
    → t + second ≤ seconds exp
    → now ≤ t
    → (is_revoked t (run (add now revoked jti (seconds_until_exp now exp)) calls) jti).1 ≡ true
unfolding seconds_until_exp
logout_covers now revoked jti exp calls t h before after =
    ground (arith, revoked_for_ttl now revoked jti (seconds_until_exp now exp) calls t h)

-- A second `add` for the same token replaces the first: a shorter one ends the revocation early.
pub add_shortens :
    (now now' : ℕ) (revoked : Denylist) (jti : String) (ttl ttl' t : ℕ)
    → now' + seconds ttl' < t
    → t ≤ now + seconds ttl
    → ((is_revoked t (add now revoked jti ttl) jti).1 ≡ true)
      × ((is_revoked t (add now' (add now revoked jti ttl) jti ttl') jti).1 ≡ false)
add_shortens now now' revoked jti ttl ttl' t late within = ground (
  arith,
  is_revoked_of_get t _ jti _ (get-add_self now revoked jti ttl),
  is_revoked_of_get t _ jti _ (get-add_self now' (add now revoked jti ttl) jti ttl'),
)
