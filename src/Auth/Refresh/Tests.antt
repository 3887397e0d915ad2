-- ===== src/Auth/Refresh/Tests.antt =====
-- Runs of the refresh tokens.
use pulsar_relay.Prelude.{
  ℕ, suc, String, ◌≡◌, refl, true, false, Option, none, some, List, [], ◌∷◌, length, nat_eq,
  string_eq, pair_eq,
}
use pulsar_relay.Dict
use pulsar_relay.Dict.{member}
use pulsar_relay.Dict.Multi.{members, file}
use pulsar_relay.Auth.Refresh.{
  logout, RefreshToken, RefreshTokenStorage, init, new_token, create, parent_of, find_root,
  add_child, children, visit_one, visit, descend, chain_of, revoke, revoke_one, revoke_all,
  revoke_chain, try_mark_rotated,
}
use pulsar_relay.Auth.Verify.{verify_and_consume, accepted}
use pulsar_relay.Auth.Refresh.Wire.{verify_and_consume-create}
use pulsar_relay.Auth.Refresh.Rotation.{Call, creates, step, run}
use pulsar_relay.Auth.Refresh.Roots.{IsRooted}
use pulsar_relay.Auth.Refresh.Family.{Closed}
use pulsar_relay.Auth.Refresh.Chain.{revoked_if, kids_of, revoke_chain_family, revoke_chain_spares}
use pulsar_relay.Auth.Refresh.Growth.{AllProper, run-IsRooted}

abbrev hash : String → String
hash s = s

abbrev first_token : RefreshToken
first_token = record {
  jti = "j1";
  user_id = "u1";
  secret_hash = "s";
  parent_jti = none;
  issued_at = 5;
  expires_at = 105;
  last_used_at = none;
  revoked = false;
  revoked_reason = none;
  client_hint = none;
}

abbrev one : RefreshTokenStorage
one = record { tokens = ("j1", first_token) ∷ []; user_index = ("u1", "j1" ∷ []) ∷ [] }

create-one : create hash init "j1" "s" 5 "u1" 100 none none ≡ (one, first_token, "j1.s")
unfolding create new_token init Dict.put Dict.get file members Dict.add member
create-one = refl

verify_and_consume-create_example :
    verify_and_consume hash one 104 "j1.s" ≡ some (one, accepted first_token)
verify_and_consume-create_example =
    verify_and_consume-create hash init one "j1" "s" 5 "u1" 100 none none first_token "j1.s" 104
      (refl, (refl, tt)) refl refl create-one

rotate_one : (try_mark_rotated one "j1").1 ≡ true
unfolding try_mark_rotated Dict.get
rotate_one = refl

-- A chain of two tokens, and a token of the same user beside it.
abbrev calls : List Call
calls =
    creates "j1" "s1" 1 "u1" 100 none none
    ∷ creates "j2" "s2" 2 "u1" 100 (some "j1") none
    ∷ creates "j3" "s3" 3 "u1" 100 none none
    ∷ []

abbrev family : RefreshTokenStorage
family = run hash init calls

calls_proper : AllProper hash init calls
unfolding step create init Dict.get Dict.put
calls_proper = (refl, ((refl, refl), (refl, tt)))

run-IsRooted_example : IsRooted family.tokens
run-IsRooted_example = run-IsRooted hash calls calls_proper

abbrev second_token : RefreshToken
second_token = new_token hash "j2" "s2" 2 "u1" 100 (some "j1") none

find_second : Dict.get family.tokens "j2" ≡ some second_token
unfolding run step create new_token init Dict.get Dict.put
find_second = refl

revoke_chain_family_example :
    (root : String) × (chain : List String) × (st' : RefreshTokenStorage) × (n : ℕ) × (find_root
        (suc (length family.tokens))
        family.tokens
        "j2"
      ≡ some root)
    × (revoke_chain family "j2" logout ≡ some (st', n))
    × (member chain root ≡ true)
    × Closed (kids_of family second_token.user_id) chain chain
    × ((j : String)
        → Dict.get st'.tokens j ≡ revoked_if (member chain j) logout (Dict.get family.tokens j))
revoke_chain_family_example =
    revoke_chain_family family "j2" logout second_token (run-IsRooted hash calls calls_proper)
      find_second

abbrev relay_of : Option (RefreshTokenStorage × ℕ) → RefreshTokenStorage
relay_of none = init
relay_of (some (st, n)) = st

abbrev ended : RefreshTokenStorage
ended = relay_of (revoke_chain family "j2" logout)

revoke_two : revoke_chain family "j2" logout ≡ some (ended, 2)
unfolding run step create new_token init Dict.get Dict.put file members Dict.add member revoke_chain
    chain_of find_root parent_of descend children add_child visit visit_one revoke_all revoke_one
    revoke
revoke_two = refl

root_of_second : find_root (suc (length family.tokens)) family.tokens "j2" ≡ some "j1"
unfolding run step create new_token init Dict.get Dict.put find_root parent_of
root_of_second = refl

revoke_chain_spares_example : Dict.get ended.tokens "j3" ≡ Dict.get family.tokens "j3"
unfolding run step create new_token init Dict.get Dict.put file members Dict.add member parent_of
    children add_child
revoke_chain_spares_example =
    revoke_chain_spares family "j2" logout second_token "j1" ("j1" ∷ "j2" ∷ []) ended 2 "j3"
      (run-IsRooted hash calls calls_proper) find_second root_of_second revoke_two refl
      ((refl, tt), (tt, tt)) refl
