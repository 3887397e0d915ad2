-- ===== src/Auth/OidcState/Tests.antt =====
-- Runs of the login states.
use pulsar_relay.Prelude.{eq_iff, ◌≡◌, none, some, List, [], ◌∷◌, arith, nat_eq, string_eq, pair_eq}
use pulsar_relay.Auth.OidcState.{OidcStates, Drawn, LoginRequest, create, consume}
use pulsar_relay.Auth.OidcState.SingleUse.{Call, creates, consumes, run, consume-create}

abbrev drawn : Drawn
drawn = record { state = "x"; code_verifier = "v"; nonce = "n" }

abbrev drawn_later : Drawn
drawn_later = record { state = "y"; code_verifier = "w"; nonce = "m" }

abbrev request : LoginRequest
request = record {
  provider_name = "keycloak";
  redirect_uri = "https://relay/callback";
  ttl = 600;
  next_url = none;
  device_user_code = none;
}

abbrev empty : OidcStates
empty = []

abbrev between : List Call
between = creates drawn_later 2 request ∷ consumes 3 "y" ∷ []

consume-create_example :
    (consume (run (create empty drawn 1 request).0 between) 600 "x").1
    ≡ some (create empty drawn 1 request).1
consume-create_example =
    consume-create empty drawn 1 request between 600
      ((λ e. ground (arith, eq_iff "y" "x")), ((λ e. ground (arith, eq_iff "y" "x")), tt))
