-- ===== src/Auth/Denylist/Tests.antt =====
-- Runs of the deny-list.
use pulsar_relay.Prelude.{eq_iff, ◌≡◌, false, List, [], ◌∷◌, arith, nat_eq, string_eq, pair_eq}
use pulsar_relay.Auth.Denylist.{Denylist, add, is_revoked}
use pulsar_relay.Auth.Denylist.Revocation.{AllSpare, Call, adds, checks, run, revoked_for_ttl}

abbrev empty : Denylist
empty = []

abbrev between : List Call
between = checks 20 "x" ∷ adds 30 "y" 5 ∷ checks 40 "y" ∷ []

between_spares : AllSpare "x" 60000010 between
between_spares =
    (omega arith, (((λ e. ground (arith, eq_iff "y" "x")), omega arith), (omega arith, tt)))

not_revoked_later : (is_revoked 60000011 (run (add 10 empty "x" 60) between) "x").1 ≡ false
not_revoked_later = revoked_for_ttl 10 empty "x" 60 between 60000011 between_spares
