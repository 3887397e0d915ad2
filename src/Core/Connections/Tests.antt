-- ===== src/Core/Connections/Tests.antt =====
-- Runs of the connection manager.
use pulsar_relay.Prelude.{
  ℕ, String, ◌≡◌, refl, ◌∙◌, Bool, true, false, not, ◌&&◌, ◌||◌, none, some, List, [], ◌∷◌, ◌==◌,
  nat_eq, string_eq, pair_eq,
}
use pulsar_relay.Dict
use pulsar_relay.Dict.{member}
use pulsar_relay.Dict.Multi.{members, has}
use pulsar_relay.Core.Connections.{ConnectionManager, init, connect, disconnect, broadcast}
use pulsar_relay.Core.Connections.Subscriptions.{listens}
use pulsar_relay.Core.Connections.Consistency.{IsConsistent, listens-connect, connect-IsConsistent}
use pulsar_relay.Core.Connections.Invariant.{init-IsConsistent}
use pulsar_relay.Core.Connections.Broadcast.{broadcast_exact}
use pulsar_relay.Core.Connections.Races.{broadcast_races_disconnect}
use pulsar_relay.Core.Connections.Runs.{
  Call, connects, disconnects, unsubscribes, broadcasts, run, run-IsConsistent,
}

-- Connection 1 listens to two topics, and connection 2 to one of them.
abbrev two : ConnectionManager
two = connect (connect init 1 ("a/jobs" ∷ "a/logs" ∷ [])) 2 ("a/jobs" ∷ [])

two-IsConsistent : IsConsistent two
two-IsConsistent =
    connect-IsConsistent _ 2 ("a/jobs" ∷ [])
      (connect-IsConsistent init 1 ("a/jobs" ∷ "a/logs" ∷ []) init-IsConsistent)

abbrev alive : ℕ → Bool
alive w = w == 1

broadcast_exact_example :
    (m' : ConnectionManager) × (delivered : List ℕ) × (broadcast alive (λ m. m) two "a/jobs"
      ≡ some (m', delivered))
    × ((w : ℕ) → member delivered w ≡ (alive w && listens two "a/jobs" w))
    × ((t : String) (w : ℕ)
        → listens m' t w ≡ (not ("a/jobs" == t && not (alive w)) && listens two t w))
    × IsConsistent m'
broadcast_exact_example = broadcast_exact alive two "a/jobs" two-IsConsistent

abbrev calls : List Call
calls =
    connects 1 ("a/jobs" ∷ "a/logs" ∷ [])
    ∷ connects 2 ("a/jobs" ∷ [])
    ∷ broadcasts alive "a/jobs"
    ∷ unsubscribes 1 ("a/logs" ∷ [])
    ∷ disconnects 1
    ∷ []

run-IsConsistent_example : (m : ConnectionManager) × (run init calls ≡ some m) × IsConsistent m
run-IsConsistent_example = run-IsConsistent calls

abbrev single : ConnectionManager
single = connect init 1 ("a/jobs" ∷ [])

single-IsConsistent : IsConsistent single
single-IsConsistent = connect-IsConsistent init 1 ("a/jobs" ∷ []) init-IsConsistent

or_false : (b : Bool) → (b || false) ≡ b
or_false true = refl
or_false false = refl

single-listens : (w : ℕ) → listens single "a/jobs" w ≡ (1 == w)
unfolding init member members has Dict.get
single-listens w = listens-connect init 1 ("a/jobs" ∷ []) "a/jobs" w ∙ or_false (1 == w)

broadcast_races_disconnect_example :
    broadcast (λ w. false) (λ m. disconnect m 1) single "a/jobs" ≡ none
broadcast_races_disconnect_example =
    broadcast_races_disconnect (λ w. false) single "a/jobs" 1 single-IsConsistent single-listens
      refl
