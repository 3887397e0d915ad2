-- ===== src/Core/Connections/Runs.antt =====
-- Runs of the manager: any sequence of calls, one after the other.
use pulsar_relay.Prelude.{
  ℕ, String, ◌≡◌, refl, Bool, Option, none, some, List, [], ◌∷◌, nat_eq, string_eq, pair_eq,
}
use pulsar_relay.Core.Connections.{
  ConnectionManager, init, connect, disconnect, unsubscribe, broadcast,
}
use pulsar_relay.Core.Connections.Consistency.{IsConsistent, connect-IsConsistent}
use pulsar_relay.Core.Connections.Invariant.{
  init-IsConsistent, disconnect-IsConsistent, unsubscribe-IsConsistent,
}
use pulsar_relay.Core.Connections.Broadcast.{broadcast_exact}

-- A broadcast comes with the connections on which its sends succeed.
pub data Call : Type 0 where
  connects : ℕ → List String → Call
  disconnects : ℕ → Call
  unsubscribes : ℕ → List String → Call
  broadcasts : (ℕ → Bool) → String → Call

-- `none` is a KeyError.
pub step : ConnectionManager → Call → Option ConnectionManager
step m (connects ws topics) = some (connect m ws topics)
step m (disconnects ws) = some (disconnect m ws)
step m (unsubscribes ws topics) = some (unsubscribe m ws topics)
step m (broadcasts alive topic) = elim (broadcast alive (λ m. m) m topic) [
  | none ↦ none
  | some (m', delivered) ↦ some m'
]

pub run : ConnectionManager → List Call → Option ConnectionManager
run m [] = some m
run m (c ∷ calls) = elim (step m c) [ none ↦ none | some m' ↦ run m' calls ]

step-IsConsistent :
    (m : ConnectionManager) (c : Call)
    → IsConsistent m
    → (m' : ConnectionManager) × (step m c ≡ some m') × IsConsistent m'
unfolding step
step-IsConsistent m (connects ws topics) h =
    (connect m ws topics, refl, connect-IsConsistent m ws topics h)
step-IsConsistent m (disconnects ws) h = (disconnect m ws, refl, disconnect-IsConsistent m ws h)
step-IsConsistent m (unsubscribes ws topics) h =
    (unsubscribe m ws topics, refl, unsubscribe-IsConsistent m ws topics h)
step-IsConsistent m (broadcasts alive topic) h =
    let (m', delivered, sent, reaches, keeps, consistent) = broadcast_exact alive m topic h in
    (m', rw (sent, step), consistent)

run_from-IsConsistent :
    (m : ConnectionManager) (calls : List Call)
    → IsConsistent m
    → (m' : ConnectionManager) × (run m calls ≡ some m') × IsConsistent m'
unfolding run
run_from-IsConsistent m [] h = (m, refl, h)
run_from-IsConsistent m (c ∷ calls) h =
    let (m', stepped, consistent) = step-IsConsistent m c h in
    let (m'', ran, consistent') = run_from-IsConsistent m' calls consistent in
    (m'', rw (stepped, run) ran, consistent')

-- A new manager, after any sequence of calls one after the other, has raised no KeyError, and its
-- two maps agree: a connection is listed under a topic exactly if the topic is listed under the
-- connection, no topic is kept with no connection, and no connection is listed twice.
pub run-IsConsistent :
    (calls : List Call) → (m : ConnectionManager) × (run init calls ≡ some m) × IsConsistent m
run-IsConsistent calls = run_from-IsConsistent init calls init-IsConsistent
