-- ===== src/Core/Connections/Races.antt =====
-- A broadcast whose sends are interleaved with a `disconnect`.
use pulsar_relay.Prelude.{
  ℕ, String, ◌≡◌, refl, inl, inr, Bool, true, false, none, some, List, [], ◌∷◌, arith, nat_beq_iff,
  Option-cases, ◌==◌, nat_eq, string_eq, pair_eq,
}
use pulsar_relay.Dict
use pulsar_relay.Dict.{contains, member, add, discard}
use pulsar_relay.Dict.Laws.{member-cons_self}
use pulsar_relay.Dict.Multi.{IsPruned}
use pulsar_relay.Core.Connections.{
  ConnectionManager, disconnect, dead_connections, clean_one, clean_dead, broadcast,
}
use pulsar_relay.Core.Connections.Subscriptions.{listens}
use pulsar_relay.Core.Connections.Consistency.{IsConsistent, listens-disconnect}
use pulsar_relay.Core.Connections.Invariant.{disconnect-IsConsistent}
use pulsar_relay.Core.Connections.Broadcast.{member-dead, listens_of_missing, listens_of_get}

-- If no entry of the topic is left when the clean-up begins, and a send has failed, it raises.
broadcast_raises :
    (alive : ℕ → Bool) (others : ConnectionManager → ConnectionManager) (m : ConnectionManager)
    (topic : String) {s : List ℕ} {conn : ℕ} {dead : List ℕ}
    → Dict.get m.connections topic ≡ some s
    → dead_connections alive s ≡ conn ∷ dead
    → Dict.get (others m).connections topic ≡ none
    → broadcast alive others m topic ≡ none
unfolding broadcast clean_dead clean_one
broadcast_raises alive others m topic found failed gone = ground arith

occupied :
    (m : ConnectionManager) (topic : String) (s : List ℕ)
    → Dict.get m.connections topic ≡ some s
    → IsPruned m.connections
    → ((w : ℕ) → listens m topic w ≡ false)
    → ⊥
occupied m topic [] found h quiet = h topic found
occupied m topic (x ∷ s) found h quiet =
    ground (arith, listens_of_get m topic x found, member-cons_self x s, quiet x)

missing_of_quiet :
    (m : ConnectionManager) (topic : String)
    → IsPruned m.connections
    → ((w : ℕ) → listens m topic w ≡ false)
    → Dict.get m.connections topic ≡ none
missing_of_quiet m topic h quiet = elim (Option-cases (Dict.get m.connections topic)) [
  | inl missing ↦ missing
  | inr (s, found) ↦ absurd (occupied m topic s found h quiet)
]

cons_of_member :
    (s : List ℕ) (x : ℕ) → member s x ≡ true → (y : ℕ) × (rest : List ℕ) × (s ≡ y ∷ rest)
unfolding member
cons_of_member [] x h = cc
cons_of_member (y ∷ rest) x h = (y, rest, refl)

-- The only connection of a topic is gone after its `disconnect`, and the topic with it.
gone_after_disconnect :
    (m : ConnectionManager) (topic : String) (conn : ℕ)
    → IsConsistent m
    → ((w : ℕ) → listens m topic w ≡ (conn == w))
    → Dict.get (disconnect m conn).connections topic ≡ none
gone_after_disconnect m topic conn h only =
    missing_of_quiet (disconnect m conn) topic (disconnect-IsConsistent m conn h).pruned
      (λ w. ground (arith, listens-disconnect m conn topic w h, only w))

-- In a consistent manager whose topic has a single connection, a broadcast to the topic raises a
-- KeyError if the send to the connection fails and the connection's own `disconnect` runs while the
-- send is awaited.
pub broadcast_races_disconnect :
    (alive : ℕ → Bool) (m : ConnectionManager) (topic : String) (conn : ℕ)
    → IsConsistent m
    → ((w : ℕ) → listens m topic w ≡ (conn == w))
    → alive conn ≡ false
    → broadcast alive (λ m. disconnect m conn) m topic ≡ none
broadcast_races_disconnect alive m topic conn h only down =
    elim (Option-cases (Dict.get m.connections topic)) [
      | inl missing ↦ absurd (
          ground (arith, listens_of_missing m topic conn missing, only conn, nat_beq_iff conn conn))
      | inr (s, found) ↦
          let (first, rest, failed) = cons_of_member (dead_connections alive s) conn (
            ground (
              arith,
              member-dead alive s conn,
              listens_of_get m topic conn found,
              only conn,
              nat_beq_iff conn conn,
            )) in
          broadcast_raises alive (λ m. disconnect m conn) m topic found failed
            (gone_after_disconnect m topic conn h only)
    ]
