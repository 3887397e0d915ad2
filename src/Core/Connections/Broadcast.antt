-- ===== src/Core/Connections/Broadcast.antt =====
-- What `broadcast` delivers, and whom it drops.
use pulsar_relay.Prelude.{
  ℕ, String, eq_iff, ◌≡◌, refl, inl, inr, Bool, true, false, not, ◌&&◌, none, some, List, [], ◌∷◌,
  arith, nat_beq_iff, Bool-cases, Option-cases, filter_by, ◌==◌, nat_eq, string_eq, pair_eq,
}
use pulsar_relay.Dict
use pulsar_relay.Dict.{contains, member, add, discard}
use pulsar_relay.Dict.Laws.{member-cons_of_member, member-cons_self}
use pulsar_relay.Dict.Multi.{members, has, unfile, has-unfile, unfile-IsPruned}
use pulsar_relay.Dict.Distinct.{Distinct, unfile-AllDistinct, members_of_get}
use pulsar_relay.Core.Connections.{
  ConnectionManager, reached, dead_connections, clean_one, clean_dead, broadcast,
}
use pulsar_relay.Core.Connections.Subscriptions.{listens}
use pulsar_relay.Core.Connections.Consistency.{IsConsistent}

-- The manager without the subscription of `conn` to `topic`.
removed : ConnectionManager → String → ℕ → ConnectionManager
removed m topic conn = record m {
  connections = unfile m.connections topic conn;
  client_topics = unfile m.client_topics conn topic;
}

listens-removed :
    (m : ConnectionManager) (topic : String) (conn : ℕ) (t : String) (w : ℕ)
    → listens (removed m topic conn) t w ≡ (not (topic == t && conn == w) && listens m t w)
unfolding removed
listens-removed m topic conn t w = has-unfile m.connections topic conn t w

removed-IsConsistent :
    (m : ConnectionManager) (topic : String) (conn : ℕ)
    → IsConsistent m
    → IsConsistent (removed m topic conn)
unfolding removed
removed-IsConsistent m topic conn h = record {
  agree = λ t w. ground (
    arith,
    has-unfile m.connections topic conn t w,
    has-unfile m.client_topics conn topic w t,
    h.agree t w,
  );
  pruned = unfile-IsPruned m.connections topic conn h.pruned;
  distinct = unfile-AllDistinct m.connections topic conn h.distinct;
}

clean_one-removed :
    (m : ConnectionManager) (topic : String) (conn : ℕ)
    → listens m topic conn ≡ true
    → clean_one m topic conn ≡ some (removed m topic conn)
unfolding clean_one removed unfile has member
clean_one-removed m topic conn h = ground arith

removed_all : ConnectionManager → String → List ℕ → ConnectionManager
removed_all m topic [] = m
removed_all m topic (conn ∷ dead) = removed_all (removed m topic conn) topic dead

listens-removed_all :
    (m : ConnectionManager) (topic : String) (dead : List ℕ) (t : String) (w : ℕ)
    → listens (removed_all m topic dead) t w ≡ (not (topic == t && member dead w) && listens m t w)
unfolding removed_all member
listens-removed_all m topic [] t w = ground arith
listens-removed_all m topic (conn ∷ dead) t w = ground (
  arith,
  listens-removed_all (removed m topic conn) topic dead t w,
  listens-removed m topic conn t w,
)

removed_all-IsConsistent :
    (m : ConnectionManager) (topic : String) (dead : List ℕ)
    → IsConsistent m
    → IsConsistent (removed_all m topic dead)
unfolding removed_all
removed_all-IsConsistent m topic [] h = h
removed_all-IsConsistent m topic (conn ∷ dead) h =
    removed_all-IsConsistent (removed m topic conn) topic dead (removed-IsConsistent m topic conn h)

still_listens :
    (m : ConnectionManager) (topic : String) (conn : ℕ) (dead : List ℕ) (w : ℕ)
    → member dead conn ≡ false
    → member dead w ≡ true
    → listens m topic w ≡ true
    → listens (removed m topic conn) topic w ≡ true
still_listens m topic conn dead w out listed h =
    ground (arith, listens-removed m topic conn topic w, nat_beq_iff conn w)

-- Distinct connections that all listen to the topic are cleaned up with no KeyError.
clean_dead-removed_all :
    (m : ConnectionManager) (topic : String) (dead : List ℕ)
    → Distinct dead
    → ((w : ℕ) → member dead w ≡ true → listens m topic w ≡ true)
    → clean_dead m topic dead ≡ some (removed_all m topic dead)
unfolding clean_dead removed_all
clean_dead-removed_all m topic [] d h = refl
clean_dead-removed_all m topic (conn ∷ dead) d h =
    rw (clean_one-removed m topic conn (h conn (member-cons_self conn dead)), clean_dead)
      (clean_dead-removed_all (removed m topic conn) topic dead d.1 (λ w listed.
        still_listens m topic conn dead w d.0 listed
          (h w (member-cons_of_member conn dead w listed))))

member-reached :
    (alive : ℕ → Bool) (s : List ℕ) (w : ℕ) → member (reached alive s) w ≡ (alive w && member s w)
unfolding reached member
member-reached alive [] w = ground arith
member-reached alive (c ∷ s) w = ground (arith, member-reached alive s w, nat_beq_iff c w)

pub member-dead :
    (alive : ℕ → Bool) (s : List ℕ) (w : ℕ)
    → member (dead_connections alive s) w ≡ (not (alive w) && member s w)
unfolding dead_connections member
member-dead alive [] w = ground arith
member-dead alive (c ∷ s) w = ground (arith, member-dead alive s w, nat_beq_iff c w)

dead-Distinct : (alive : ℕ → Bool) (s : List ℕ) → Distinct s → Distinct (dead_connections alive s)
unfolding dead_connections
dead-Distinct alive [] d = d
dead-Distinct alive (c ∷ s) d = elim (Bool-cases (alive c)) [
  | inl up ↦ rw (up, dead_connections, filter_by) (dead-Distinct alive s d.1)
  | inr down ↦
      rw (down, dead_connections, filter_by)
        (ground (arith, member-dead alive s c, d.0), dead-Distinct alive s d.1)
]

pub listens_of_missing :
    (m : ConnectionManager) (topic : String) (w : ℕ)
    → Dict.get m.connections topic ≡ none
    → listens m topic w ≡ false
unfolding has member members
listens_of_missing m topic w h = ground arith

pub listens_of_get :
    (m : ConnectionManager) (topic : String) (w : ℕ) {s : List ℕ}
    → Dict.get m.connections topic ≡ some s
    → listens m topic w ≡ member s w
unfolding has member members
listens_of_get m topic w h = ground arith

-- The clean-up of a broadcast with no interleaving.
clean_snapshot :
    (alive : ℕ → Bool) (m : ConnectionManager) (topic : String) (s : List ℕ)
    → IsConsistent m
    → Dict.get m.connections topic ≡ some s
    → clean_dead m topic (dead_connections alive s)
      ≡ some (removed_all m topic (dead_connections alive s))
clean_snapshot alive m topic s h found =
    clean_dead-removed_all m topic (dead_connections alive s)
      (dead-Distinct alive s (rw (members_of_get m.connections topic found) at (h.distinct topic)))
      (λ w listed. ground (arith, member-dead alive s w, listens_of_get m topic w found))

-- A broadcast that no other task interleaves with, in a consistent manager, raises nothing. It
-- reaches exactly the connections of the topic on which the send succeeds, ends exactly the
-- subscriptions to the topic on which it fails, and leaves the manager consistent.
pub broadcast_exact :
    (alive : ℕ → Bool) (m : ConnectionManager) (topic : String)
    → IsConsistent m
    → (m' : ConnectionManager) × (delivered : List ℕ) × (broadcast alive (λ m. m) m topic
        ≡ some (m', delivered))
      × ((w : ℕ) → member delivered w ≡ (alive w && listens m topic w))
      × ((t : String) (w : ℕ)
          → listens m' t w ≡ (not (topic == t && not (alive w)) && listens m t w))
      × IsConsistent m'
unfolding broadcast member
broadcast_exact alive m topic h = elim (Option-cases (Dict.get m.connections topic)) [
  | inl missing ↦ (
    m,
    [],
    rw (missing, broadcast),
    λ w. ground (arith, listens_of_missing m topic w missing),
    λ t w. ground (arith, listens_of_missing m topic w missing, eq_iff topic t),
    h,
  )
  | inr (subscribers, found) ↦ (
    removed_all m topic (dead_connections alive subscribers),
    reached alive subscribers,
    rw (found, broadcast) (rw (clean_snapshot alive m topic subscribers h found)),
    λ w. ground (arith, member-reached alive subscribers w, listens_of_get m topic w found),
    λ t w. ground (
      arith,
      listens-removed_all m topic (dead_connections alive subscribers) t w,
      member-dead alive subscribers w,
      listens_of_get m topic w found,
      eq_iff topic t,
    ),
    removed_all-IsConsistent m topic _ h,
  )
]
