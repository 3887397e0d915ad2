-- ===== src/Core/Polling/Cleanup.antt =====
-- What `cleanup_stale_waiters` removes.
use pulsar_relay.Prelude.{
  ℕ, String, eq_iff, ◌≡◌, refl, Bool, false, Option, none, some, List, [], ◌∷◌, arith,
  if◌then◌else◌, length, ◌==◌, nat_eq, string_eq, pair_eq,
}
use pulsar_relay.Dict
use pulsar_relay.Dict.{contains, member, add, discard}
use pulsar_relay.Dict.Laws.{get-remove}
use pulsar_relay.Dict.Keys.{DistinctKeys, count_by}
use pulsar_relay.Core.Polling.{
  PollWaiter, PollManager, is_stale, stale_ids, remove_waiter, remove_all, cleanup_stale_waiters,
}
use pulsar_relay.Core.Polling.Invariant.{IsIndexed, remove_all-IsIndexed}

module _ {ℓ} {M : Type ℓ} where
  get-remove_waiter :
      (m : PollManager M) (id c : String)
      → Dict.get (remove_waiter m id).waiters c ≡ (if id == c then none else Dict.get m.waiters c)
  unfolding remove_waiter
  get-remove_waiter m id c = ground (arith, get-remove m.waiters id c, eq_iff id c)

  get-remove_all :
      (m : PollManager M) (ids : List String) (c : String)
      → Dict.get (remove_all m ids).waiters c
        ≡ (if member ids c then none else Dict.get m.waiters c)
  unfolding remove_all member
  get-remove_all m [] c = refl
  get-remove_all m (id ∷ ids) c =
      ground (arith, get-remove_all (remove_waiter m id) ids c, get-remove_waiter m id c)

  -- The waiter, if it is not stale.
  abbrev pub unless_stale : ℕ → ℕ → Option (PollWaiter M) → Option (PollWaiter M)
  unless_stale now max_age none = none
  unless_stale now max_age (some w) = if is_stale now max_age w then none else some w

  abbrev stale_at : ℕ → ℕ → Option (PollWaiter M) → Bool
  stale_at now max_age none = false
  stale_at now max_age (some w) = is_stale now max_age w

  member-stale_ids :
      (now max_age : ℕ) (d : List (String × PollWaiter M)) (c : String)
      → DistinctKeys d
      → member (stale_ids now max_age d) c ≡ stale_at now max_age (Dict.get d c)
  unfolding stale_ids member Dict.get
  member-stale_ids now max_age [] c h = refl
  member-stale_ids now max_age ((k, w) ∷ d) c h =
      ground (arith, member-stale_ids now max_age d c h.1, h.0, eq_iff k c)

  length-stale_ids :
      (now max_age : ℕ) (d : List (String × PollWaiter M))
      → length (stale_ids now max_age d) ≡ count_by (is_stale now max_age) d
  unfolding stale_ids count_by
  length-stale_ids now max_age [] = refl
  length-stale_ids now max_age ((k, w) ∷ d) = ground (arith, length-stale_ids now max_age d)

  -- In an indexed manager the clean-up removes exactly the waiters whose age is above the maximum,
  -- returns how many those are, and leaves the manager indexed.
  pub cleanup_exact :
      (m : PollManager M) (now max_age : ℕ)
      → IsIndexed m
      → ((c : String)
          → Dict.get (cleanup_stale_waiters m now max_age).0.waiters c
            ≡ unless_stale now max_age (Dict.get m.waiters c))
        × ((cleanup_stale_waiters m now max_age).1 ≡ count_by (is_stale now max_age) m.waiters)
        × IsIndexed (cleanup_stale_waiters m now max_age).0
  unfolding cleanup_stale_waiters
  cleanup_exact m now max_age h = (
    λ c. ground (
      arith,
      get-remove_all m (stale_ids now max_age m.waiters) c,
      member-stale_ids now max_age m.waiters c h.keyed,
    ),
    length-stale_ids now max_age m.waiters,
    remove_all-IsIndexed m _ h,
  )
