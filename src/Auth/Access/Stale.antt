-- ===== src/Auth/Access/Stale.antt =====
-- How long a worker's cache shows a user whom another worker has changed.
use pulsar_relay.Prelude.{
  ℕ, ◌+◌, ◌≤◌, ◌<◌, String, ◌≡◌, refl, sym, ◌∙◌, ◌⊎◌, inl, inr, Option, none, some, List, [], ◌∷◌,
  arith, Option-cases, nat_eq, string_eq, pair_eq,
}
use pulsar_relay.Dict
use pulsar_relay.Core.Cache
use pulsar_relay.Core.Cache.{TtlCache}
use pulsar_relay.Core.Cache.Entries.{get-max_size, get_found, set_succeeds}
use pulsar_relay.Auth.Users
use pulsar_relay.Auth.Users.{User, UserStorage}
use pulsar_relay.Auth.Jwt.{TokenPayload}
use pulsar_relay.Auth.Access.{Access, user_key, remember, fetch, after_lookup, get_current_user}
use pulsar_relay.Auth.Access.Entries.{look-Comes, look-Settled}
use pulsar_relay.Auth.Access.Current.{authorize, authorize_stored, authorize_absent}

-- A request on this worker: the time, the storage as all workers have left it by then, and the
-- bearer's claims.
abbrev pub Look : Type 0
Look = ℕ × UserStorage × TokenPayload

abbrev pub seen : Access → UserStorage → Access
seen st users = record st { users = users }

pub look_all : Access → List Look → Access
look_all st [] = st
look_all st ((now, users, payload) ∷ looks) =
    look_all (get_current_user now (seen st users) payload).0 looks

abbrev pub AllBy : ℕ → List Look → Type 0
AllBy limit [] = Unit
AllBy limit ((now, users, payload) ∷ looks) = (now ≤ limit) × AllBy limit looks

-- Every one of the requests finds `stored` under the identifier.
abbrev pub AllFind : String → Option User → List Look → Type 0
AllFind user_id stored [] = Unit
AllFind user_id stored ((now, users, payload) ∷ looks) =
    (Users.get_user_by_id users user_id ≡ stored) × AllFind user_id stored looks

-- What is cached for a user expires by `limit`, or is what is stored for the user.
pub record IsBounded (ttl limit : ℕ) (user_id : String) (stored : Option User)
    (cache : TtlCache User) : Type 0 where
  pub room : 0 < cache.max_size
  pub same_ttl : cache.ttl ≡ ttl
  pub bounded :
      (entry : User × ℕ)
      → Dict.get cache.cache (user_key user_id) ≡ some entry
      → (entry.1 ≤ limit) ⊎ (stored ≡ some entry.0)

module _ (ttl changed : ℕ) (user_id : String) (stored : Option User) where
  look-IsBounded :
      (now : ℕ) (st : Access) (payload : TokenPayload)
      → (now ≤ changed) ⊎ (Users.get_user_by_id st.users user_id ≡ stored)
      → IsBounded ttl (changed + ttl) user_id stored st.user_cache
      → IsBounded ttl (changed + ttl) user_id stored (get_current_user now st payload).0.user_cache
  look-IsBounded now st payload when b =
      let (size, same) = look-Settled now st payload in
      record {
        room = rw size b.room;
        same_ttl = same ∙ b.same_ttl;
        bounded = λ entry h. elim (look-Comes now st payload user_id entry h) [
          | inl before ↦ b.bounded entry before
          | inr (found, expiry) ↦ elim when [
            | inl early ↦ inl (rw (expiry, b.same_ttl) (omega arith))
            | inr is ↦ inr (sym is ∙ found)
          ]
        ];
      }

  early-IsBounded :
      (looks : List Look) (st : Access)
      → AllBy changed looks
      → IsBounded ttl (changed + ttl) user_id stored st.user_cache
      → IsBounded ttl (changed + ttl) user_id stored (look_all st looks).user_cache
  unfolding look_all
  early-IsBounded [] st a b = b
  early-IsBounded ((now, users, payload) ∷ looks) st a b =
      early-IsBounded looks _ a.1 (look-IsBounded now (seen st users) payload (inl a.0) b)

  late-IsBounded :
      (looks : List Look) (st : Access)
      → AllFind user_id stored looks
      → IsBounded ttl (changed + ttl) user_id stored st.user_cache
      → IsBounded ttl (changed + ttl) user_id stored (look_all st looks).user_cache
  unfolding look_all
  late-IsBounded [] st a b = b
  late-IsBounded ((now, users, payload) ∷ looks) st a b =
      late-IsBounded looks _ a.1 (look-IsBounded now (seen st users) payload (inr a.0) b)

fetch_fresh :
    (now : ℕ) (st : Access) (user_id : String) (stored : Option User)
    → 0 < st.user_cache.max_size
    → Users.get_user_by_id st.users user_id ≡ stored
    → (fetch now st user_id stored).1 ≡ authorize st.users user_id
unfolding fetch remember Users.get_user_by_id
fetch_fresh now st user_id none room is = authorize_absent st.users user_id is
fetch_fresh now st user_id (some user) room is =
    let (cache, made, settled) = set_succeeds now st.user_cache (user_key user_id) user room in
    rw made (authorize_stored st.users user_id user is)

look_bounded :
    (t : ℕ) (st : Access) (payload : TokenPayload) (ttl limit : ℕ)
    → limit < t
    → IsBounded ttl limit payload.sub (Users.get_user_by_id st.users payload.sub) st.user_cache
    → (get_current_user t st payload).1 ≡ authorize st.users payload.sub
unfolding get_current_user after_lookup Users.get_user_by_id
look_bounded t st payload ttl limit late b =
    elim (Option-cases (Cache.get t st.user_cache (user_key payload.sub)).1) [
      | inl miss ↦ rw miss (
          fetch_fresh t _ payload.sub _
            (rw (get-max_size t st.user_cache (user_key payload.sub)) b.room) refl)
      | inr (user, hit) ↦ rw hit (
          let (expiry, there, alive) = get_found t st.user_cache (user_key payload.sub) user hit in
          elim (b.bounded (user, expiry) there) [
            | inl old ↦ absurd (ground arith)
            | inr is ↦ authorize_stored st.users payload.sub user is
          ])
    ]

no_entry :
    (entries : List (String × (User × ℕ))) (key : String) {entry : User × ℕ}
    → entries ≡ []
    → Dict.get entries key ≡ some entry
    → ⊥
unfolding Dict.get
no_entry [] key empty h = ground arith
no_entry (e ∷ entries) key empty h = ground arith

-- A worker starts with an empty cache that has room, and serves any requests, on whatever storage,
-- up to the time `changed`. If every request from then on finds the same record for a user, or
-- none (as other workers have left it, the user changed, disabled or deleted), then more than the
-- cache's time to live after `changed` the worker answers the user's requests by what is stored.
pub stale_until_ttl :
    (st : Access) (changed t : ℕ) (earlier later : List Look) (users : UserStorage)
    (payload : TokenPayload)
    → st.user_cache.cache ≡ []
    → 0 < st.user_cache.max_size
    → AllBy changed earlier
    → AllFind payload.sub (Users.get_user_by_id users payload.sub) later
    → changed + st.user_cache.ttl < t
    → (get_current_user t (seen (look_all (look_all st earlier) later) users) payload).1
      ≡ authorize users payload.sub
stale_until_ttl st changed t earlier later users payload empty room before after late =
    let stored = Users.get_user_by_id users payload.sub in
    let ttl = st.user_cache.ttl in
    look_bounded t (seen (look_all (look_all st earlier) later) users) payload ttl (changed + ttl)
      late
      (late-IsBounded ttl changed payload.sub stored later _ after (
        early-IsBounded ttl changed payload.sub stored earlier st before (record {
          room = room;
          same_ttl = refl;
          bounded = λ entry h. absurd (no_entry _ _ empty h);
        })))
