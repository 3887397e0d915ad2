-- ===== src/Auth/Access/Current.antt =====
-- The worker's cache of users, against the storage that it caches.
use Prim.Native.String.{◌++◌ as text_append}
use text.Mathlib.TextLemmas.{cons-append, nil-append, tail-eq_of_cons-eq}
use pulsar_relay.Prelude.{
  ℕ, ◌<◌, String, eq_iff, ◌≡◌, refl, sym, ◌∙◌, inl, inr, false, none, some, arith, Bool-cases,
  Option-cases, ◌==◌, nat_eq, string_eq, pair_eq,
}
use pulsar_relay.Dict
use pulsar_relay.Core.Cache
use pulsar_relay.Core.Cache.{TtlCache}
use pulsar_relay.Core.Cache.Entries.{
  get-entry, get-max_size, get_found, set-entry, set_succeeds, invalidate-entry,
}
use pulsar_relay.Auth.Users
use pulsar_relay.Auth.Users.{User, UserCreate, UserStorage, Result, ok, raise}
use pulsar_relay.Auth.Jwt.{TokenPayload}
use pulsar_relay.Auth.Access.{
  Access, Admission, denied, user_not_found, user_key, if_active, remember, fetch, after_lookup,
  get_current_user,
}

-- The same user with no cache.
unfoldable pub authorize : UserStorage → String → Admission User
authorize users user_id = elim (Users.get_user_by_id users user_id) [
  | none ↦ denied user_not_found
  | some user ↦ if_active user
]

pub authorize_stored :
    (users : UserStorage) (user_id : String) (user : User)
    → Dict.get users.users user_id ≡ some user
    → if_active user ≡ authorize users user_id
unfolding authorize Users.get_user_by_id
authorize_stored users user_id user stored = rw (stored, authorize) refl

pub authorize_absent :
    (users : UserStorage) (user_id : String)
    → Dict.get users.users user_id ≡ none
    → denied user_not_found ≡ authorize users user_id
unfolding authorize Users.get_user_by_id
authorize_absent users user_id absent = rw (absent, authorize) refl

text_append_cancel : (p a b : String) → text_append p a ≡ text_append p b → a ≡ b
text_append_cancel String.[] a b e = sym (nil-append a) ∙ (e ∙ nil-append b)
text_append_cancel (String.◌∷◌ c p) a b e =
    text_append_cancel p a b
      (tail-eq_of_cons-eq (sym (cons-append c p a) ∙ (e ∙ cons-append c p b)))

pub user_key_injective : (a b : String) → user_key a ≡ user_key b → a ≡ b
unfolding user_key
user_key_injective a b e = text_append_cancel "user:" a b e

key_differs : (a b : String) → ((user_key a == user_key b) ≡ false) → ((a == b) ≡ false)
key_differs a b h = elim (Bool-cases (a == b)) [
  | inl same ↦ absurd (ground (arith, eq_iff a b, eq_iff (user_key a) (user_key b)))
  | inr other ↦ other
]

-- Every user is stored under the user's own identifier.
abbrev pub IsKeyed : UserStorage → Type 0
IsKeyed users =
    (user_id : String) (user : User)
    → Dict.get users.users user_id ≡ some user
    → user.user_id ≡ user_id

-- What is cached for a user is what is stored for the user.
abbrev pub Mirrors : UserStorage → TtlCache User → Type 0
Mirrors users cache =
    (user_id : String) (entry : User × ℕ)
    → Dict.get cache.cache (user_key user_id) ≡ some entry
    → Dict.get users.users user_id ≡ some entry.0

pub record IsCurrent (st : Access) : Type 0 where
  pub room : 0 < st.user_cache.max_size
  pub keyed : IsKeyed st.users
  pub mirrors : Mirrors st.users st.user_cache

get-Mirrors :
    (users : UserStorage) (now : ℕ) (cache : TtlCache User) (key : String)
    → Mirrors users cache
    → Mirrors users (Cache.get now cache key).0
get-Mirrors users now cache key m user_id entry h =
    m user_id entry (get-entry now cache key (user_key user_id) entry h)

set-Mirrors :
    (users : UserStorage) (now : ℕ) (cache cache' : TtlCache User) (user_id : String) (user : User)
    → Mirrors users cache
    → Dict.get users.users user_id ≡ some user
    → Cache.set now cache (user_key user_id) user ≡ some cache'
    → Mirrors users cache'
set-Mirrors users now cache cache' user_id user m stored made other entry h =
    elim (set-entry now cache (user_key user_id) user cache' (user_key other) entry made h) [
      | inl (same, is) ↦ rw (is, sym (user_key_injective user_id other same)) stored
      | inr before ↦ m other entry before
    ]

pub invalidate-Mirrors :
    (users users' : UserStorage) (cache : TtlCache User) (user_id : String)
    → ((other : String) (user : User)
        → (user_id == other) ≡ false
        → Dict.get users.users other ≡ some user
        → Dict.get users'.users other ≡ some user)
    → Mirrors users cache
    → Mirrors users' (Cache.invalidate cache (user_key user_id))
invalidate-Mirrors users users' cache user_id kept m other entry h =
    let (differs, before) = invalidate-entry cache (user_key user_id) (user_key other) entry h in
    kept other entry.0 (key_differs user_id other differs) (m other entry before)

-- What a dependency hands on: the admission without a cache, the same storage, and a cache that
-- still mirrors it.
abbrev pub Admitted : Access → String → Access × Admission User → Type 0
Admitted st user_id (st', user) =
    (user ≡ authorize st.users user_id) × (st'.users ≡ st.users) × IsCurrent st'

remembered :
    (now : ℕ) (st : Access) (user_id : String) (user : User)
    → IsCurrent st
    → Dict.get st.users.users user_id ≡ some user
    → Admitted st user_id (remember st user (Cache.set now st.user_cache (user_key user_id) user))
unfolding remember
remembered now st user_id user c stored =
    let (cache, made, (same_size, same_ttl)) =
      set_succeeds now st.user_cache (user_key user_id) user c.room in
    rw made (
      authorize_stored st.users user_id user stored,
      refl,
      record {
        room = rw same_size c.room;
        keyed = c.keyed;
        mirrors = set-Mirrors st.users now st.user_cache cache user_id user c.mirrors stored made;
      },
    )

fetched :
    (now : ℕ) (st : Access) (user_id : String)
    → IsCurrent st
    → Admitted st user_id (fetch now st user_id (Users.get_user_by_id st.users user_id))
unfolding fetch Users.get_user_by_id
fetched now st user_id c = elim (Option-cases (Dict.get st.users.users user_id)) [
  | inl absent ↦ rw absent (authorize_absent st.users user_id absent, refl, c)
  | inr (user, stored) ↦ rw stored (remembered now st user_id user c stored)
]

dropped-IsCurrent :
    (now : ℕ) (st : Access) (key : String)
    → IsCurrent st
    → IsCurrent (record st { user_cache = (Cache.get now st.user_cache key).0 })
dropped-IsCurrent now st key c = record {
  room = rw (get-max_size now st.user_cache key) c.room;
  keyed = c.keyed;
  mirrors = get-Mirrors st.users now st.user_cache key c.mirrors;
}

found_stored :
    (now : ℕ) (st : Access) (user_id : String) (user : User)
    → IsCurrent st
    → (Cache.get now st.user_cache (user_key user_id)).1 ≡ some user
    → Dict.get st.users.users user_id ≡ some user
found_stored now st user_id user c hit =
    let (expiry, there, alive) = get_found now st.user_cache (user_key user_id) user hit in
    c.mirrors user_id (user, expiry) there

pub looked_up :
    (now : ℕ) (st : Access) (payload : TokenPayload)
    → IsCurrent st
    → Admitted st payload.sub (get_current_user now st payload)
unfolding get_current_user after_lookup Users.get_user_by_id
looked_up now st payload c =
    elim (Option-cases (Cache.get now st.user_cache (user_key payload.sub)).1) [
      | inl miss ↦ rw miss (fetched now _ payload.sub (dropped-IsCurrent now st _ c))
      | inr (user, hit) ↦ rw hit (
        authorize_stored st.users payload.sub user (found_stored now st payload.sub user c hit),
        refl,
        dropped-IsCurrent now st (user_key payload.sub) c,
      )
    ]
