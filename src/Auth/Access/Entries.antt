-- ===== src/Auth/Access/Entries.antt =====
-- What a request leaves in the worker's cache of users.
use mathlib.Core.Path.{subst}
use pulsar_relay.Prelude.{
  ℕ, ◌+◌, String, ◌≡◌, refl, ap, ◌∙◌, ◌⊎◌, inl, inr, Option, none, some, Option-cases, nat_eq,
  string_eq, pair_eq,
}
use pulsar_relay.Dict
use pulsar_relay.Core.Cache
use pulsar_relay.Core.Cache.{TtlCache}
use pulsar_relay.Core.Cache.Entries.{get-entry, get-ttl, get-max_size, set-entry, set_settled}
use pulsar_relay.Auth.Users
use pulsar_relay.Auth.Users.{User, UserStorage}
use pulsar_relay.Auth.Jwt.{TokenPayload}
use pulsar_relay.Auth.Access.{Access, user_key, remember, fetch, after_lookup, get_current_user}
use pulsar_relay.Auth.Access.Current.{user_key_injective}

-- An entry after a request was there before, or is the request's own.
abbrev pub Comes : ℕ → Access → String → User × ℕ → Type 0
Comes now st user_id entry =
    (Dict.get st.user_cache.cache (user_key user_id) ≡ some entry)
    ⊎ ((Users.get_user_by_id st.users user_id ≡ some entry.0) × (entry.1 ≡ now + st.user_cache.ttl))

fetch-Comes :
    (now : ℕ) (st : Access) (own user_id : String) (entry : User × ℕ) (stored : Option User)
    → Users.get_user_by_id st.users own ≡ stored
    → Dict.get (fetch now st own stored).0.user_cache.cache (user_key user_id) ≡ some entry
    → Comes now st user_id entry
unfolding fetch remember
fetch-Comes now st own user_id entry none is h = inl h
fetch-Comes now st own user_id entry (some user) is h =
    elim (Option-cases (Cache.set now st.user_cache (user_key own) user)) [
      | inl full ↦ inl (rw full at h)
      | inr (cache, made) ↦
          elim (set-entry now st.user_cache (user_key own) user cache (user_key user_id) entry made
            (rw made at h)) [
              | inl (same, new) ↦ inr (
                subst (λ i. Users.get_user_by_id st.users i ≡ some entry.0)
                    (user_key_injective own user_id same) (rw new is),
                ap (λ e. e.1) new,
              )
              | inr before ↦ inl before
            ]
    ]

-- The read before it drops entries only.
read-Comes :
    (now : ℕ) (st : Access) (key user_id : String) (entry : User × ℕ)
    → Comes now (record st { user_cache = (Cache.get now st.user_cache key).0 }) user_id entry
    → Comes now st user_id entry
read-Comes now st key user_id entry (inl before) =
    inl (get-entry now st.user_cache key (user_key user_id) entry before)
read-Comes now st key user_id entry (inr (found, expiry)) =
    inr (found, expiry ∙ ap (λ ttl. now + ttl) (get-ttl now st.user_cache key))

pub look-Comes :
    (now : ℕ) (st : Access) (payload : TokenPayload) (user_id : String) (entry : User × ℕ)
    → Dict.get (get_current_user now st payload).0.user_cache.cache (user_key user_id) ≡ some entry
    → Comes now st user_id entry
unfolding get_current_user after_lookup
look-Comes now st payload user_id entry h =
    elim (Option-cases (Cache.get now st.user_cache (user_key payload.sub)).1) [
      | inl miss ↦
          read-Comes now st (user_key payload.sub) user_id entry
            (fetch-Comes now _ payload.sub user_id entry _ refl (rw miss at h))
      | inr (user, hit) ↦ inl (
          get-entry now st.user_cache (user_key payload.sub) (user_key user_id) entry (rw hit at h))
    ]

-- The size and the time to live stay what they are.
abbrev pub Settled : TtlCache User → TtlCache User → Type 0
Settled cache cache' = (cache'.max_size ≡ cache.max_size) × (cache'.ttl ≡ cache.ttl)

fetch-Settled :
    (now : ℕ) (st : Access) (own : String) (stored : Option User)
    → Settled st.user_cache (fetch now st own stored).0.user_cache
unfolding fetch remember
fetch-Settled now st own none = (refl, refl)
fetch-Settled now st own (some user) =
    elim (Option-cases (Cache.set now st.user_cache (user_key own) user)) [
      | inl full ↦ rw full (refl, refl)
      | inr (cache, made) ↦ rw made (set_settled now st.user_cache (user_key own) user cache made)
    ]

read-Settled :
    (now : ℕ) (cache : TtlCache User) (key : String) → Settled cache (Cache.get now cache key).0
read-Settled now cache key = (get-max_size now cache key, get-ttl now cache key)

pub look-Settled :
    (now : ℕ) (st : Access) (payload : TokenPayload)
    → Settled st.user_cache (get_current_user now st payload).0.user_cache
unfolding get_current_user after_lookup
look-Settled now st payload =
    let read = read-Settled now st.user_cache (user_key payload.sub) in
    elim (Option-cases (Cache.get now st.user_cache (user_key payload.sub)).1) [
      | inl miss ↦
          let fetched =
            fetch-Settled now
              (record st { user_cache = (Cache.get now st.user_cache (user_key payload.sub)).0 })
              payload.sub (Users.get_user_by_id st.users payload.sub) in
          rw miss (fetched.0 ∙ read.0, fetched.1 ∙ read.1)
      | inr (user, hit) ↦ rw hit read
    ]
