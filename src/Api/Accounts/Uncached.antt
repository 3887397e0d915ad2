-- ===== src/Api/Accounts/Uncached.antt =====
-- The endpoints over accounts against the same endpoints with no cache of users.
use mathlib.Core.Path.{subst, ap₂}
use pulsar_relay.Prelude.{
  ℕ, String, eq_iff, ◌≡◌, refl, sym, inl, inr, none, some, List, [], ◌∷◌, arith, nat_eq, string_eq,
  pair_eq,
}
use pulsar_relay.Auth.Users.{User, UserStorage}
use pulsar_relay.Auth.Jwt.{TokenPayload}
use pulsar_relay.Auth.Access.{Access, Admission, granted, denied, user_key, get_current_user}
use pulsar_relay.Auth.Access.Current.{authorize, IsCurrent, invalidate-Mirrors, looked_up}
use pulsar_relay.Api.Accounts.Bodies.{Fresh, Tracks, body-Tracks}
use pulsar_relay.Core.Cache.Entries.{invalidate-max_size}
use pulsar_relay.Api.Accounts.{
  AccountReply, refused, Done, Request, body, permitted, conclude, on_admission, serve,
}

-- A request with no cache: the bearer is looked up in the storage.
abbrev forget_stale : Done → UserStorage × AccountReply
forget_stale (users, stale, reply) = (users, reply)

unfoldable pub uncached_body :
    (String → String) → ℕ → UserStorage → Request → Admission User → UserStorage × AccountReply
uncached_body hash_password now users request (denied e) = (users, refused e)
uncached_body hash_password now users request (granted user) =
    forget_stale (body hash_password now users request user)

unfoldable pub uncached :
    (String → String) → ℕ → UserStorage → TokenPayload → Request → UserStorage × AccountReply
unfolding uncached_body
uncached hash_password now users payload request =
    uncached_body hash_password now users request (permitted request (authorize users payload.sub))

-- A request as it arrives: the time, the claims of its bearer, and what it asks for.
abbrev pub Visit : Type 0
Visit = ℕ × TokenPayload × Request

abbrev pub recorded {ℓ} :
    {S : Type ℓ} → AccountReply → S × List AccountReply → S × List AccountReply
recorded reply (st, replies) = (st, reply ∷ replies)

unfoldable pub run : (String → String) → Access → List Visit → Access × List AccountReply
run hash_password st [] = (st, [])
run hash_password st ((now, payload, request) ∷ visits) =
    let (st', reply) = serve hash_password now st payload request in
    recorded reply (run hash_password st' visits)

unfoldable pub run_uncached :
    (String → String) → UserStorage → List Visit → UserStorage × List AccountReply
run_uncached hash_password users [] = (users, [])
run_uncached hash_password users ((now, payload, request) ∷ visits) =
    let (users', reply) = uncached hash_password now users payload request in
    recorded reply (run_uncached hash_password users' visits)

abbrev pub AllFresh : (String → String) → UserStorage → List Visit → Type 0
AllFresh hash_password users [] = Unit
AllFresh hash_password users ((now, payload, request) ∷ visits) =
    Fresh users request
    × AllFresh hash_password (uncached hash_password now users payload request).0 visits

conclude-IsCurrent :
    (st : Access) (done : Done)
    → IsCurrent st
    → Tracks st.users done
    → IsCurrent (conclude st done).0
unfolding conclude
conclude-IsCurrent st (users, none, reply) c t = record {
  room = c.room;
  keyed = t.keyed;
  mirrors = λ user_id entry h. elim (t.kept user_id entry.0 (c.mirrors user_id entry h)) [
    | inl none_named ↦ absurd none_named
    | inr stored ↦ stored
  ];
}
conclude-IsCurrent st (users, some stale, reply) c t = record {
  room = rw (invalidate-max_size st.user_cache (user_key stale)) c.room;
  keyed = t.keyed;
  mirrors =
      invalidate-Mirrors st.users users st.user_cache stale
        (λ other user differs stored. elim (t.kept other user stored) [
          | inl same ↦ absurd (ground (arith, eq_iff stale other))
          | inr still ↦ still
        ])
        c.mirrors;
}

-- The two answers agree, and the cache still mirrors the storage.
abbrev Agree : Access × AccountReply → UserStorage × AccountReply → Type 0
Agree (st, reply) (users, reply') = (st.users ≡ users) × (reply ≡ reply') × IsCurrent st

conclude-Agree :
    (st : Access) (done : Done)
    → IsCurrent st
    → Tracks st.users done
    → Agree (conclude st done) (forget_stale done)
unfolding conclude
conclude-Agree st (users, stale, reply) c t =
    (refl, refl, conclude-IsCurrent st (users, stale, reply) c t)

module _ (hash_password : String → String) where
  admitted-Agree :
      (now : ℕ) (request : Request) (st : Access) (user : Admission User)
      → IsCurrent st
      → Fresh st.users request
      → Agree
          (on_admission hash_password now request (st, user))
          (uncached_body hash_password now st.users request user)
  unfolding on_admission uncached_body
  admitted-Agree now request st (denied e) c f = (refl, refl, c)
  admitted-Agree now request st (granted user) c f =
      conclude-Agree st (body hash_password now st.users request user) c
        (body-Tracks hash_password now st.users request user c.keyed f)

  serve-Agree :
      (now : ℕ) (st : Access) (payload : TokenPayload) (request : Request)
      → IsCurrent st
      → Fresh st.users request
      → Agree
          (serve hash_password now st payload request)
          (uncached hash_password now st.users payload request)
  unfolding serve uncached
  serve-Agree now st payload request c f =
      let (same_user, same_users, c') = looked_up now st payload c in
      let (st', user) = get_current_user now st payload in
      let same : Fresh st'.users request =
        subst (λ users. Fresh users request) (sym same_users) f in
      subst
        (λ users. Agree (serve hash_password now st payload request) (
          uncached_body hash_password now users request
            (permitted request (authorize st.users payload.sub))))
        same_users
        (subst
          (λ u.
            Agree (serve hash_password now st payload request)
              (uncached_body hash_password now st'.users request (permitted request u)))
          same_user (admitted-Agree now request st' (permitted request user) c' same))

  -- Every stored user is under the user's own identifier, the cache has room, and its users are the
  -- stored ones. From such a state any run of requests, with new users under identifiers that are
  -- not stored, leaves the storage and gives the answers of the same run with no cache at all: a
  -- user who is changed, disabled or deleted is so for the worker's next request, however long the
  -- cache would hold the user.
  pub cache_invisible :
      (st : Access) (visits : List Visit)
      → IsCurrent st
      → AllFresh hash_password st.users visits
      → ((run hash_password st visits).0.users ≡ (run_uncached hash_password st.users visits).0)
        × ((run hash_password st visits).1 ≡ (run_uncached hash_password st.users visits).1)
  unfolding run run_uncached
  cache_invisible st [] c f = (refl, refl)
  cache_invisible st ((now, payload, request) ∷ visits) c f =
      let (same_users, same_reply, c') = serve-Agree now st payload request c f.0 in
      let st' = (serve hash_password now st payload request).0 in
      let rest =
        cache_invisible st' visits c'
          (subst (λ users. AllFresh hash_password users visits) (sym same_users) f.1) in
      let (stored, replies) =
        subst
          (λ users.
            ((run hash_password st' visits).0.users ≡ (run_uncached hash_password users visits).0)
            × ((run hash_password st' visits).1 ≡ (run_uncached hash_password users visits).1))
          same_users rest in
      (stored, ap₂ ◌∷◌ same_reply replies)
