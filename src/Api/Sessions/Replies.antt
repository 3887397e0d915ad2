-- ===== src/Api/Sessions/Replies.antt =====
-- What the reply of a login says about who asked.
use mathlib.Core.Path.{subst}
use pulsar_relay.Prelude.{
  ℕ, String, ◌≡◌, refl, sym, ◌⊎◌, inl, inr, Bool, true, false, Option, some, arith, if◌then◌else◌,
  Option-cases, nat_eq, string_eq, pair_eq,
}
use pulsar_relay.Auth.Users
use pulsar_relay.Auth.Users.{User, UserStorage}
use pulsar_relay.Auth.Refresh.{RefreshTokenStorage}
use pulsar_relay.Auth.Jwt.{Jwt}
use pulsar_relay.Api.Sessions.{
  LoginServices, LoginReply, incorrect, inactive, logged_in, password_matches, open_session,
  login_user, login,
}

-- The user is there, the password is the user's, and the user is active.
abbrev pub MayLogIn : LoginServices → UserStorage → String → String → User → Type 0
MayLogIn services users username password user =
    (Users.get_user_by_username users username ≡ some user)
    × (password_matches services password user.hashed_password ≡ true)
    × (user.is_active ≡ true)

-- What a reply says about who asked.
abbrev pub Justified : LoginServices → UserStorage → String → String → LoginReply → Type 0
Justified services users username password incorrect =
    (user : User)
    → Users.get_user_by_username users username ≡ some user
    → password_matches services password user.hashed_password ≡ false
Justified services users username password inactive =
    (user : User) × (Users.get_user_by_username users username ≡ some user)
    × (password_matches services password user.hashed_password ≡ true)
    × (user.is_active ≡ false)
Justified services users username password (logged_in access lifetime wire) =
    (user : User) × MayLogIn services users username password user

one_found : {o : Option User} (a b : User) → o ≡ some a → o ≡ some b → a ≡ b
one_found a b first second = ground arith

module _ (jwt : Jwt) (services : LoginServices) (now : ℕ) (users : UserStorage)
    (refresh : RefreshTokenStorage) (username password : String) where
  abbrev Outcome : RefreshTokenStorage × LoginReply → Type 0
  Outcome (refresh', reply) =
      Justified services users username password reply
      × ((refresh' ≡ refresh) ⊎ ((user : User) × MayLogIn services users username password user))

  active-Outcome :
      (user : User) (active : Bool)
      → Users.get_user_by_username users username ≡ some user
      → password_matches services password user.hashed_password ≡ true
      → user.is_active ≡ active
      → Outcome (if active then open_session jwt services now refresh user else (refresh, inactive))
  unfolding open_session
  active-Outcome user true found right is =
      ((user, (found, right, is)), inr (user, (found, right, is)))
  active-Outcome user false found right is = ((user, found, right, is), inl refl)

  found-Outcome :
      (user : User) (right : Bool)
      → Users.get_user_by_username users username ≡ some user
      → password_matches services password user.hashed_password ≡ right
      → Outcome (
          if right
          then (if user.is_active
              then open_session jwt services now refresh user
              else (refresh, inactive))
          else (refresh, incorrect))
  found-Outcome user true found is = active-Outcome user user.is_active found is refl
  found-Outcome user false found is = (
    λ other same.
        subst (λ (o : User). password_matches services password o.hashed_password ≡ false)
          (one_found user other found same) is,
    inl refl,
  )

-- Every reply of a login is justified: tokens are given to a stored and active user with a matching
-- password only, a 403 is given only where the password matches and the user is inactive, and a
-- 401, the same for an unknown name and for a wrong password, only where no user of that name
-- has that password. Where no tokens are given, no refresh token is stored.
pub login-Justified :
    (jwt : Jwt) (services : LoginServices) (now : ℕ) (users : UserStorage)
    (refresh : RefreshTokenStorage) (username password : String)
    → Justified services users username password
        (login jwt services now users refresh username password).1
      × (((login jwt services now users refresh username password).0 ≡ refresh)
          ⊎ ((user : User) × MayLogIn services users username password user))
unfolding login login_user
login-Justified jwt services now users refresh username password =
    elim (Option-cases (Users.get_user_by_username users username)) [
      | inl unknown ↦ rw unknown (λ user found. absurd (ground arith), inl refl)
      | inr (user, found) ↦
          subst
            (λ o.
              Outcome jwt services now users refresh username password
                (login_user jwt services now refresh password o))
            (sym found)
            (found-Outcome jwt services now users refresh username password user _ found refl)
    ]
