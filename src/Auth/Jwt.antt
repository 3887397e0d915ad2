-- ===== src/Auth/Jwt.antt =====
-- pulsar_relay/auth/jwt.py: the access tokens, with `TokenPayload` of pulsar_relay/auth/models.py.
-- The signature (`jwt.encode`, `jwt.decode`) is a parameter.
use pulsar_relay.Prelude.{ℕ, zero, suc, ◌+◌, ◌*◌, ◌/◌, ◌≤◌, ◌≡◌, String, Option, none, some, List}
use pulsar_relay.Clock.{seconds, second}
use pulsar_relay.Auth.Topics.{Permission}
use pulsar_relay.Auth.Users.{User}

pub record TokenPayload : Type 0 where
  pub sub : String
  pub username : String
  pub permissions : List Permission
  -- `exp` and `iat` are whole seconds.
  pub exp : ℕ
  pub iat : ℕ
  pub jti : Option String

-- PyJWT under the settings' key, and the lifetime from the settings: what is signed, and at a
-- given time the claims of a token, `none` for each of its exceptions.
pub record Jwt : Type 0 where
  pub encode : TokenPayload → String
  pub decode : ℕ → String → Option TokenPayload
  pub access_token_expire_minutes : ℕ

-- timedelta(minutes=n)
abbrev pub minutes : ℕ → ℕ
minutes n = seconds (n * 60)

-- A delta of zero counts as none.
unfoldable pub expire_at : ℕ → ℕ → Option ℕ → ℕ
expire_at default_minutes now none = now + minutes default_minutes
expire_at default_minutes now (some zero) = now + minutes default_minutes
expire_at default_minutes now (some (suc delta)) = now + suc delta

-- The claims that are signed; `jti` is the uuid.
unfoldable pub to_encode : User → ℕ → ℕ → String → TokenPayload
to_encode user now expire jti = record {
  sub = user.user_id;
  username = user.username;
  permissions = user.permissions;
  exp = expire / second;
  iat = now / second;
  jti = some jti;
}

unfoldable pub create_access_token : Jwt → ℕ → String → User → Option ℕ → String
unfolding expire_at to_encode
create_access_token jwt now jti user expires_delta =
    jwt.encode
      (to_encode user now (expire_at jwt.access_token_expire_minutes now expires_delta) jti)

unfoldable pub decode_token : Jwt → ℕ → String → Option TokenPayload
decode_token jwt now token = jwt.decode now token

unfoldable pub get_token_expiration_seconds : Jwt → ℕ
get_token_expiration_seconds jwt = jwt.access_token_expire_minutes * 60

-- What the code relies on in `jwt.decode`: a token has the same claims whenever it is accepted, and
-- is not accepted from its `exp` on.
pub record IsSound (jwt : Jwt) : Type 0 where
  pub same_claims :
      (token : String) (a b : ℕ) (p q : TokenPayload)
      → jwt.decode a token ≡ some p
      → jwt.decode b token ≡ some q
      → p ≡ q
  pub expires :
      (token : String) (a t : ℕ) (p : TokenPayload)
      → jwt.decode a token ≡ some p
      → seconds p.exp ≤ t
      → jwt.decode t token ≡ none
