-- ===== src/Api/Sessions/Logout.antt =====
-- What a logout does to the token that it is called with.
use mathlib.Core.Path.{subst}
use pulsar_relay.Prelude.{
  ℕ, ◌+◌, ◌≤◌, String, eq_iff, ◌≡◌, refl, sym, ap, ◌∙◌, ◌⊎◌, inl, inr, Bool, true, false, Option,
  none, some, List, arith, Option-cases, nat_eq, string_eq, pair_eq, beq_self,
}
use pulsar_relay.Clock.{second, seconds}
use pulsar_relay.Dict.Laws.{get-put}
use pulsar_relay.Auth.Denylist
use pulsar_relay.Auth.Denylist.{Denylist, seconds_until_exp}
use pulsar_relay.Auth.Jwt.{TokenPayload, Jwt, IsSound, decode_token}
use pulsar_relay.Auth.Access.{
  Access, Admission, granted, denied, revoked_token, invalid_token, verdict_on, check_denylist,
  after_decode, get_token_payload,
}
use pulsar_relay.Api.Sessions.Barred.{Call, run, MadeBy, IsBarred, is_revoked_self, run-IsBarred}
use pulsar_relay.Api.Sessions.{no_content, deny_list, after_payload, logout}

-- A logout that is answered with a 204 has put the token on the list.
deny-starts :
    (now : ℕ) (st : Access) (payload : TokenPayload) (jti : String) (t : ℕ)
    (denylist : Option Denylist)
    → (deny_list now st payload (some jti) denylist).1 ≡ no_content
    → t + second ≤ seconds payload.exp
    → IsBarred jti t (deny_list now st payload (some jti) denylist).0
unfolding deny_list seconds_until_exp Denylist.add
deny-starts now st payload jti t none done early = absurd (ground arith)
deny-starts now st payload jti t (some revoked) done early = record {
  revoked = Denylist.add now revoked jti (seconds_until_exp now payload.exp);
  expiry = now + seconds (seconds_until_exp now payload.exp);
  listed = refl;
  there = ground (
    arith,
    get-put revoked jti jti (now + seconds (seconds_until_exp now payload.exp)),
    eq_iff jti jti,
  );
  long = omega arith;
}

-- Whoever is let in is let in with the claims that the token has.
abbrev Claims : TokenPayload → Admission TokenPayload → Type 0
Claims payload (denied e) = Unit
Claims payload (granted p) = p ≡ payload

verdict-Claims : (payload : TokenPayload) (hit : Bool) → Claims payload (verdict_on payload hit)
unfolding verdict_on
verdict-Claims payload true = tt
verdict-Claims payload false = refl

check-Claims :
    (now : ℕ) (st : Access) (payload : TokenPayload) (claimed : Option String)
    (denylist : Option Denylist)
    → Claims payload (check_denylist now st payload claimed denylist).1
unfolding check_denylist
check-Claims now st payload none denylist = refl
check-Claims now st payload (some jti) none = refl
check-Claims now st payload (some jti) (some revoked) = verdict-Claims payload _

after-starts :
    (now : ℕ) (answer : Access × Admission TokenPayload) (payload : TokenPayload) (jti : String)
    (t : ℕ)
    → Claims payload answer.1
    → payload.jti ≡ some jti
    → (after_payload now answer).1 ≡ no_content
    → t + second ≤ seconds payload.exp
    → IsBarred jti t (after_payload now answer).0
unfolding after_payload
after-starts now (st, denied e) payload jti t same has done early = absurd (ground arith)
after-starts now (st, granted p) payload jti t same has done early =
    subst
      (λ claimed.
        (deny_list now st p claimed st.denylist).1 ≡ no_content
        → IsBarred jti t (deny_list now st p claimed st.denylist).0)
      (sym (ap (λ q. q.jti) same ∙ has))
      (λ done'. deny-starts now st p jti t st.denylist done' (rw same early)) done

logout-starts :
    (jwt : Jwt) (now : ℕ) (st : Access) (token : String) (payload : TokenPayload) (jti : String)
    (t : ℕ)
    → jwt.decode now token ≡ some payload
    → payload.jti ≡ some jti
    → (logout jwt now st token).1 ≡ no_content
    → t + second ≤ seconds payload.exp
    → IsBarred jti t (logout jwt now st token).0
unfolding logout get_token_payload after_decode decode_token
logout-starts jwt now st token payload jti t decoded has done early =
    after-starts now (get_token_payload jwt now st token) payload jti t
      (rw decoded (check-Claims now st payload payload.jti st.denylist)) has done early

invalid_refused :
    (jwt : Jwt) (t : ℕ) (st : Access) (token : String)
    → jwt.decode t token ≡ none
    → (get_token_payload jwt t st token).1 ≡ denied invalid_token
unfolding get_token_payload after_decode decode_token
invalid_refused jwt t st token invalid = rw invalid refl

found_revoked :
    (t : ℕ) (st : Access) (payload : TokenPayload) (jti : String)
    → payload.jti ≡ some jti
    → IsBarred jti t st
    → (check_denylist t st payload payload.jti st.denylist).1 ≡ denied revoked_token
unfolding check_denylist verdict_on
found_revoked t st payload jti has b =
    rw (has, b.listed, is_revoked_self t b.revoked jti jti b.expiry b.long (beq_self jti) b.there)
      refl

-- A barred token is turned away.
barred_refused :
    (jwt : Jwt) (t : ℕ) (st : Access) (token : String) (payload : TokenPayload) (jti : String)
    → IsSound jwt
    → (a : ℕ) → jwt.decode a token ≡ some payload
    → payload.jti ≡ some jti
    → IsBarred jti t st
    → ((get_token_payload jwt t st token).1 ≡ denied revoked_token)
      ⊎ ((get_token_payload jwt t st token).1 ≡ denied invalid_token)
unfolding get_token_payload after_decode decode_token check_denylist verdict_on
barred_refused jwt t st token payload jti sound a decoded has b =
    elim (Option-cases (jwt.decode t token)) [
      | inl invalid ↦ inr (invalid_refused jwt t st token invalid)
      | inr (claims, valid) ↦
          let same = sound.same_claims token t a claims payload valid decoded in
          inl (rw valid (found_revoked t st claims jti (ap (λ p. p.jti) same ∙ has) b))
    ]

-- PyJWT keeps a token's claims and its `exp`. A token with a `jti` that is logged out with a 204 at
-- time `now` is refused at every time `t`, except in the last second before its `exp`: in between
-- the relay may have been sent any requests and any further logouts, with this token and with
-- others, all of them by `t`.
pub logged_out_refused :
    (jwt : Jwt) (now t : ℕ) (st : Access) (token : String) (payload : TokenPayload) (jti : String)
    (calls : List Call)
    → IsSound jwt
    → jwt.decode now token ≡ some payload
    → payload.jti ≡ some jti
    → (logout jwt now st token).1 ≡ no_content
    → MadeBy t calls
    → (t + second ≤ seconds payload.exp) ⊎ (seconds payload.exp ≤ t)
    → ((get_token_payload jwt t (run jwt (logout jwt now st token).0 calls) token).1
        ≡ denied revoked_token)
      ⊎ ((get_token_payload jwt t (run jwt (logout jwt now st token).0 calls) token).1
          ≡ denied invalid_token)
logged_out_refused jwt now t st token payload jti calls sound decoded has done made (inl early) =
    barred_refused jwt t _ token payload jti sound now decoded has (
      run-IsBarred jti t jwt calls _ made
        (logout-starts jwt now st token payload jti t decoded has done early))
logged_out_refused jwt now t st token payload jti calls sound decoded has done made (inr over) =
    inr (invalid_refused jwt t _ token (sound.expires token now t payload decoded over))
