-- ===== src/Api/Sessions/Barred.antt =====
-- A token on the deny-list, through any requests.
use pulsar_relay.Prelude.{
  ℕ, ◌+◌, ◌≤◌, String, eq_iff, ◌≡◌, refl, ap, ◌∙◌, inl, inr, Bool, true, false, Option, none, some,
  List, [], ◌∷◌, arith, Bool-cases, Option-cases, ◌==◌, nat_eq, string_eq, pair_eq,
}
use pulsar_relay.Clock.{seconds}
use pulsar_relay.Dict
use pulsar_relay.Dict.Laws.{get-put, get-remove}
use pulsar_relay.Auth.Denylist
use pulsar_relay.Auth.Denylist.{Denylist, seconds_until_exp}
use pulsar_relay.Auth.Jwt.{TokenPayload, Jwt, decode_token}
use pulsar_relay.Auth.Access.{
  Access, Admission, granted, denied, verdict_on, check_denylist, after_decode, get_token_payload,
}
use pulsar_relay.Api.Sessions.{deny_list, after_payload, logout}

-- A request with a token: it only presents the token, or logs out with it.
pub data Call : Type 0 where
  presents : ℕ → String → Call
  logs_out : ℕ → String → Call

unfoldable pub step : Jwt → Access → Call → Access
step jwt st (presents now token) = (get_token_payload jwt now st token).0
step jwt st (logs_out now token) = (logout jwt now st token).0

unfoldable pub run : Jwt → Access → List Call → Access
unfolding step
run jwt st [] = st
run jwt st (c ∷ calls) = run jwt (step jwt st c) calls

abbrev pub MadeBy : ℕ → List Call → Type 0
MadeBy limit [] = Unit
MadeBy limit (presents now token ∷ calls) = (now ≤ limit) × MadeBy limit calls
MadeBy limit (logs_out now token ∷ calls) = (now ≤ limit) × MadeBy limit calls

-- The deny-list holds the token until `limit` at least.
pub record IsBarred (jti : String) (limit : ℕ) (st : Access) : Type 0 where
  pub revoked : Denylist
  pub expiry : ℕ
  pub listed : st.denylist ≡ some revoked
  pub there : Dict.get revoked jti ≡ some expiry
  pub long : limit ≤ expiry

-- Looking a token up before the entry's end drops nothing of it, and finds it.
is_revoked-keeps :
    (now : ℕ) (revoked : Denylist) (jti other : String) (expiry : ℕ)
    → now ≤ expiry
    → Dict.get revoked jti ≡ some expiry
    → Dict.get (Denylist.is_revoked now revoked other).0 jti ≡ some expiry
unfolding Denylist.is_revoked
is_revoked-keeps now revoked jti other expiry early there =
    ground (arith, get-remove revoked other jti, eq_iff other jti)

pub is_revoked_self :
    (now : ℕ) (revoked : Denylist) (jti other : String) (expiry : ℕ)
    → now ≤ expiry
    → (other == jti) ≡ true
    → Dict.get revoked jti ≡ some expiry
    → (Denylist.is_revoked now revoked other).1 ≡ true
unfolding Denylist.is_revoked
is_revoked_self now revoked jti other expiry early same there = ground (arith, eq_iff other jti)

add-other :
    (now : ℕ) (revoked : Denylist) (jti other : String) (ttl expiry : ℕ)
    → (other == jti) ≡ false
    → Dict.get revoked jti ≡ some expiry
    → Dict.get (Denylist.add now revoked other ttl) jti ≡ some expiry
unfolding Denylist.add
add-other now revoked jti other ttl expiry differs there =
    ground (arith, get-put revoked other jti (now + seconds ttl))

-- The dependency lets no token of that `jti` in.
abbrev pub Passes : String → Admission TokenPayload → Type 0
Passes jti (denied e) = Unit
Passes jti (granted payload) = payload.jti ≡ some jti → ⊥

abbrev pub Checked : String → ℕ → Access × Admission TokenPayload → Type 0
Checked jti limit (st, answer) = IsBarred jti limit st × Passes jti answer

other_jti :
    (jti other : String) (payload : TokenPayload)
    → payload.jti ≡ some other
    → Passes jti (granted payload)
    → (other == jti) ≡ false
other_jti jti other payload has passes = elim (Bool-cases (other == jti)) [
  | inl same ↦ absurd (passes (has ∙ ap some (ground (arith, eq_iff other jti))))
  | inr differs ↦ differs
]

verdict-Passes :
    (jti other : String) (payload : TokenPayload) (hit : Bool)
    → payload.jti ≡ some other
    → (other == jti) ≡ false
    → Passes jti (verdict_on payload hit)
unfolding verdict_on
verdict-Passes jti other payload true has differs = tt
verdict-Passes jti other payload false has differs = λ same. ground (arith, eq_iff other jti)

module _ (jti : String) (limit now : ℕ) where
  found-Checked :
      (st : Access) (payload : TokenPayload) (other : String) (revoked : Denylist) (expiry : ℕ)
      → now ≤ limit
      → payload.jti ≡ some other
      → Dict.get revoked jti ≡ some expiry
      → limit ≤ expiry
      → Checked jti limit (check_denylist now st payload (some other) (some revoked))
  unfolding check_denylist verdict_on
  found-Checked st payload other revoked expiry early has there long = (
    record {
      revoked = (Denylist.is_revoked now revoked other).0;
      expiry = expiry;
      listed = refl;
      there = is_revoked-keeps now revoked jti other expiry (omega arith) there;
      long = long;
    },
    elim (Bool-cases (other == jti)) [
      | inl same ↦ rw (is_revoked_self now revoked jti other expiry (omega arith) same there) tt
      | inr differs ↦ verdict-Passes jti other payload _ has differs
    ],
  )

  check-Checked :
      (st : Access) (payload : TokenPayload) (claimed : Option String)
      → now ≤ limit
      → payload.jti ≡ claimed
      → IsBarred jti limit st
      → Checked jti limit (check_denylist now st payload claimed st.denylist)
  unfolding check_denylist
  check-Checked st payload none early has b = (b, λ same. ground arith)
  check-Checked st payload (some other) early has b =
      rw b.listed (found-Checked st payload other b.revoked b.expiry early has b.there b.long)

  payload-Checked :
      (jwt : Jwt) (st : Access) (token : String)
      → now ≤ limit
      → IsBarred jti limit st
      → Checked jti limit (get_token_payload jwt now st token)
  unfolding get_token_payload after_decode decode_token
  payload-Checked jwt st token early b = elim (Option-cases (jwt.decode now token)) [
    | inl invalid ↦ rw invalid (b, tt)
    | inr (payload, decoded) ↦ rw decoded (check-Checked st payload payload.jti early refl b)
  ]

  deny-IsBarred :
      (st : Access) (payload : TokenPayload) (claimed : Option String)
      → payload.jti ≡ claimed
      → Passes jti (granted payload)
      → IsBarred jti limit st
      → IsBarred jti limit (deny_list now st payload claimed st.denylist).0
  unfolding deny_list
  deny-IsBarred st payload none has p b = b
  deny-IsBarred st payload (some other) has p b = rw b.listed (record {
    revoked = Denylist.add now b.revoked other (seconds_until_exp now payload.exp);
    expiry = b.expiry;
    listed = refl;
    there =
        add-other now b.revoked jti other (seconds_until_exp now payload.exp) b.expiry
          (other_jti jti other payload has p) b.there;
    long = b.long;
  })

  after-IsBarred :
      (answer : Access × Admission TokenPayload)
      → Checked jti limit answer
      → IsBarred jti limit (after_payload now answer).0
  unfolding after_payload
  after-IsBarred (st, denied e) c = c.0
  after-IsBarred (st, granted payload) c = deny-IsBarred st payload payload.jti refl c.1 c.0

  step-IsBarred :
      (jwt : Jwt) (st : Access) (token : String)
      → now ≤ limit
      → IsBarred jti limit st
      → IsBarred jti limit (logout jwt now st token).0
  unfolding logout
  step-IsBarred jwt st token early b =
      after-IsBarred (get_token_payload jwt now st token) (payload-Checked jwt st token early b)

pub run-IsBarred :
    (jti : String) (limit : ℕ) (jwt : Jwt) (calls : List Call) (st : Access)
    → MadeBy limit calls
    → IsBarred jti limit st
    → IsBarred jti limit (run jwt st calls)
unfolding run step
run-IsBarred jti limit jwt [] st m b = b
run-IsBarred jti limit jwt (presents now token ∷ calls) st m b =
    run-IsBarred jti limit jwt calls _ m.1 (payload-Checked jti limit now jwt st token m.0 b).0
run-IsBarred jti limit jwt (logs_out now token ∷ calls) st m b =
    run-IsBarred jti limit jwt calls _ m.1 (step-IsBarred jti limit now jwt st token m.0 b)
