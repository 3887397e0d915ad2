-- ===== src/Auth/OidcState/SingleUse.antt =====
-- A login state is answered once, and only within its time.
use pulsar_relay.Prelude.{
  ℕ, ◌+◌, String, eq_iff, ◌≡◌, refl, ◌∙◌, ◌≢◌, Option, none, some, List, [], ◌∷◌, arith, leb,
  if◌then◌else◌, beq_self, nat_eq, string_eq, pair_eq, All,
}
use pulsar_relay.Dict
use pulsar_relay.Dict.Laws.{get-put, get-remove}
use pulsar_relay.Auth.OidcState.{
  OidcStateRecord, OidcStates, Drawn, LoginRequest, new_record, create, consume,
}

pub data Call : Type 0 where
  creates : Drawn → ℕ → LoginRequest → Call
  consumes : ℕ → String → Call

unfoldable pub step : OidcStates → Call → OidcStates
step records (creates drawn now request) = (create records drawn now request).0
step records (consumes now state) = (consume records now state).0

unfoldable pub run : OidcStates → List Call → OidcStates
unfolding step
run records [] = records
run records (c ∷ calls) = run (step records c) calls

-- The call neither draws nor consumes the state.
abbrev pub Spares : String → Call → Type 0
Spares state (creates drawn now request) = drawn.state ≢ state
Spares state (consumes now other) = other ≢ state

-- The call does not draw the state.
abbrev pub NotDrawn : String → Call → Type 0
NotDrawn state (creates drawn now request) = drawn.state ≢ state
NotDrawn state (consumes now other) = Unit

get-step :
    (records : OidcStates) (c : Call) (state : String)
    → Spares state c
    → Dict.get (step records c) state ≡ Dict.get records state
unfolding step create consume
get-step records (creates drawn now request) state ne = ground (
  arith,
  get-put records drawn.state state (new_record drawn now request),
  eq_iff drawn.state state,
)
get-step records (consumes now other) state ne =
    ground (arith, get-remove records other state, eq_iff other state)

get-run :
    (records : OidcStates) (calls : List Call) (state : String)
    → All (Spares state) calls
    → Dict.get (run records calls) state ≡ Dict.get records state
unfolding run
get-run records [] state s = refl
get-run records (c ∷ calls) state s =
    get-run (step records c) calls state s.1 ∙ get-step records c state s.0

gone-step :
    (records : OidcStates) (c : Call) (state : String)
    → NotDrawn state c
    → Dict.get records state ≡ none
    → Dict.get (step records c) state ≡ none
unfolding step create consume
gone-step records (creates drawn now request) state ne gone = ground (
  arith,
  get-put records drawn.state state (new_record drawn now request),
  eq_iff drawn.state state,
)
gone-step records (consumes now other) state ne gone =
    ground (arith, get-remove records other state)

gone-run :
    (records : OidcStates) (calls : List Call) (state : String)
    → All (NotDrawn state) calls
    → Dict.get records state ≡ none
    → Dict.get (run records calls) state ≡ none
unfolding run
gone-run records [] state s gone = gone
gone-run records (c ∷ calls) state s gone =
    gone-run (step records c) calls state s.1 (gone-step records c state s.0 gone)

consume_of_get :
    (records : OidcStates) (now : ℕ) (state : String) (found : Option OidcStateRecord)
    → Dict.get records state ≡ found
    → (consume records now state).1
      ≡ elim found [ none ↦ none | some r ↦ if leb r.expires_at now then none else some r ]
unfolding consume
consume_of_get records now state none e = rw (e, consume) refl
consume_of_get records now state (some r) e = ground arith

-- A login state that is created at `now` is answered at `t`, after any calls for other states, with
-- exactly its own record while `t` is before `now + ttl`, and not at all from then on.
pub consume-create :
    (records : OidcStates) (drawn : Drawn) (now : ℕ) (request : LoginRequest) (calls : List Call)
    (t : ℕ)
    → All (Spares drawn.state) calls
    → (consume (run (create records drawn now request).0 calls) t drawn.state).1
      ≡ (if leb (now + request.ttl) t then none else some (create records drawn now request).1)
unfolding create new_record
consume-create records drawn now request calls t s =
    consume_of_get _ t drawn.state (some (new_record drawn now request)) (
      get-run _ calls drawn.state s
      ∙ (get-put records drawn.state drawn.state (new_record drawn now request)
          ∙ rw (beq_self drawn.state) refl))

gone-consume :
    (records : OidcStates) (now : ℕ) (state : String)
    → Dict.get (consume records now state).0 state ≡ none
unfolding consume
gone-consume records now state = ground (arith, get-remove records state state, eq_iff state state)

-- After a login state has been consumed, whatever the answer was, no later attempt to consume it is
-- answered, whatever calls are made in between, if the state is not drawn again.
pub consumed_once :
    (records : OidcStates) (state : String) (now t : ℕ) (calls : List Call)
    → All (NotDrawn state) calls
    → (consume (run (consume records now state).0 calls) t state).1 ≡ none
consumed_once records state now t calls s =
    consume_of_get _ t state none (gone-run _ calls state s (gone-consume records now state))
