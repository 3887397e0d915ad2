-- ===== src/Client/Publish/Keys.antt =====
-- All requests of a publication carry its one `Idempotency-Key`.
use pulsar_relay.Prelude.{ℕ, String, ◌≡◌, refl, some, List, [], ◌∷◌, ◌++◌, All}
use mathlib.Core.Path.{subst}
use pulsar_relay.Client.Auth.{AuthManager}
use pulsar_relay.Client.Publish.{Request, Environment, Publication, publish}
use pulsar_relay.Client.Publish.Rule.{GoodLeft, publish-Good}
use pulsar_relay.Client.Retry.Rule.{GoodAttempt-always}

All-append_one {ℓ κ} :
    {A : Type ℓ} (P : A → Type κ) (xs : List A) (x : A) → All P xs → P x → All P (xs ++ x ∷ [])
All-append_one P [] x h p = (p, tt)
All-append_one P (y ∷ xs) x h p = (h.0, All-append_one P xs x h.1 p)

abbrev pub Carries {ℓ} : {B : Type ℓ} → String → B → Request B → Type ℓ
Carries key body request = (request.idempotency_key ≡ key) × (request.body ≡ body)

module _ {ℓ} {S B R : Type ℓ} where
  -- The same environment with a log of the requests that were sent.
  abbrev pub logged : Environment S B R → Environment (S × List (Request B)) B R
  logged env = record {
    clock = λ st. env.clock st.0;
    authenticate = λ st. (((env.authenticate st.0).0, st.1), (env.authenticate st.0).1);
    post = λ request st.
        (((env.post request st.0).0, st.1 ++ request ∷ []), (env.post request st.0).1);
  }

  -- However often the requests of one publication are retried, over a failing network, after server
  -- errors and after a 401 with a new token, each of them carries the key that was drawn once
  -- for the publication, and the publication's body.
  pub publish_one_key :
      (env : Environment S B R) (fuel : ℕ) (key : String) (body : B) (m m' : AuthManager) (s s' : S)
      (log : List (Request B)) (result : Publication R)
      → publish (logged env) fuel key body m (s, []) ≡ some (m', ((s', log), result))
      → All (Carries key body) log
  publish_one_key env fuel key body m m' s s' log result left =
      (subst (GoodLeft (λ st. All (Carries key body) st.1) (λ status answer. Unit)) left (
        publish-Good (λ st. All (Carries key body) st.1) (λ status answer. Unit) (logged env) key
          body (λ st h. h)
          (λ token st h. (
            All-append_one (Carries key body) st.1 _ h (refl, refl),
            GoodAttempt-always {S = S × List (Request B)} (λ st'. All (Carries key body) st'.1)
                (λ status answer. Unit) (λ status answer. tt) _,
          ))
          fuel m (s, []) tt)).0
