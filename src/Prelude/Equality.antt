-- ===== src/Prelude/Equality.antt =====
-- Equality tests of Python's `==`, as an interface with instances for texts, numbers and pairs.
use Prim.Native.Nat.{ℕ}
use Prim.Native.String.{String}
use mathlib.Core.Path.{◌≡◌, refl}
use mathlib.Core.Logic.{◌↔◌}
use mathlib.Core.Bool.{Bool, true, ◌&&◌}
use text.Mathlib.Text.{◌==◌ as str_beq}
use text.Mathlib.TextEquality.{eq_iff}
use native.Mathlib.Omega.{arith}
use pulsar_relay.Prelude.Tests.{nat_beq, nat_beq_iff}

-- A type with an equality test that decides its paths.
pub record Eq {ℓ} (A : Type ℓ) : Type ℓ where
  pub beq : A → A → Bool
  pub beq_iff : (x y : A) → (beq x y ≡ true) ↔ (x ≡ y)

pub beq_self {ℓ} : {A : Type ℓ} ⦃eq : Eq A⦄ (x : A) → eq.beq x x ≡ true
beq_self ⦃eq⦄ x = (eq.beq_iff x x).1 refl

abbrev pub pair_beq {ℓ κ} : {A : Type ℓ} {B : Type κ} → Eq A → Eq B → A × B → A × B → Bool
pair_beq e f p q = e.beq p.0 q.0 && f.beq p.1 q.1

pub pair_beq_iff {ℓ κ} :
    {A : Type ℓ} {B : Type κ} (e : Eq A) (f : Eq B) (p q : A × B)
    → (pair_beq e f p q ≡ true) ↔ (p ≡ q)
pair_beq_iff e f p q = ground (arith, e.beq_iff p.0 q.0, f.beq_iff p.1 q.1)

infix 50 ◌==◌
abbrev pub ◌==◌ {κ} : {K : Type κ} → ⦃eq : Eq K⦄ → K → K → Bool
◌==◌ ⦃eq⦄ j k = eq.beq j k

instance abbrev pub string_eq : Eq String
string_eq = record { beq = str_beq; beq_iff = eq_iff }

-- The test on pairs of texts, such as the keys (owner_id, topic_name).
abbrev pub texts_beq : String × String → String × String → Bool
texts_beq p q = str_beq p.0 q.0 && str_beq p.1 q.1

pub texts_iff : (p q : String × String) → (texts_beq p q ≡ true) ↔ (p ≡ q)
texts_iff = pair_beq_iff string_eq string_eq

instance abbrev pub nat_eq : Eq ℕ
nat_eq = record { beq = nat_beq; beq_iff = nat_beq_iff }

instance abbrev pub pair_eq {ℓ κ} : {A : Type ℓ} {B : Type κ} ⦃e : Eq A⦄ ⦃f : Eq B⦄ → Eq (A × B)
pair_eq ⦃e⦄ ⦃f⦄ = record { beq = pair_beq e f; beq_iff = pair_beq_iff e f }
