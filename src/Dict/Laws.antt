-- ===== src/Dict/Laws.antt =====
-- What a `dict` and a `set` hold after each operation.
use pulsar_relay.Prelude.{
  ◌+◌, ◌≤◌, ◌≡◌, refl, not, ◌&&◌, ◌||◌, none, some, List, [], ◌∷◌, arith, if◌then◌else◌, length, Eq,
  ◌==◌,
}
use pulsar_relay.Dict.{true, get, put, remove, contains, member, add, discard}

module _ {ℓ κ} {K : Type ℓ} {V : Type κ} ⦃e : Eq K⦄ where
  pub get-put :
      (d : List (K × V)) (k j : K) (v : V)
      → get (put d k v) j ≡ (if k == j then some v else get d j)
  unfolding get put
  get-put [] k j v = refl
  get-put ((i, w) ∷ d) k j v =
      ground (arith, e.beq_iff i k, e.beq_iff i j, e.beq_iff k j, get-put d k j v)

  pub get-remove :
      (d : List (K × V)) (k j : K) → get (remove d k) j ≡ (if k == j then none else get d j)
  unfolding get remove
  get-remove [] k j = ground arith
  get-remove ((i, w) ∷ d) k j =
      ground (arith, e.beq_iff i k, e.beq_iff i j, e.beq_iff k j, get-remove d k j)

  pub length-put :
      (d : List (K × V)) (k : K) (v : V)
      → length (put d k v) ≡ (if contains d k then length d else length d + 1)
  unfolding get put
  length-put [] k v = refl
  length-put ((i, w) ∷ d) k v = ground (arith, length-put d k v)

  pub length-remove-le : (d : List (K × V)) (k : K) → length (remove d k) ≤ length d
  unfolding remove
  length-remove-le [] k = omega arith
  length-remove-le ((i, w) ∷ d) k = ground (arith, length-remove-le d k)

module _ {ℓ} {A : Type ℓ} ⦃e : Eq A⦄ where
  pub member-add : (s : List A) (x y : A) → member (add s x) y ≡ (x == y || member s y)
  unfolding add member
  member-add s x y = ground (arith, e.beq_iff x y)

  pub member-discard :
      (s : List A) (x y : A) → member (discard s x) y ≡ (not (x == y) && member s y)
  unfolding discard member
  member-discard [] x y = ground arith
  member-discard (z ∷ s) x y =
      ground (arith, e.beq_iff z x, e.beq_iff z y, e.beq_iff x y, member-discard s x y)

  pub member-cons_self : (x : A) (s : List A) → member (x ∷ s) x ≡ true
  unfolding member
  member-cons_self x s = ground (arith, e.beq_iff x x)

  pub member-cons_of_member :
      (y : A) (s : List A) (x : A) → member s x ≡ true → member (y ∷ s) x ≡ true
  unfolding member
  member-cons_of_member y s x h = ground arith
