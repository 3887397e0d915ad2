-- ===== src/Dict/Multi.antt =====
-- A `dict` of sets: an index from keys to the values filed under them.
use pulsar_relay.Prelude.{
  ◌≡◌, refl, ◌≢◌, Bool, not, ◌&&◌, ◌||◌, none, some, List, [], ◌∷◌, arith, if◌then◌else◌, Eq, ◌==◌,
}
use pulsar_relay.Dict.{get, put, remove, member, add, discard}
use pulsar_relay.Dict.Laws.{get-put, get-remove, member-add, member-discard}

module _ {ℓ} {A : Type ℓ} ⦃f : Eq A⦄ where
  add-ne-nil : (s : List A) (x : A) → add s x ≢ []
  unfolding add member
  add-ne-nil [] x = ground arith
  add-ne-nil (y ∷ s) x = ground arith

module _ {ℓ κ} {K : Type ℓ} {A : Type κ} ⦃e : Eq K⦄ where
  -- d.get(k, set())
  unfoldable pub members : List (K × List A) → K → List A
  members d k = elim (get d k) [ none ↦ [] | some s ↦ s ]

  -- No key is left with an empty set.
  abbrev pub IsPruned : List (K × List A) → Type (ℓ ⊔ κ)
  IsPruned d = (k : K) → get d k ≢ some []

module _ {ℓ κ} {K : Type ℓ} {A : Type κ} ⦃e : Eq K⦄ ⦃f : Eq A⦄ where
  -- x in d.get(k, set())
  unfoldable pub has : List (K × List A) → K → A → Bool
  unfolding members
  has d k x = member (members d k) x

  pub member-members : (d : List (K × List A)) (k : K) (x : A) → member (members d k) x ≡ has d k x
  unfolding has
  member-members d k x = refl

  -- d.setdefault(k, set()).add(x)
  unfoldable pub file : List (K × List A) → K → A → List (K × List A)
  unfolding members
  file d k x = put d k (add (members d k) x)

  -- if k in d: d[k].discard(x)
  unfoldable pub discard_at : List (K × List A) → K → A → List (K × List A)
  discard_at d k x = elim (get d k) [ none ↦ d | some s ↦ put d k (discard s x) ]

  -- if k in d: d[k].discard(x); if not d[k]: del d[k]
  unfoldable pub put_or_drop : List (K × List A) → K → List A → List (K × List A)
  put_or_drop d k [] = remove d k
  put_or_drop d k (y ∷ s) = put d k (y ∷ s)

  unfoldable pub unfile : List (K × List A) → K → A → List (K × List A)
  unfolding put_or_drop
  unfile d k x = elim (get d k) [ none ↦ d | some s ↦ put_or_drop d k (discard s x) ]

  pub has-file :
      (d : List (K × List A)) (k : K) (x : A) (j : K) (y : A)
      → has (file d k x) j y ≡ ((k == j && x == y) || has d j y)
  unfolding has file
  has-file d k x j y =
      ground
        (arith, get-put d k j (add (members d k) x), member-add (members d k) x y, e.beq_iff k j)

  pub has-discard_at :
      (d : List (K × List A)) (k : K) (x : A) (j : K) (y : A)
      → has (discard_at d k x) j y ≡ (not (k == j && x == y) && has d j y)
  unfolding has discard_at member
  has-discard_at d k x j y = ground (
    arith,
    get-put d k j (discard (members d k) x),
    member-discard (members d k) x y,
    e.beq_iff k j,
  )

  has-put_or_drop :
      (d : List (K × List A)) (k : K) (s : List A) (j : K) (y : A)
      → has (put_or_drop d k s) j y ≡ (if k == j then member s y else has d j y)
  unfolding has put_or_drop member
  has-put_or_drop d k [] j y = ground (arith, get-remove d k j)
  has-put_or_drop d k (z ∷ s) j y = ground (arith, get-put d k j (z ∷ s))

  pub has-unfile :
      (d : List (K × List A)) (k : K) (x : A) (j : K) (y : A)
      → has (unfile d k x) j y ≡ (not (k == j && x == y) && has d j y)
  unfolding has unfile member
  has-unfile d k x j y = ground (
    arith,
    has-put_or_drop d k (discard (members d k) x) j y,
    member-discard (members d k) x y,
    e.beq_iff k j,
  )

  pub file-IsPruned : (d : List (K × List A)) (k : K) (x : A) → IsPruned d → IsPruned (file d k x)
  unfolding file
  file-IsPruned d k x h j =
      ground (arith, get-put d k j (add (members d k) x), add-ne-nil (members d k) x, h j)

  put_or_drop-IsPruned :
      (d : List (K × List A)) (k : K) (s : List A) → IsPruned d → IsPruned (put_or_drop d k s)
  unfolding put_or_drop
  put_or_drop-IsPruned d k [] h j = ground (arith, get-remove d k j, h j)
  put_or_drop-IsPruned d k (z ∷ s) h j = ground (arith, get-put d k j (z ∷ s), h j)

  pub unfile-IsPruned :
      (d : List (K × List A)) (k : K) (x : A) → IsPruned d → IsPruned (unfile d k x)
  unfolding unfile members
  unfile-IsPruned d k x h j =
      ground (arith, put_or_drop-IsPruned d k (discard (members d k) x) h j, h j)
