-- ===== src/Dict/Keys.antt =====
-- A `dict` holds a key once; how many of its values pass a test.
use pulsar_relay.Prelude.{
  ℕ, suc, ◌+◌, ◌≡◌, refl, inl, inr, Bool, false, not, ◌&&◌, ◌||◌, some, List, [], ◌∷◌, arith,
  if◌then◌else◌, Bool-cases, Eq, ◌==◌, nat_eq, string_eq, pair_eq,
}
use pulsar_relay.Dict
use pulsar_relay.Dict.{contains, member, add, discard}
use pulsar_relay.Dict.Laws.{get-put, get-remove}

module _ {ℓ κ} {K : Type ℓ} {V : Type κ} ⦃e : Eq K⦄ where
  abbrev pub DistinctKeys : List (K × V) → Type 0
  DistinctKeys [] = Unit
  DistinctKeys ((k, v) ∷ d) = (contains d k ≡ false) × DistinctKeys d

  pub contains-put :
      (d : List (K × V)) (k j : K) (v : V) → contains (Dict.put d k v) j ≡ (k == j || contains d j)
  contains-put d k j v = ground (arith, get-put d k j v)

  pub contains-remove :
      (d : List (K × V)) (k j : K) → contains (Dict.remove d k) j ≡ (not (k == j) && contains d j)
  contains-remove d k j = ground (arith, get-remove d k j)

  pub put-DistinctKeys :
      (d : List (K × V)) (k : K) (v : V) → DistinctKeys d → DistinctKeys (Dict.put d k v)
  unfolding Dict.put Dict.get
  put-DistinctKeys [] k v h = (refl, tt)
  put-DistinctKeys ((j, w) ∷ d) k v h = elim (Bool-cases (e.beq j k)) [
    | inl same ↦ rw (same, Dict.put) h
    | inr other ↦
        rw (other, Dict.put)
          (
            ground (arith, contains-put d k j v, h.0, e.beq_iff j k, e.beq_iff k j),
            put-DistinctKeys d k v h.1,
          )
  ]

  pub remove-DistinctKeys :
      (d : List (K × V)) (k : K) → DistinctKeys d → DistinctKeys (Dict.remove d k)
  unfolding Dict.remove
  remove-DistinctKeys [] k h = h
  remove-DistinctKeys ((j, w) ∷ d) k h = elim (Bool-cases (e.beq j k)) [
    | inl same ↦ rw (same, Dict.remove) (remove-DistinctKeys d k h.1)
    | inr other ↦
        rw (other, Dict.remove)
          (ground (arith, contains-remove d k j, h.0), remove-DistinctKeys d k h.1)
  ]

  -- How many values pass the test.
  unfoldable pub count_by : (V → Bool) → List (K × V) → ℕ
  count_by p [] = 0
  count_by p ((k, v) ∷ d) = let n = count_by p d in if p v then suc n else n

  pub count_by-put_new :
      (p : V → Bool) (d : List (K × V)) (k : K) (v : V)
      → contains d k ≡ false
      → count_by p (Dict.put d k v) ≡ count_by p d + (if p v then 1 else 0)
  unfolding count_by Dict.put Dict.get
  count_by-put_new p [] k v h = ground arith
  count_by-put_new p ((j, w) ∷ d) k v h = ground (arith, count_by-put_new p d k v)

  pub count_by-put_known :
      (p : V → Bool) (d : List (K × V)) (k : K) (v : V) {w : V}
      → Dict.get d k ≡ some w
      → p v ≡ p w
      → count_by p (Dict.put d k v) ≡ count_by p d
  unfolding count_by Dict.put Dict.get
  count_by-put_known p [] k v h same = cc
  count_by-put_known p ((j, x) ∷ d) k v {w} h same =
      ground (arith, count_by-put_known p d k v {w = w})

  remove-missing : (d : List (K × V)) (k : K) → contains d k ≡ false → Dict.remove d k ≡ d
  unfolding Dict.remove Dict.get
  remove-missing [] k h = refl
  remove-missing ((j, x) ∷ d) k h = ground (arith, remove-missing d k)

  pub count_by-remove :
      (p : V → Bool) (d : List (K × V)) (k : K) {v : V}
      → DistinctKeys d
      → Dict.get d k ≡ some v
      → count_by p (Dict.remove d k) + (if p v then 1 else 0) ≡ count_by p d
  unfolding count_by Dict.remove Dict.get
  count_by-remove p [] k h found = cc
  count_by-remove p ((j, x) ∷ d) k {v} h found =
      ground (arith, count_by-remove p d k {v = v}, remove-missing d k, e.beq_iff j k)
