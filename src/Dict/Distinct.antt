-- ===== src/Dict/Distinct.antt =====
-- Lists that represent sets hold no value twice.
use pulsar_relay.Prelude.{
  ◌≡◌, inl, inr, false, some, List, [], ◌∷◌, arith, if◌then◌else◌, Bool-cases, Option-cases, Eq,
  ◌==◌, nat_eq, string_eq, pair_eq,
}
use pulsar_relay.Dict
use pulsar_relay.Dict.{contains, member, add, discard}
use pulsar_relay.Dict.Laws.{get-put, get-remove, member-discard}
use pulsar_relay.Dict.Multi.{members, file, put_or_drop, unfile}

module _ {ℓ} {A : Type ℓ} ⦃f : Eq A⦄ where
  abbrev pub Distinct : List A → Type 0
  Distinct [] = Unit
  Distinct (x ∷ s) = (member s x ≡ false) × Distinct s

  pub add-Distinct : (s : List A) (x : A) → Distinct s → Distinct (add s x)
  unfolding add
  add-Distinct s x h = elim (Bool-cases (member s x)) [
    | inl old ↦ rw (old, add) h
    | inr new ↦ rw (new, add) (new, h)
  ]

  pub discard-Distinct : (s : List A) (x : A) → Distinct s → Distinct (discard s x)
  unfolding discard
  discard-Distinct [] x h = h
  discard-Distinct (y ∷ s) x h = elim (Bool-cases (f.beq y x)) [
    | inl same ↦ rw (same, discard) (discard-Distinct s x h.1)
    | inr other ↦
        rw (other, discard) (ground (arith, member-discard s x y, h.0), discard-Distinct s x h.1)
  ]

module _ {ℓ κ} {K : Type ℓ} {A : Type κ} ⦃e : Eq K⦄ ⦃f : Eq A⦄ where
  -- Every set of the index is distinct.
  abbrev pub AllDistinct : List (K × List A) → Type ℓ
  AllDistinct d = (k : K) → Distinct (members d k)

  pub members-put :
      (d : List (K × List A)) (k j : K) (s : List A)
      → members (Dict.put d k s) j ≡ (if k == j then s else members d j)
  unfolding members
  members-put d k j s = ground (arith, get-put d k j s)

  members-remove :
      (d : List (K × List A)) (k j : K)
      → members (Dict.remove d k) j ≡ (if k == j then [] else members d j)
  unfolding members
  members-remove d k j = ground (arith, get-remove d k j)

  pub put-AllDistinct :
      (d : List (K × List A)) (k : K) (s : List A)
      → Distinct s
      → AllDistinct d
      → AllDistinct (Dict.put d k s)
  put-AllDistinct d k s hs h j = elim (Bool-cases (e.beq k j)) [
    | inl same ↦ rw (members-put d k j s, same) hs
    | inr other ↦ rw (members-put d k j s, other) (h j)
  ]

  pub remove-AllDistinct :
      (d : List (K × List A)) (k : K) → AllDistinct d → AllDistinct (Dict.remove d k)
  remove-AllDistinct d k h j = elim (Bool-cases (e.beq k j)) [
    | inl same ↦ rw (members-remove d k j, same) tt
    | inr other ↦ rw (members-remove d k j, other) (h j)
  ]

  pub file-AllDistinct :
      (d : List (K × List A)) (k : K) (x : A) → AllDistinct d → AllDistinct (file d k x)
  unfolding file
  file-AllDistinct d k x h = put-AllDistinct d k _ (add-Distinct (members d k) x (h k)) h

  pub put_or_drop-AllDistinct :
      (d : List (K × List A)) (k : K) (s : List A)
      → Distinct s
      → AllDistinct d
      → AllDistinct (put_or_drop d k s)
  unfolding put_or_drop
  put_or_drop-AllDistinct d k [] hs h = remove-AllDistinct d k h
  put_or_drop-AllDistinct d k (x ∷ s) hs h = put-AllDistinct d k (x ∷ s) hs h

  pub members_of_get :
      (d : List (K × List A)) (k : K) {s : List A} → Dict.get d k ≡ some s → members d k ≡ s
  unfolding members
  members_of_get d k h = rw (h, members)

  pub unfile-AllDistinct :
      (d : List (K × List A)) (k : K) (x : A) → AllDistinct d → AllDistinct (unfile d k x)
  unfolding unfile
  unfile-AllDistinct d k x h = elim (Option-cases (Dict.get d k)) [
    | inl missing ↦ rw (missing, unfile) h
    | inr (s, found) ↦
        rw (found, unfile)
          (put_or_drop-AllDistinct d k _
            (discard-Distinct s x (rw (members_of_get d k found) at (h k))) h)
  ]
