-- ===== src/Dict.antt =====
-- Python's `dict`: a list of entries in the order of their first insertion, and a `set` as a list
-- without order. The keys' equality is an instance.
use pulsar_relay.Prelude.{
  ℕ, ◌≡◌, Bool, true, false, ◌||◌, Option, none, some, List, [], ◌∷◌, if◌then◌else◌, length, Eq,
  ◌==◌,
}
pub mod Laws
pub mod Keys
pub mod Multi
pub mod Distinct

module _ {ℓ κ} {K : Type ℓ} {V : Type κ} ⦃e : Eq K⦄ where
  -- d.get(k)
  unfoldable pub get : List (K × V) → K → Option V
  get [] k = none
  get ((j, v) ∷ d) k = if j == k then some v else get d k

  -- k in d
  abbrev pub contains : List (K × V) → K → Bool
  contains d k = elim (get d k) [ none ↦ false | some _ ↦ true ]

  -- d[k] = v: a new key goes to the end, a known one keeps its place
  unfoldable pub put : List (K × V) → K → V → List (K × V)
  put [] k v = (k, v) ∷ []
  put ((j, w) ∷ d) k v = if j == k then (j, v) ∷ d else (j, w) ∷ put d k v

  -- d.pop(k, None), del d[k]
  unfoldable pub remove : List (K × V) → K → List (K × V)
  remove [] k = []
  remove ((j, v) ∷ d) k = let rest = remove d k in if j == k then rest else (j, v) ∷ rest

-- Sets.
module _ {ℓ} {A : Type ℓ} ⦃e : Eq A⦄ where
  -- x in s
  unfoldable pub member : List A → A → Bool
  member [] x = false
  member (y ∷ s) x = (y == x) || member s x

  -- s.add(x)
  unfoldable pub add : List A → A → List A
  add s x = if member s x then s else x ∷ s

  -- s.discard(x)
  unfoldable pub discard : List A → A → List A
  discard [] x = []
  discard (y ∷ s) x = let rest = discard s x in if y == x then rest else y ∷ rest
