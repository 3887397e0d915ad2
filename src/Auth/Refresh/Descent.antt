-- ===== src/Auth/Refresh/Descent.antt =====
-- The walk down a chain ends, and finds the root and all that descends from it.
use pulsar_relay.Prelude.{
  is_none, ℕ, zero, suc, ◌+◌, ◌≤◌, String, eq_iff, ◌≡◌, refl, inl, inr, true, false, Option, none,
  some, List, [], ◌∷◌, arith, if◌then◌else◌, Bool-cases, length, ◌==◌, nat_eq, string_eq, pair_eq,
  All,
}
use pulsar_relay.Dict
use pulsar_relay.Dict.{member}
use pulsar_relay.Dict.Multi.{members}
use pulsar_relay.Dict.Laws.{get-put}
use pulsar_relay.Auth.Refresh.{
  RefreshToken, parent_of, add_child, children, visit_one, visit, descend,
}

-- How many of the listed identifiers are outside of the chain.
abbrev unseen : List String → List String → ℕ
unseen [] chain = 0
unseen (x ∷ l) chain = let rest = unseen l chain in if member chain x then rest else suc rest

unseen-le : (l chain : List String) → unseen l chain ≤ length l
unseen-le [] chain = omega arith
unseen-le (x ∷ l) chain = ground (arith, unseen-le l chain)

unseen-cons_le : (l chain : List String) (j : String) → unseen l (j ∷ chain) ≤ unseen l chain
unfolding member
unseen-cons_le [] chain j = omega arith
unseen-cons_le (x ∷ l) chain j = ground (arith, unseen-cons_le l chain j)

unseen-cons_lt :
    (l chain : List String) (j : String)
    → member l j ≡ true
    → member chain j ≡ false
    → suc (unseen l (j ∷ chain)) ≤ unseen l chain
unfolding member
unseen-cons_lt [] chain j listed new = ground arith
unseen-cons_lt (x ∷ l) chain j listed new =
    ground (arith, unseen-cons_lt l chain j, unseen-cons_le l chain j, eq_iff x j, eq_iff j x)

visit_one-potential :
    (l chain frontier : List String) (j : String)
    → member l j ≡ true
    → unseen l (visit_one chain frontier j).0 + length (visit_one chain frontier j).1
      ≤ unseen l chain + length frontier
unfolding visit_one
visit_one-potential l chain frontier j listed = ground (arith, unseen-cons_lt l chain j listed)

visit-potential :
    (l chain frontier kids : List String)
    → All (λ j. member l j ≡ true) kids
    → unseen l (visit chain frontier kids).0 + length (visit chain frontier kids).1
      ≤ unseen l chain + length frontier
unfolding visit
visit-potential l chain frontier [] listed = omega arith
visit-potential l chain frontier (j ∷ kids) listed = omega (
  arith,
  visit-potential l (visit_one chain frontier j).0 (visit_one chain frontier j).1 kids listed.1,
  visit_one-potential l chain frontier j listed.0,
)

-- With the listed identifiers outside of the chain and the frontier as a bound the walk ends.
pub descend-ends :
    (fuel : ℕ) (l : List String) (kids : List (String × List String)) (chain frontier : List String)
    → ((p : String) → All (λ j. member l j ≡ true) (members kids p))
    → unseen l chain + length frontier ≤ fuel
    → is_none (descend fuel kids chain frontier) ≡ false
unfolding descend
descend-ends fuel l kids chain [] listed h = refl
descend-ends zero l kids chain (j ∷ frontier) listed h = ground arith
descend-ends (suc fuel) l kids chain (j ∷ frontier) listed h =
    descend-ends fuel l kids (visit chain frontier (members kids j)).0
      (visit chain frontier (members kids j)).1 listed
      (omega (arith, visit-potential l chain frontier (members kids j) (listed j)))

members-put :
    (d : List (String × List String)) (k j : String) (s : List String)
    → members (Dict.put d k s) j ≡ (if k == j then s else members d j)
unfolding members
members-put d k j s = ground (arith, get-put d k j s)

add_child-listed :
    (l : List String) (kids : List (String × List String)) (j : String) (parent : Option String)
    (p : String)
    → member l j ≡ true
    → ((q : String) → All (λ x. member l x ≡ true) (members kids q))
    → All (λ x. member l x ≡ true) (members (add_child kids j parent) p)
unfolding add_child
add_child-listed l kids j none p here listed = listed p
add_child-listed l kids j (some q) p here listed = elim (Bool-cases (q == "")) [
  | inl empty ↦ rw empty (listed p)
  | inr named ↦
      rw (named, members-put kids q p (j ∷ members kids q))
        (elim (Bool-cases (q == p)) [
          | inl same ↦ rw same (here, listed q)
          | inr other ↦ rw other (listed p)
        ])
]

pub children-listed :
    (tokens : List (String × RefreshToken)) (l jtis : List String) (p : String)
    → All (λ j. member l j ≡ true) jtis
    → All (λ j. member l j ≡ true) (members (children tokens jtis) p)
unfolding children members Dict.get
children-listed tokens l [] p listed = tt
children-listed tokens l (j ∷ jtis) p listed =
    add_child-listed l (children tokens jtis) j (parent_of tokens j) p listed.0
      (λ q. children-listed tokens l jtis q listed.1)

All-of_member :
    (l s : List String)
    → ((x : String) → member s x ≡ true → member l x ≡ true)
    → All (λ x. member l x ≡ true) s
unfolding member
All-of_member l [] h = tt
All-of_member l (x ∷ s) h =
    (h x (ground (arith, eq_iff x x)), All-of_member l s (λ y m. h y (ground arith)))

pub All-listed : (l : List String) → All (λ x. member l x ≡ true) l
All-listed l = All-of_member l l (λ x m. m)

-- From a chain of one token the walk ends within one more step than there are tokens of the user.
pub descend-total :
    (tokens : List (String × RefreshToken)) (jtis : List String) (root : String)
    → is_none (descend (suc (length jtis)) (children tokens jtis) (root ∷ []) (root ∷ [])) ≡ false
descend-total tokens jtis root =
    descend-ends (suc (length jtis)) jtis (children tokens jtis) (root ∷ []) (root ∷ [])
      (λ p. children-listed tokens jtis jtis p (All-listed jtis))
      (omega (arith, unseen-le jtis (root ∷ [])))
