-- ===== src/Auth/Refresh/Family.antt =====
-- What the walk down a chain finds: the least list that is closed under children.
use pulsar_relay.Prelude.{
  ℕ, zero, suc, String, eq_iff, ◌≡◌, inl, inr, true, not, ◌&&◌, ◌||◌, some, List, [], ◌∷◌, arith,
  Bool-cases, ◌==◌, nat_eq, string_eq, pair_eq, All,
}
use mathlib.Core.Path.{subst}
use pulsar_relay.Dict.{member}
use pulsar_relay.Dict.Multi.{members}
use pulsar_relay.Auth.Refresh.{visit_one, visit, descend}

visit_one-chain :
    (chain frontier : List String) (j x : String)
    → member (visit_one chain frontier j).0 x ≡ (member chain x || j == x)
unfolding visit_one member
visit_one-chain chain frontier j x = ground (arith, eq_iff j x)

visit_one-frontier :
    (chain frontier : List String) (j x : String)
    → member (visit_one chain frontier j).1 x
      ≡ (member frontier x || (j == x && not (member chain x)))
unfolding visit_one member
visit_one-frontier chain frontier j x = ground (arith, eq_iff j x)

visit-chain :
    (chain frontier kids : List String) (x : String)
    → member (visit chain frontier kids).0 x ≡ (member chain x || member kids x)
unfolding visit member
visit-chain chain frontier [] x = ground arith
visit-chain chain frontier (j ∷ kids) x = ground (
  arith,
  visit-chain (visit_one chain frontier j).0 (visit_one chain frontier j).1 kids x,
  visit_one-chain chain frontier j x,
)

visit-frontier :
    (chain frontier kids : List String) (x : String)
    → member (visit chain frontier kids).1 x
      ≡ (member frontier x || (member kids x && not (member chain x)))
unfolding visit member
visit-frontier chain frontier [] x = ground arith
visit-frontier chain frontier (j ∷ kids) x = ground (
  arith,
  visit-frontier (visit_one chain frontier j).0 (visit_one chain frontier j).1 kids x,
  visit_one-chain chain frontier j x,
  visit_one-frontier chain frontier j x,
)

-- A token of the chain is still in the frontier, or its children are in the chain.
abbrev IsExplored : List (String × List String) → List String → List String → Type 0
IsExplored kids chain frontier =
    (x y : String)
    → member chain x ≡ true
    → member (members kids x) y ≡ true
    → (member frontier x || member chain y) ≡ true

visit-IsExplored :
    (kids : List (String × List String)) (chain frontier : List String) (j : String)
    → IsExplored kids chain (j ∷ frontier)
    → IsExplored kids
        (visit chain frontier (members kids j)).0
        (visit chain frontier (members kids j)).1
unfolding member
visit-IsExplored kids chain frontier j h x y hx hy = ground (
  arith,
  visit-chain chain frontier (members kids j) x,
  visit-chain chain frontier (members kids j) y,
  visit-frontier chain frontier (members kids j) x,
  h x y,
  eq_iff j x,
)

descend-closed :
    (fuel : ℕ) (kids : List (String × List String)) (chain frontier result : List String)
    → IsExplored kids chain frontier
    → descend fuel kids chain frontier ≡ some result
    → (x y : String) → member result x ≡ true
    → member (members kids x) y ≡ true
    → member result y ≡ true
unfolding descend member
descend-closed fuel kids chain [] result h e x y hx hy = ground (arith, h x y)
descend-closed zero kids chain (j ∷ frontier) result h e x y hx hy = ground arith
descend-closed (suc fuel) kids chain (j ∷ frontier) result h e x y hx hy =
    descend-closed fuel kids (visit chain frontier (members kids j)).0
      (visit chain frontier (members kids j)).1 result (visit-IsExplored kids chain frontier j h) e
      x y hx hy

descend-keeps :
    (fuel : ℕ) (kids : List (String × List String)) (chain frontier result : List String)
    → descend fuel kids chain frontier ≡ some result
    → (x : String) → member chain x ≡ true
    → member result x ≡ true
unfolding descend
descend-keeps fuel kids chain [] result e x hx = ground arith
descend-keeps zero kids chain (j ∷ frontier) result e x hx = ground arith
descend-keeps (suc fuel) kids chain (j ∷ frontier) result e x hx =
    descend-keeps fuel kids (visit chain frontier (members kids j)).0
      (visit chain frontier (members kids j)).1 result e x
      (ground (arith, visit-chain chain frontier (members kids j) x))

-- A closed list that holds the chain and the frontier.
abbrev Within : List (String × List String) → List String → List String → List String → Type 0
Within kids s chain frontier =
    ((x : String) → member chain x ≡ true → member s x ≡ true)
    × ((x : String) → member frontier x ≡ true → member s x ≡ true)
    × ((x y : String) → member s x ≡ true → member (members kids x) y ≡ true → member s y ≡ true)

visit-Within :
    (kids : List (String × List String)) (s chain frontier : List String) (j : String)
    → Within kids s chain (j ∷ frontier)
    → Within kids s
        (visit chain frontier (members kids j)).0
        (visit chain frontier (members kids j)).1
unfolding member
visit-Within kids s chain frontier j h = (
  λ x hx.
      ground
        (arith, visit-chain chain frontier (members kids j) x, h.0 x, h.1 j, h.2 j x, eq_iff j j),
  λ x hx.
      ground (
        arith,
        visit-frontier chain frontier (members kids j) x,
        h.1 x,
        h.1 j,
        h.2 j x,
        eq_iff j j,
      ),
  h.2,
)

descend-least :
    (fuel : ℕ) (kids : List (String × List String)) (s chain frontier result : List String)
    → Within kids s chain frontier
    → descend fuel kids chain frontier ≡ some result
    → (x : String) → member result x ≡ true
    → member s x ≡ true
unfolding descend
descend-least fuel kids s chain [] result h e x hx = ground (arith, h.0 x)
descend-least zero kids s chain (j ∷ frontier) result h e x hx = ground arith
descend-least (suc fuel) kids s chain (j ∷ frontier) result h e x hx =
    descend-least fuel kids s (visit chain frontier (members kids j)).0
      (visit chain frontier (members kids j)).1 result (visit-Within kids s chain frontier j h) e x
      hx

-- With every token of the list its children are in the list.
abbrev pub Closed : List (String × List String) → List String → List String → Type 0
Closed kids s l = All (λ x. All (λ y. member s y ≡ true) (members kids x)) l

All-members :
    (s l : List String)
    → ((y : String) → member l y ≡ true → member s y ≡ true)
    → All (λ y. member s y ≡ true) l
unfolding member
All-members s [] h = tt
All-members s (y ∷ l) h =
    (h y (ground (arith, eq_iff y y)), All-members s l (λ z m. h z (ground arith)))

Closed-of :
    (kids : List (String × List String)) (s l : List String)
    → ((x y : String) → member l x ≡ true → member (members kids x) y ≡ true → member s y ≡ true)
    → Closed kids s l
unfolding member
Closed-of kids s [] h = tt
Closed-of kids s (x ∷ l) h = (
  All-members s (members kids x) (λ y m. h x y (ground (arith, eq_iff x x)) m),
  Closed-of kids s l (λ z y mz m. h z y (ground arith) m),
)

at_member : (P : String → Type 0) (l : List String) (x : String) → All P l → member l x ≡ true → P x
unfolding member
at_member P [] x h m = ground arith
at_member P (y ∷ l) x h m = elim (Bool-cases (y == x)) [
  | inl same ↦ subst P ((eq_iff y x).0 same) h.0
  | inr other ↦ at_member P l x h.1 (ground arith)
]

-- The walk from a root finds the root, and with a token its children.
pub descend-Closed :
    (fuel : ℕ) (kids : List (String × List String)) (root : String) (result : List String)
    → descend fuel kids (root ∷ []) (root ∷ []) ≡ some result
    → (member result root ≡ true) × Closed kids result result
unfolding member
descend-Closed fuel kids root result e = (
  descend-keeps fuel kids (root ∷ []) (root ∷ []) result e root (ground (arith, eq_iff root root)),
  Closed-of kids result result
      (descend-closed fuel kids (root ∷ []) (root ∷ []) result (λ x y hx hy. ground arith) e),
)

-- A list that holds the root, and with a token its children, holds all that the walk finds.
pub descend-within :
    (fuel : ℕ) (kids : List (String × List String)) (root : String) (result s : List String)
    → descend fuel kids (root ∷ []) (root ∷ []) ≡ some result
    → member s root ≡ true
    → Closed kids s s
    → (x : String) → member result x ≡ true
    → member s x ≡ true
unfolding member
descend-within fuel kids root result s e here closed =
    descend-least fuel kids s (root ∷ []) (root ∷ []) result
      (
        (λ x hx. ground (arith, eq_iff root x)),
        (λ x hx. ground (arith, eq_iff root x)),
        λ x y hx hy.
            at_member (λ z. member s z ≡ true) (members kids x) y
              (at_member (λ z. All (λ y. member s y ≡ true) (members kids z)) s x closed hx) hy,
      )
      e
