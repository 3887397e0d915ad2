-- ===== src/Auth/Refresh/Roots.antt =====
-- The walk to the root of a chain ends.
use pulsar_relay.Prelude.{
  is_none, ℕ, zero, suc, String, eq_iff, ◌≡◌, refl, sym, ap, ◌∙◌, inl, inr, true, false, Option,
  none, some, List, [], ◌∷◌, arith, if◌then◌else◌, Bool-cases, Option-cases, length, ◌==◌, nat_eq,
  string_eq, pair_eq,
}
use pulsar_relay.Dict
use pulsar_relay.Dict.{contains}
use pulsar_relay.Dict.Laws.{get-put}
use pulsar_relay.Auth.Refresh.{RefreshToken, parent_of, find_root}

abbrev Tokens : Type 0
Tokens = List (String × RefreshToken)

length-put_known :
    (tokens : Tokens) (k : String) (t : RefreshToken)
    → contains tokens k ≡ true
    → length (Dict.put tokens k t) ≡ length tokens
unfolding Dict.put Dict.get
length-put_known [] k t h = ground arith
length-put_known ((j, u) ∷ tokens) k t h = ground (arith, length-put_known tokens k t)

length-put_new :
    (tokens : Tokens) (k : String) (t : RefreshToken)
    → contains tokens k ≡ false
    → length (Dict.put tokens k t) ≡ suc (length tokens)
unfolding Dict.put Dict.get
length-put_new [] k t h = refl
length-put_new ((j, u) ∷ tokens) k t h = ground (arith, length-put_new tokens k t)

-- Every walk upwards ends within the number of tokens, and every parent is a stored token.
pub record IsRooted (tokens : Tokens) : Type 0 where
  pub ends : (j : String) → is_none (find_root (suc (length tokens)) tokens j) ≡ false
  pub known : (j p : String) → parent_of tokens j ≡ some p → contains tokens p ≡ true

pub nil-IsRooted : IsRooted []
unfolding find_root parent_of Dict.get
nil-IsRooted = record { ends = λ j. refl; known = λ j p e. ground arith }

parent_of-put :
    (tokens : Tokens) (k : String) (t : RefreshToken) (j : String)
    → parent_of (Dict.put tokens k t) j ≡ (if k == j then t.parent_jti else parent_of tokens j)
unfolding parent_of
parent_of-put tokens k t j = ground (arith, get-put tokens k j t)

other_of_known :
    (tokens : Tokens) (k p : String)
    → contains tokens k ≡ false
    → contains tokens p ≡ true
    → (k == p) ≡ false
other_of_known tokens k p fresh known = ground (arith, eq_iff k p)

find_root-root :
    (fuel : ℕ) (tokens : Tokens) (j : String)
    → parent_of tokens j ≡ none
    → find_root (suc fuel) tokens j ≡ some j
unfolding find_root
find_root-root fuel tokens j e = rw (e, find_root) refl

find_root-up :
    (fuel : ℕ) (tokens : Tokens) (j p : String)
    → parent_of tokens j ≡ some p
    → find_root (suc fuel) tokens j ≡ find_root fuel tokens p
unfolding find_root
find_root-up fuel tokens j p e = rw (e, find_root) refl

find_root-agree :
    (fuel : ℕ) (tokens tokens' : Tokens) (j : String)
    → ((i : String) → parent_of tokens' i ≡ parent_of tokens i)
    → find_root fuel tokens' j ≡ find_root fuel tokens j
unfolding find_root
find_root-agree zero tokens tokens' j agree = refl
find_root-agree (suc fuel) tokens tokens' j agree = elim (Option-cases (parent_of tokens j)) [
  | inl root ↦
      find_root-root fuel tokens' j (agree j ∙ root) ∙ sym (find_root-root fuel tokens j root)
  | inr (p, found) ↦
      find_root-up fuel tokens' j p (agree j ∙ found)
      ∙ (find_root-agree fuel tokens tokens' p agree ∙ sym (find_root-up fuel tokens j p found))
]

find_root-more :
    (fuel : ℕ) (tokens : Tokens) (j : String)
    → is_none (find_root fuel tokens j) ≡ false
    → is_none (find_root (suc fuel) tokens j) ≡ false
unfolding find_root
find_root-more zero tokens j h = ground arith
find_root-more (suc fuel) tokens j h = elim (Option-cases (parent_of tokens j)) [
  | inl root ↦ ap is_none (find_root-root (suc fuel) tokens j root)
  | inr (p, found) ↦
      ap is_none (find_root-up (suc fuel) tokens j p found)
      ∙ find_root-more fuel tokens p (sym (ap is_none (find_root-up fuel tokens j p found)) ∙ h)
]

contains_of_get :
    (tokens : Tokens) (k : String) (t : RefreshToken)
    → Dict.get tokens k ≡ some t
    → contains tokens k ≡ true
contains_of_get tokens k t e = ground arith

contains-put_or :
    (tokens : Tokens) (k : String) (t : RefreshToken) (j : String)
    → contains tokens j ≡ true
    → contains (Dict.put tokens k t) j ≡ true
contains-put_or tokens k t j h = ground (arith, get-put tokens k j t)

parent-replaced :
    (tokens : Tokens) (k : String) (t t' : RefreshToken)
    → Dict.get tokens k ≡ some t
    → t'.parent_jti ≡ t.parent_jti
    → (i : String) → parent_of (Dict.put tokens k t') i ≡ parent_of tokens i
unfolding parent_of
parent-replaced tokens k t t' found same i = ground (arith, get-put tokens k i t', eq_iff k i)

-- A token that is replaced by one with the same parent.
pub replaced-IsRooted :
    (tokens : Tokens) (k : String) (t t' : RefreshToken)
    → Dict.get tokens k ≡ some t
    → t'.parent_jti ≡ t.parent_jti
    → IsRooted tokens
    → IsRooted (Dict.put tokens k t')
replaced-IsRooted tokens k t t' found same h =
    let agree : (i : String) → parent_of (Dict.put tokens k t') i ≡ parent_of tokens i =
      parent-replaced tokens k t t' found same in
    record {
      ends = λ j.
          rw
            (
              length-put_known tokens k t' (contains_of_get tokens k t found),
              find_root-agree (suc (length tokens)) tokens (Dict.put tokens k t') j agree,
            )
            (h.ends j);
      known = λ j p e. contains-put_or tokens k t' p (h.known j p (sym (agree j) ∙ e));
    }

-- A fresh token does not change the walks of the others.
find_root-fresh :
    (fuel : ℕ) (tokens : Tokens) (k : String) (t : RefreshToken) (j : String)
    → contains tokens k ≡ false
    → ((j p : String) → parent_of tokens j ≡ some p → contains tokens p ≡ true)
    → (k == j) ≡ false
    → find_root fuel (Dict.put tokens k t) j ≡ find_root fuel tokens j
unfolding find_root
find_root-fresh zero tokens k t j fresh known ne = refl
find_root-fresh (suc fuel) tokens k t j fresh known ne =
    let same : parent_of (Dict.put tokens k t) j ≡ parent_of tokens j =
      parent_of-put tokens k t j ∙ rw ne refl in
    elim (Option-cases (parent_of tokens j)) [
      | inl root ↦
          find_root-root fuel (Dict.put tokens k t) j (same ∙ root)
          ∙ sym (find_root-root fuel tokens j root)
      | inr (p, found) ↦
          find_root-up fuel (Dict.put tokens k t) j p (same ∙ found)
          ∙ (find_root-fresh fuel tokens k t p fresh known
                (other_of_known tokens k p fresh (known j p found))
              ∙ sym (find_root-up fuel tokens j p found))
    ]

ends-fresh :
    (tokens : Tokens) (k : String) (t : RefreshToken)
    → contains tokens k ≡ false
    → ((p : String) → t.parent_jti ≡ some p → contains tokens p ≡ true)
    → IsRooted tokens
    → (parent : Option String) → t.parent_jti ≡ parent
    → (j : String) → (k == j) ≡ true
    → is_none (find_root (suc (suc (length tokens))) (Dict.put tokens k t) j) ≡ false
ends-fresh tokens k t fresh parented h none e j same = ap is_none (
    find_root-root (suc (length tokens)) (Dict.put tokens k t) j
      (parent_of-put tokens k t j ∙ rw same e))
ends-fresh tokens k t fresh parented h (some p) e j same =
    ap is_none (
      find_root-up (suc (length tokens)) (Dict.put tokens k t) j p
        (parent_of-put tokens k t j ∙ rw same e)
      ∙ find_root-fresh (suc (length tokens)) tokens k t p fresh h.known
          (other_of_known tokens k p fresh (parented p e)))
    ∙ h.ends p

known-fresh :
    (tokens : Tokens) (k : String) (t : RefreshToken)
    → ((p : String) → t.parent_jti ≡ some p → contains tokens p ≡ true)
    → IsRooted tokens
    → (j p : String) → parent_of (Dict.put tokens k t) j ≡ some p
    → contains (Dict.put tokens k t) p ≡ true
known-fresh tokens k t parented h j p e =
    contains-put_or tokens k t p
      (ground (arith, parent_of-put tokens k t j, parented p, h.known j p))

-- A new token, whose parent is a stored token or none.
pub fresh-IsRooted :
    (tokens : Tokens) (k : String) (t : RefreshToken)
    → contains tokens k ≡ false
    → ((p : String) → t.parent_jti ≡ some p → contains tokens p ≡ true)
    → IsRooted tokens
    → IsRooted (Dict.put tokens k t)
fresh-IsRooted tokens k t fresh parented h = record {
  ends = λ j. rw (length-put_new tokens k t fresh) (elim (Bool-cases (k == j)) [
    | inl same ↦ ends-fresh tokens k t fresh parented h t.parent_jti refl j same
    | inr other ↦
        ap is_none (find_root-fresh (suc (suc (length tokens))) tokens k t j fresh h.known other)
        ∙ find_root-more (suc (length tokens)) tokens j (h.ends j)
  ]);
  known = known-fresh tokens k t parented h;
}
