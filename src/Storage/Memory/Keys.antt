-- ===== src/Storage/Memory/Keys.antt =====
-- The storage key of an owner's topic belongs to no other owner and topic.
use Prim.Native.Char.{Char}
use text.Mathlib.TextLemmas.{cons-append, nil-append, head-eq_of_cons-eq, tail-eq_of_cons-eq}
use mathlib.Core.Path.{subst, ap₂}
use pulsar_relay.Prelude.{String, ◌≡◌, refl, sym, ◌∙◌, ◌≢◌, nat_eq, string_eq, pair_eq}
use pulsar_relay.Storage.Memory.{storage_key}

abbrev slash : Char
slash = "/"

-- The text holds no '/'.
abbrev pub HasNoSlash : String → Type 0
HasNoSlash String.[] = Unit
HasNoSlash (String.◌∷◌ c s) = (c ≢ slash) × HasNoSlash s

key_nil : (t : String) → storage_key "" t ≡ String.◌∷◌ slash t
unfolding storage_key
key_nil t = rw (nil-append, cons-append, nil-append)

key_cons :
    (c : Char) (o t : String) → storage_key (String.◌∷◌ c o) t ≡ String.◌∷◌ c (storage_key o t)
unfolding storage_key
key_cons c o t = simp (cons-append)

not-HasNoSlash-key : (o t : String) → HasNoSlash (storage_key o t) → ⊥
not-HasNoSlash-key String.[] t h = (rw key_nil at h).0 refl
not-HasNoSlash-key (String.◌∷◌ c o) t h = not-HasNoSlash-key o t (rw key_cons at h).1

-- No key is the key of two owners or of two topics, if the topics' names hold no '/'.
pub storage_key_injective :
    (o o' t t' : String)
    → HasNoSlash t
    → HasNoSlash t'
    → storage_key o t ≡ storage_key o' t'
    → (o ≡ o') × (t ≡ t')
storage_key_injective String.[] String.[] t t' h h' e =
    (refl, tail-eq_of_cons-eq (sym (key_nil t) ∙ (e ∙ key_nil t')))
storage_key_injective String.[] (String.◌∷◌ c o') t t' h h' e = absurd (
    not-HasNoSlash-key o' t'
      (subst HasNoSlash (tail-eq_of_cons-eq (sym (key_nil t) ∙ (e ∙ key_cons c o' t'))) h))
storage_key_injective (String.◌∷◌ c o) String.[] t t' h h' e = absurd (
    not-HasNoSlash-key o t
      (subst HasNoSlash (tail-eq_of_cons-eq (sym (key_nil t') ∙ (sym e ∙ key_cons c o t))) h'))
storage_key_injective (String.◌∷◌ c o) (String.◌∷◌ c' o') t t' h h' e =
    let q = sym (key_cons c o t) ∙ (e ∙ key_cons c' o' t') in
    let (same_owner, same_topic) = storage_key_injective o o' t t' h h' (tail-eq_of_cons-eq q) in
    (ap₂ String.◌∷◌ (head-eq_of_cons-eq q) same_owner, same_topic)
