-- ===== src/Core/Polling/Index.antt =====
-- The indexes of `PollManager`: who waits on a topic, and how many waiters a user has.
use pulsar_relay.Prelude.{
  ℕ, ◌+◌, ◌-◌, String, eq_iff, ◌≡◌, refl, not, ◌&&◌, ◌||◌, Option, none, some, List, [], ◌∷◌, arith,
  if◌then◌else◌, ◌==◌, nat_eq, string_eq, pair_eq,
}
use pulsar_relay.Dict.{member}
use pulsar_relay.Dict.Laws.{get-put, get-remove, member-add}
use pulsar_relay.Dict.Multi.{has, file, unfile, has-file, has-unfile}
use pulsar_relay.Dict.Distinct.{AllDistinct, file-AllDistinct, unfile-AllDistinct}
use pulsar_relay.Core.Polling.{
  set_of, count_of, touched, incremented, decremented, subscribe_all, unsubscribe_all,
}

pub member-set_of : (l : List String) (x : String) → member (set_of l) x ≡ member l x
unfolding member
member-set_of [] x = refl
member-set_of (y ∷ l) x = ground (arith, member-set_of l x, member-add (set_of l) y x)

pub has-subscribe_all :
    (d : List (String × List String)) (c : String) (topics : List String) (t c' : String)
    → has (subscribe_all d c topics) t c' ≡ ((member topics t && c == c') || has d t c')
unfolding subscribe_all member
has-subscribe_all d c [] t c' = refl
has-subscribe_all d c (topic ∷ topics) t c' =
    ground (arith, has-subscribe_all (file d topic c) c topics t c', has-file d topic c t c')

pub has-unsubscribe_all :
    (d : List (String × List String)) (c : String) (topics : List String) (t c' : String)
    → has (unsubscribe_all d c topics) t c' ≡ (not (member topics t && c == c') && has d t c')
unfolding unsubscribe_all member
has-unsubscribe_all d c [] t c' = refl
has-unsubscribe_all d c (topic ∷ topics) t c' =
    ground (arith, has-unsubscribe_all (unfile d topic c) c topics t c', has-unfile d topic c t c')

pub subscribe_all-AllDistinct :
    (d : List (String × List String)) (c : String) (topics : List String)
    → AllDistinct d
    → AllDistinct (subscribe_all d c topics)
unfolding subscribe_all
subscribe_all-AllDistinct d c [] h = h
subscribe_all-AllDistinct d c (topic ∷ topics) h =
    subscribe_all-AllDistinct (file d topic c) c topics (file-AllDistinct d topic c h)

pub unsubscribe_all-AllDistinct :
    (d : List (String × List String)) (c : String) (topics : List String)
    → AllDistinct d
    → AllDistinct (unsubscribe_all d c topics)
unfolding unsubscribe_all
unsubscribe_all-AllDistinct d c [] h = h
unsubscribe_all-AllDistinct d c (topic ∷ topics) h =
    unsubscribe_all-AllDistinct (unfile d topic c) c topics (unfile-AllDistinct d topic c h)

-- The counters.
pub count_of-touched :
    (counts : List (String × ℕ)) (user u : String)
    → count_of (touched counts user) u ≡ count_of counts u
unfolding count_of touched
count_of-touched counts user u = ground (arith, get-put counts user u 0, eq_iff user u)

-- 1 for the user itself, 0 for another or for no user.
abbrev pub one_if : Option String → String → ℕ
one_if none u = 0
one_if (some user) u = if user == u then 1 else 0

pub count_of-incremented :
    (counts : List (String × ℕ)) (user : Option String) (u : String)
    → count_of (incremented counts user) u ≡ count_of counts u + one_if user u
unfolding incremented
count_of-incremented counts none u = omega arith
count_of-incremented counts (some user) u =
    unfold count_of in
    ground (arith, get-put counts user u (count_of counts user + 1), eq_iff user u)

pub count_of-decremented :
    (counts : List (String × ℕ)) (user : Option String) (u : String)
    → count_of (decremented counts user) u ≡ count_of counts u - one_if user u
unfolding decremented
count_of-decremented counts none u = omega arith
count_of-decremented counts (some user) u =
    unfold count_of in
    ground (
      arith,
      get-put counts user u (count_of counts user - 1),
      get-remove counts user u,
      eq_iff user u,
    )
