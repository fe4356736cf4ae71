-- ===== src/Release/Chain/Walk.antt =====
-- What a walk between two versions is.
use mathlib.Core.Path.{subst}
use Prim.Native.Nat.{Ordering}
use idunn.Prelude.{
  ◌≡◌, refl, sym, ap, ◌∙◌, true, false, not, List, [], ◌∷◌, Option, none, some, Bytes, Result, ok,
  ◌>>=◌, ◌>>◌, refuse_if, same, same_iff, member, last?, All, All-map, bind-eq-ok, refuse_if-false,
  arith,
}
use idunn.Release.Version.{Invalid, not_upgrade, valid_version, compare_versions}
use idunn.Release.Version.Order.{flip, compare_versions-flip}
use idunn.Release.Sorting.{sort_by, older}
use idunn.Release.Chain.{
  candidates, check_order, check_walk, ends_at, ordered, between, is_up, is_level,
}
use idunn.Release.Sorting.Order.{
  Sorted, sort_by-Sorted, member-sort_by, lt-older, older-asymmetric, All-sort_by,
}
use idunn.Release.Chain.Loop.{InBetween, candidates-All, candidates_complete}

-- Each version has higher precedence than the one before it, the first of them than `v`.
pub data Ascending : Bytes → List Bytes → Type 0 where
  last_step : {v : Bytes} → Ascending v []
  next_step :
      {v w : Bytes} {rest : List Bytes}
      → compare_versions v w ≡ ok Ordering.lt
      → Ascending w rest
      → Ascending v (w ∷ rest)

-- Two neighbours of a sorted list, of different precedence.
neighbours-lt :
    (v w : Bytes) (c : Ordering)
    → older w v ≡ false
    → compare_versions v w ≡ ok c
    → is_level c ≡ false
    → compare_versions v w ≡ ok Ordering.lt
unfolding flip
neighbours-lt v w Ordering.lt h k n = k
neighbours-lt v w Ordering.eq h k n = cc
neighbours-lt v w Ordering.gt h k n = cc (lt-older w v (compare_versions-flip v w Ordering.gt k))

check_order-ok :
    (v w : Bytes) (rest : List Bytes)
    → check_order v (w ∷ rest) ≡ ok tt
    → (c : Ordering) × (compare_versions v w ≡ ok c)
      × (is_level c ≡ false)
      × (check_order w rest ≡ ok tt)
unfolding check_order
check_order-ok v w rest h =
    let (c, compared, others) = bind-eq-ok _ _ h in
    let (u, apart, following) = bind-eq-ok _ _ others in
    (c, compared, refuse_if-false _ _ apart, following)

check_order-Ascending :
    (v : Bytes) (rest : List Bytes)
    → Sorted older (v ∷ rest)
    → check_order v rest ≡ ok tt
    → Ascending v rest
unfolding Sorted
check_order-Ascending v [] s h = last_step
check_order-Ascending v (w ∷ rest) s h =
    let (c, compared, apart, others) = check_order-ok v w rest h in
    next_step (neighbours-lt v w c s.0 compared apart) (check_order-Ascending w rest s.1 others)

named-last :
    (o : Option Bytes) (to : Bytes)
    → (elim o [ none ↦ false | some v ↦ same v to ]) ≡ true
    → o ≡ some to
named-last none to h = cc
named-last (some v) to h = ap some ((same_iff v to).0 h)

ends_at-last : (walk : List Bytes) (to : Bytes) → ends_at walk to ≡ true → last? walk ≡ some to
unfolding ends_at
ends_at-last walk to h = named-last (last? walk) to h

-- The sort and the checks behind it.
ordered-ok :
    (to : Bytes) (found walk : List Bytes)
    → ordered to found ≡ ok walk
    → (walk ≡ sort_by older found) × (check_walk walk ≡ ok tt) × (ends_at walk to ≡ true)
unfolding ordered
ordered-ok to found walk h = ground arith

between-ok :
    (available : List Bytes) (after to : Bytes) (walk : List Bytes)
    → between available after to ≡ ok walk
    → (found : List Bytes) × (candidates after to [] available ≡ ok found)
      × (ordered to found ≡ ok walk)
unfolding between
between-ok available after to walk h =
    let behind : Result Invalid (List Bytes) =
      candidates after to [] available >>= λ found. ordered to found in
    let (up, compared, h') =
      bind-eq-ok (compare_versions after to)
        (λ up. refuse_if (not (is_up up)) not_upgrade >> behind) h in
    let (u, fine, h'') = bind-eq-ok (refuse_if (not (is_up up)) not_upgrade) (λ u. behind) h' in
    bind-eq-ok (candidates after to [] available) (ordered to) h''

check_walk-Ascending :
    (after : Bytes) (walk : List Bytes)
    → Sorted older walk
    → All (λ v. compare_versions v after ≡ ok Ordering.gt) walk
    → check_walk walk ≡ ok tt
    → Ascending after walk
unfolding check_walk flip
check_walk-Ascending after [] s a h = last_step
check_walk-Ascending after (v ∷ rest) s a h =
    next_step (compare_versions-flip v after Ordering.gt a.0) (check_order-Ascending v rest s h)

-- Where Between returns a walk, its first version is above `after`, each other one is above the one
-- before it, the last is `to`, and all are published.
pub between-Ascending :
    (available : List Bytes) (after to : Bytes) (walk : List Bytes)
    → between available after to ≡ ok walk
    → Ascending after walk × (last? walk ≡ some to) × All (λ v. member v available ≡ true) walk
between-Ascending available after to walk h =
    let (found, collected, made) = between-ok available after to walk h in
    let (is_sort, checked, ends) = ordered-ok to found walk made in
    let facts : All (λ v. (member v available ≡ true) × (compare_versions v after ≡ ok Ordering.gt))
        walk =
      subst (All _) (sym is_sort) (
        All-sort_by _ older found
          (candidates-All _ after to [] available found (λ v m inside. (m, inside.0)) collected)) in
    (
      check_walk-Ascending after walk
          (subst (Sorted older) (sym is_sort) (sort_by-Sorted older older-asymmetric found))
          (All-map walk (λ v fact. fact.1) facts) checked,
      ends_at-last walk to ends,
      All-map walk (λ v fact. fact.0) facts,
    )

-- Where Between returns a walk, it misses no published text that is a version above `after` and not
-- above `to`.
pub between_complete :
    (v : Bytes) (available : List Bytes) (after to : Bytes) (walk : List Bytes)
    → between available after to ≡ ok walk
    → valid_version v ≡ true
    → InBetween after to v
    → member v available ≡ true
    → member v walk ≡ true
between_complete v available after to walk h valid inside there =
    let (found, collected, made) = between-ok available after to walk h in
    let (is_sort, checked, ends) = ordered-ok to found walk made in
    ap (member v) is_sort
    ∙ (member-sort_by older v found
        ∙ candidates_complete v after to [] available found valid inside there
            (unfold member in refl) collected)
