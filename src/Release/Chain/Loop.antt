-- ===== src/Release/Chain/Loop.antt =====
-- What the loop over the published versions collects.
use mathlib.Core.Path.{subst}
use Prim.Native.Nat.{Ordering}
use idunn.Prelude.{
  ◌≡◌, refl, sym, ap, ◌∙◌, Bool, true, false, not, ◌&&◌, ◌||◌, List, [], ◌∷◌, Bytes, Result, ok,
  err, same, same_iff, same_refl, member, All, Bool-cases, inl, inr, arith, if◌then◌else◌,
}
use idunn.Release.Version.{Invalid, valid_version, compare_versions}
use idunn.Release.Chain.{add_candidate, candidates, is_above}

ok_inj : (r : Result Invalid (List Bytes)) {a b : List Bytes} → r ≡ ok a → r ≡ ok b → a ≡ b
ok_inj r h k = cc

member-cons : (u v : Bytes) (vs : List Bytes) → member u vs ≡ true → member u (v ∷ vs) ≡ true
unfolding member
member-cons u v vs h = ground arith

member-first : (v : Bytes) (vs : List Bytes) → member v (v ∷ vs) ≡ true
unfolding member
member-first v vs = ground (arith, same_refl v)

-- A version between the two ends.
abbrev pub InBetween : Bytes → Bytes → Bytes → Type 0
InBetween after to v =
    (compare_versions v after ≡ ok Ordering.gt)
    × ((hi : Ordering) × (compare_versions v to ≡ ok hi) × (is_above hi ≡ false))

add_candidate-ok :
    (v : Bytes) (above below : Result Invalid Ordering) (others : Result Invalid (List Bytes))
    (found : List Bytes)
    → add_candidate v above below others ≡ ok found
    → (lo : Ordering) × (hi : Ordering) × (walk : List Bytes) × (above ≡ ok lo)
      × (below ≡ ok hi)
      × (others ≡ ok walk)
      × ((if is_above lo && not (is_above hi) then v ∷ walk else walk) ≡ found)
unfolding add_candidate
add_candidate-ok v (ok lo) (ok hi) (ok walk) found h = (lo, hi, walk, refl, refl, refl, cc)
add_candidate-ok v (ok lo) (ok hi) (err e) found h = cc
add_candidate-ok v (ok lo) (err e) others found h = cc
add_candidate-ok v (err e) below others found h = cc

-- A version that the loop does not skip.
candidates-next :
    (after to : Bytes) (seen : List Bytes) (v : Bytes) (vs : List Bytes)
    → (not (valid_version v) || member v seen) ≡ false
    → candidates after to seen (v ∷ vs)
      ≡ add_candidate v
          (compare_versions v after)
          (compare_versions v to)
          (candidates after to (v ∷ seen) vs)
unfolding candidates
candidates-next after to seen v vs keep = rw keep

candidates-skip :
    (after to : Bytes) (seen : List Bytes) (v : Bytes) (vs : List Bytes)
    → (not (valid_version v) || member v seen) ≡ true
    → candidates after to seen (v ∷ vs) ≡ candidates after to seen vs
unfolding candidates
candidates-skip after to seen v vs skip = rw skip

-- Whether the loop keeps a version that lies between its ends.
kept-All :
    (P : Bytes → Type 0) (v : Bytes) (walk found : List Bytes) (lo hi : Ordering)
    → (lo ≡ Ordering.gt → is_above hi ≡ false → P v)
    → (if is_above lo && not (is_above hi) then v ∷ walk else walk) ≡ found
    → All P walk
    → All P found
kept-All P v walk found Ordering.lt hi p e a = subst (All P) e a
kept-All P v walk found Ordering.eq hi p e a = subst (All P) e a
kept-All P v walk found Ordering.gt Ordering.lt p e a = subst (All P) e (p refl refl, a)
kept-All P v walk found Ordering.gt Ordering.eq p e a = subst (All P) e (p refl refl, a)
kept-All P v walk found Ordering.gt Ordering.gt p e a = subst (All P) e a

-- Everything that the loop collects is published, and lies between the two ends.
pub candidates-All :
    (P : Bytes → Type 0) (after to : Bytes) (seen available found : List Bytes)
    → ((v : Bytes) → member v available ≡ true → InBetween after to v → P v)
    → candidates after to seen available ≡ ok found
    → All P found
candidates-All P after to seen [] found p h =
    unfold candidates in subst (All P) (ok_inj (ok []) refl h) tt
candidates-All P after to seen (v ∷ vs) found p h =
    let later : (u : Bytes) → member u vs ≡ true → InBetween after to u → P u =
      λ u m. p u (member-cons u v vs m) in
    elim (Bool-cases (not (valid_version v) || member v seen)) [
      | inl skip ↦
          candidates-All P after to seen vs found later
            (sym (candidates-skip after to seen v vs skip) ∙ h)
      | inr keep ↦
          let (lo, hi, walk, above, below, others, made) =
            add_candidate-ok v _ _ _ found (sym (candidates-next after to seen v vs keep) ∙ h) in
          kept-All P v walk found lo hi
            (λ is_gt fits. p v (member-first v vs) (above ∙ ap ok is_gt, (hi, below, fits))) made
            (candidates-All P after to (v ∷ seen) vs walk later others)
    ]

member-kept :
    (v u : Bytes) (walk found : List Bytes) (b : Bool)
    → (if b then u ∷ walk else walk) ≡ found
    → member v walk ≡ true
    → member v found ≡ true
member-kept v u walk found true e h = subst (λ xs. member v xs ≡ true) e (member-cons v u walk h)
member-kept v u walk found false e h = subst (λ xs. member v xs ≡ true) e h

member-apart : (v u : Bytes) (us : List Bytes) → same u v ≡ false → member v (u ∷ us) ≡ member v us
unfolding member
member-apart v u us h = rw h

ok_ordering_inj : (r : Result Invalid Ordering) {a b : Ordering} → r ≡ ok a → r ≡ ok b → a ≡ b
ok_ordering_inj r h k = cc

kept-first :
    (v : Bytes) (walk : List Bytes) (lo hi : Ordering)
    → lo ≡ Ordering.gt
    → is_above hi ≡ false
    → (if is_above lo && not (is_above hi) then v ∷ walk else walk) ≡ v ∷ walk
kept-first v walk lo hi e n = rw (e, n)

candidates-first :
    (v after to : Bytes) (seen us found : List Bytes)
    → valid_version v ≡ true
    → InBetween after to v
    → member v seen ≡ false
    → candidates after to seen (v ∷ us) ≡ ok found
    → member v found ≡ true
candidates-first v after to seen us found valid inside fresh h =
    let keep : (not (valid_version v) || member v seen) ≡ false = ground arith in
    let (lo, hi, walk, above, below, others, made) =
      add_candidate-ok v _ _ _ found (sym (candidates-next after to seen v us keep) ∙ h) in
    let (top, fits, under) = inside.1 in
    let lo_gt : lo ≡ Ordering.gt = ok_ordering_inj _ above inside.0 in
    let hi_fits : is_above hi ≡ false = ap is_above (ok_ordering_inj _ below fits) ∙ under in
    subst (λ xs. member v xs ≡ true) (sym (kept-first v walk lo hi lo_gt hi_fits) ∙ made)
      (member-first v walk)

-- The loop misses no published version between the two ends.
pub candidates_complete :
    (v after to : Bytes) (seen available found : List Bytes)
    → valid_version v ≡ true
    → InBetween after to v
    → member v available ≡ true
    → member v seen ≡ false
    → candidates after to seen available ≡ ok found
    → member v found ≡ true
candidates_complete v after to seen [] found valid inside there fresh h = unfold member in cc
candidates_complete v after to seen (u ∷ us) found valid inside there fresh h =
    elim (Bool-cases (same u v)) [
      | inl is_v ↦
          candidates-first v after to seen us found valid inside fresh
            (subst (λ x. candidates after to seen (x ∷ us) ≡ ok found) ((same_iff u v).0 is_v) h)
      | inr apart ↦
          let still : member v us ≡ true = sym (member-apart v u us apart) ∙ there in
          elim (Bool-cases (not (valid_version u) || member u seen)) [
            | inl skip ↦
                candidates_complete v after to seen us found valid inside still fresh
                  (sym (candidates-skip after to seen u us skip) ∙ h)
            | inr keep ↦
                let (lo, hi, walk, above, below, others, made) =
                  add_candidate-ok u _ _ _ found
                    (sym (candidates-next after to seen u us keep) ∙ h) in
                member-kept v u walk found (is_above lo && not (is_above hi)) made (
                  candidates_complete v after to (u ∷ seen) us walk valid inside still
                    (member-apart v u seen apart ∙ fresh) others)
          ]
    ]
