-- ===== src/Release/Version/Order.antt =====
-- Precedence of core/release/semver.go as an order.
use Prim.Native.Nat.{compare, Ordering}
use idunn.Prelude.{ℕ, ◌≡◌, refl, Option, none, some, List, [], ◌∷◌, Bytes, ok, arith, true}
use idunn.Release.Version.{
  ParsedVersion, ◌then_by◌, compare_bytes, compare_idents, compare_pre, compare_tail,
  compare_parsed, compare_versions, valid_version, parse_version, numeric_ident,
}

-- The result for the arguments the other way round.
unfoldable pub flip : Ordering → Ordering
flip Ordering.lt = Ordering.gt
flip Ordering.gt = Ordering.lt
flip Ordering.eq = Ordering.eq

compare-flip : (a b : ℕ) → compare b a ≡ flip (compare a b)
unfolding flip
compare-flip a b = ground arith

then_by-flip : (a b : Ordering) → flip (a then_by b) ≡ (flip a then_by flip b)
unfolding flip
then_by-flip Ordering.lt b = refl
then_by-flip Ordering.gt b = refl
then_by-flip Ordering.eq b = refl

compare_bytes-flip : (s t : Bytes) → compare_bytes t s ≡ flip (compare_bytes s t)
unfolding compare_bytes flip
compare_bytes-flip [] [] = refl
compare_bytes-flip [] (b ∷ t) = refl
compare_bytes-flip (a ∷ s) [] = refl
compare_bytes-flip (a ∷ s) (b ∷ t) = ground (arith, compare_bytes-flip s t)

compare_idents-flip :
    (m n : Option ℕ) (a b : Bytes) → compare_idents n m b a ≡ flip (compare_idents m n a b)
unfolding compare_idents flip
compare_idents-flip none none a b = unfold flip in compare_bytes-flip a b
compare_idents-flip none (some n) a b = refl
compare_idents-flip (some m) none a b = refl
compare_idents-flip (some m) (some n) a b = compare-flip m n

compare_pre-flip : (s t : List Bytes) → compare_pre t s ≡ flip (compare_pre s t)
unfolding compare_pre flip
compare_pre-flip [] [] = refl
compare_pre-flip [] (b ∷ t) = refl
compare_pre-flip (a ∷ s) [] = refl
compare_pre-flip (a ∷ s) (b ∷ t) =
    ground
      (arith, compare_idents-flip (numeric_ident a) (numeric_ident b) a b, compare_pre-flip s t)

compare_tail-flip : (s t : List Bytes) → compare_tail t s ≡ flip (compare_tail s t)
unfolding compare_tail flip
compare_tail-flip [] [] = refl
compare_tail-flip [] (b ∷ t) = refl
compare_tail-flip (a ∷ s) [] = refl
compare_tail-flip (a ∷ s) (b ∷ t) = compare_pre-flip (a ∷ s) (b ∷ t)

pub compare_parsed-flip : (a b : ParsedVersion) → compare_parsed b a ≡ flip (compare_parsed a b)
unfolding compare_parsed
compare_parsed-flip a b = simp (
  compare-flip a.major b.major,
  compare-flip a.minor b.minor,
  compare-flip a.patch b.patch,
  compare_tail-flip a.pre_ids b.pre_ids,
  then_by-flip,
)

-- `z` is a possible comparison of the first with the third, where `x` compares the first with the
-- second and `y` the second with the third.
abbrev pub Chains : Ordering → Ordering → Ordering → Type 0
Chains Ordering.eq y z = z ≡ y
Chains x Ordering.eq z = z ≡ x
Chains Ordering.lt Ordering.lt z = z ≡ Ordering.lt
Chains Ordering.gt Ordering.gt z = z ≡ Ordering.gt
Chains Ordering.lt Ordering.gt z = Unit
Chains Ordering.gt Ordering.lt z = Unit

Chains-lt : (x : Ordering) → Chains x Ordering.lt Ordering.lt
Chains-lt Ordering.eq = refl
Chains-lt Ordering.lt = refl
Chains-lt Ordering.gt = tt

Chains-gt : (x : Ordering) → Chains x Ordering.gt Ordering.gt
Chains-gt Ordering.eq = refl
Chains-gt Ordering.lt = tt
Chains-gt Ordering.gt = refl

Chains-first : (y : Ordering) → Chains Ordering.lt y Ordering.lt
Chains-first Ordering.eq = refl
Chains-first Ordering.lt = refl
Chains-first Ordering.gt = tt

Chains-first_gt : (y : Ordering) → Chains Ordering.gt y Ordering.gt
Chains-first_gt Ordering.eq = refl
Chains-first_gt Ordering.lt = tt
Chains-first_gt Ordering.gt = refl

then_by-Chains :
    (x y z x' y' z' : Ordering)
    → Chains x y z
    → Chains x' y' z'
    → Chains (x then_by x') (y then_by y') (z then_by z')
then_by-Chains Ordering.eq Ordering.eq z x' y' z' h k = rw h k
then_by-Chains Ordering.eq Ordering.lt z x' y' z' h k = rw h (Chains-lt x')
then_by-Chains Ordering.eq Ordering.gt z x' y' z' h k = rw h (Chains-gt x')
then_by-Chains Ordering.lt Ordering.eq z x' y' z' h k = ground arith
then_by-Chains Ordering.lt Ordering.lt z x' y' z' h k = ground arith
then_by-Chains Ordering.lt Ordering.gt z x' y' z' h k = tt
then_by-Chains Ordering.gt Ordering.eq z x' y' z' h k = ground arith
then_by-Chains Ordering.gt Ordering.lt z x' y' z' h k = tt
then_by-Chains Ordering.gt Ordering.gt z x' y' z' h k = ground arith

compare-Chains : (a b c : ℕ) → Chains (compare a b) (compare b c) (compare a c)
compare-Chains a b c = ground arith

compare_bytes-Chains :
    (a b c : Bytes) → Chains (compare_bytes a b) (compare_bytes b c) (compare_bytes a c)
unfolding compare_bytes
compare_bytes-Chains [] [] [] = refl
compare_bytes-Chains [] [] (z ∷ c) = refl
compare_bytes-Chains [] (y ∷ b) [] = tt
compare_bytes-Chains [] (y ∷ b) (z ∷ c) = Chains-first (compare_bytes (y ∷ b) (z ∷ c))
compare_bytes-Chains (x ∷ a) [] [] = refl
compare_bytes-Chains (x ∷ a) [] (z ∷ c) = tt
compare_bytes-Chains (x ∷ a) (y ∷ b) [] = Chains-gt (compare_bytes (x ∷ a) (y ∷ b))
compare_bytes-Chains (x ∷ a) (y ∷ b) (z ∷ c) =
    then_by-Chains _ _ _ _ _ _ (compare-Chains x y z) (compare_bytes-Chains a b c)

compare_idents-Chains :
    (l m n : Option ℕ) (a b c : Bytes)
    → Chains (compare_idents l m a b) (compare_idents m n b c) (compare_idents l n a c)
unfolding compare_idents
compare_idents-Chains none none none a b c = compare_bytes-Chains a b c
compare_idents-Chains none none (some n) a b c = Chains-gt (compare_bytes a b)
compare_idents-Chains none (some m) none a b c = tt
compare_idents-Chains none (some m) (some n) a b c = Chains-first_gt (compare m n)
compare_idents-Chains (some l) none none a b c = Chains-first (compare_bytes b c)
compare_idents-Chains (some l) none (some n) a b c = tt
compare_idents-Chains (some l) (some m) none a b c = Chains-lt (compare l m)
compare_idents-Chains (some l) (some m) (some n) a b c = compare-Chains l m n

compare_pre-Chains :
    (a b c : List Bytes) → Chains (compare_pre a b) (compare_pre b c) (compare_pre a c)
unfolding compare_pre
compare_pre-Chains [] [] [] = refl
compare_pre-Chains [] [] (z ∷ c) = refl
compare_pre-Chains [] (y ∷ b) [] = tt
compare_pre-Chains [] (y ∷ b) (z ∷ c) = Chains-first (compare_pre (y ∷ b) (z ∷ c))
compare_pre-Chains (x ∷ a) [] [] = refl
compare_pre-Chains (x ∷ a) [] (z ∷ c) = tt
compare_pre-Chains (x ∷ a) (y ∷ b) [] = Chains-gt (compare_pre (x ∷ a) (y ∷ b))
compare_pre-Chains (x ∷ a) (y ∷ b) (z ∷ c) =
    then_by-Chains _ _ _ _ _ _
      (compare_idents-Chains (numeric_ident x) (numeric_ident y) (numeric_ident z) x y z)
      (compare_pre-Chains a b c)

compare_tail-Chains :
    (a b c : List Bytes) → Chains (compare_tail a b) (compare_tail b c) (compare_tail a c)
unfolding compare_tail
compare_tail-Chains [] [] [] = refl
compare_tail-Chains [] [] (z ∷ c) = refl
compare_tail-Chains [] (y ∷ b) [] = tt
compare_tail-Chains [] (y ∷ b) (z ∷ c) = Chains-first_gt (compare_pre (y ∷ b) (z ∷ c))
compare_tail-Chains (x ∷ a) [] [] = refl
compare_tail-Chains (x ∷ a) [] (z ∷ c) = tt
compare_tail-Chains (x ∷ a) (y ∷ b) [] = Chains-lt (compare_pre (x ∷ a) (y ∷ b))
compare_tail-Chains (x ∷ a) (y ∷ b) (z ∷ c) = compare_pre-Chains (x ∷ a) (y ∷ b) (z ∷ c)

pub compare_parsed-Chains :
    (a b c : ParsedVersion) → Chains (compare_parsed a b) (compare_parsed b c) (compare_parsed a c)
unfolding compare_parsed
compare_parsed-Chains a b c = then_by-Chains _ _ _ _ _ _ (compare-Chains a.major b.major c.major) (
    then_by-Chains _ _ _ _ _ _ (compare-Chains a.minor b.minor c.minor) (
      then_by-Chains _ _ _ _ _ _ (compare-Chains a.patch b.patch c.patch)
        (compare_tail-Chains a.pre_ids b.pre_ids c.pre_ids)))

-- Where the comparison of two versions succeeds, the one the other way round does too, with the
-- opposite result.
pub compare_versions-flip :
    (a b : Bytes) (o : Ordering) → compare_versions a b ≡ ok o → compare_versions b a ≡ ok (flip o)
unfolding compare_versions
compare_versions-flip a b o h =
    ground (arith, compare_parsed-flip (parse_version a) (parse_version b))

-- What a successful comparison says.
pub compare_versions-eq-ok :
    (a b : Bytes) {x : Ordering}
    → compare_versions a b ≡ ok x
    → (valid_version a ≡ true)
      × (valid_version b ≡ true)
      × (compare_parsed (parse_version a) (parse_version b) ≡ x)
unfolding compare_versions
compare_versions-eq-ok a b h = ground arith

pub compare_versions-ok :
    (a b : Bytes)
    → valid_version a ≡ true
    → valid_version b ≡ true
    → compare_versions a b ≡ ok (compare_parsed (parse_version a) (parse_version b))
unfolding compare_versions
compare_versions-ok a b h k = rw (h, k)

-- Precedence is transitive: where `a` compares to `b` by `x`, and `b` to `c` by `y`, the comparison
-- of `a` with `c` succeeds, and it is the one that `x` and `y` force. In particular two versions
-- of equal precedence compare alike with every third one.
pub compare_versions-Chains :
    (a b c : Bytes) (x y : Ordering)
    → compare_versions a b ≡ ok x
    → compare_versions b c ≡ ok y
    → (z : Ordering) × (compare_versions a c ≡ ok z) × Chains x y z
compare_versions-Chains a b c x y h k =
    let (va, vb, first) = compare_versions-eq-ok a b h in
    let (vb', vc, second) = compare_versions-eq-ok b c k in
    (
      compare_parsed (parse_version a) (parse_version c),
      compare_versions-ok a c va vc,
      rw first at (
          rw second at
            (compare_parsed-Chains (parse_version a) (parse_version b) (parse_version c))),
    )
