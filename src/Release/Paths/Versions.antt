-- ===== src/Release/Paths/Versions.antt =====
-- A client reads back exactly the versions that a publisher wrote into the paths of descriptors
-- and policies, and takes neither for the other.
use idunn.Prelude.{
  ℕ, Bool, true, false, ◌||◌, not, Option, none, some, [], ◌∷◌, ◌++◌, Bytes, codes, contains_byte,
  cut, cut_prefix, cut_suffix, cut_prefix-append, cut_prefix-some, same, same_iff, same_refl,
  append_assoc, ◌==◌, if◌then◌else◌, ◌≡◌, refl, sym, ap, ◌∙◌, ◌↔◌, arith, ==_iff, or-false,
  Bool-cases, inl, inr, ◌&&◌, ◌⊎◌,
}
use mathlib.Core.Path.{subst}
use mathlib.Core.List.{append_cancel_right}
use idunn.Prelude.Options.{◌>>=◌, bind-eq-some, unguarded, not-false}
use idunn.Prelude.Splits.{Lacks, contains_byte-append}
use idunn.Prelude.Cuts.{cut-append, cut_suffix-append, cut_suffix-some}
use idunn.Release.Version.{valid_version, accepts, step, Mode, is_ident, is_digit}
use idunn.Release.Paths.{
  release_prefix, json, descriptor_path, keep_valid, version_of_descriptor_path, policy_suffix,
  policy_path, PolicyOf, policy_of, version_of_policy_path,
}

-- No version holds a byte outside the class of identifiers but the plus sign.
step-is_ident : (m m' : Mode) (c : ℕ) → step m c ≡ some m' → (is_ident c || c == b'+') ≡ true
unfolding step is_ident is_digit
step-is_ident Mode.major0 m' c h = ground arith
step-is_ident Mode.major m' c h = ground arith
step-is_ident Mode.minor0 m' c h = ground arith
step-is_ident Mode.minor m' c h = ground arith
step-is_ident Mode.patch0 m' c h = ground arith
step-is_ident Mode.patch m' c h = ground arith
step-is_ident Mode.pre0 m' c h = ground arith
step-is_ident Mode.pre m' c h = ground arith
step-is_ident Mode.build0 m' c h = ground arith
step-is_ident Mode.build m' c h = ground arith

accepts-Lacks :
    (m : Mode) (s : Bytes) (b : ℕ)
    → (is_ident b || b == b'+') ≡ false
    → accepts m s ≡ true
    → Lacks b s
unfolding accepts contains_byte
accepts-Lacks m [] b hb h = refl
accepts-Lacks m (c ∷ s) b hb h = go (step m c) refl (λ m'. accepts-Lacks m' s b hb) h
  where
    go :
        (o : Option Mode)
        → step m c ≡ o
        → ((m' : Mode) → accepts m' s ≡ true → Lacks b s)
        → elim o [ none ↦ false | some m' ↦ accepts m' s ] ≡ true
        → (c == b || contains_byte b s) ≡ false
    go none e f h = cc
    go (some m') e f h =
        let ident = step-is_ident m m' c e in
        let differs : (c == b) ≡ false = ground (arith, ==_iff c b) in rw (differs) (f m' h)

valid_version-Lacks :
    (v : Bytes) (b : ℕ) → (is_ident b || b == b'+') ≡ false → valid_version v ≡ true → Lacks b v
unfolding valid_version
valid_version-Lacks v b hb h = accepts-Lacks Mode.major0 v b hb h

keep_valid-some :
    (o : Option Bytes) (v : Bytes) → keep_valid o ≡ some v → (o ≡ some v) × (valid_version v ≡ true)
keep_valid-some none v h = cc
keep_valid-some (some w) v h = go (valid_version w) refl h
  where
    go :
        (b : Bool)
        → valid_version w ≡ b
        → (if not b then none else some w) ≡ some v
        → (some w ≡ some v) × (valid_version v ≡ true)
    go true e h = (h, cc)
    go false e h = cc

version_of-eq :
    (goos goarch rest : Bytes)
    → version_of_descriptor_path (release_prefix goos goarch ++ rest) goos goarch
      ≡ keep_valid (cut_suffix rest json)
unfolding version_of_descriptor_path
version_of-eq goos goarch rest =
    ap (λ o. o >>= λ r. keep_valid (cut_suffix r json))
      (cut_prefix-append (release_prefix goos goarch) rest)

version_of-some :
    (path goos goarch version : Bytes)
    → version_of_descriptor_path path goos goarch ≡ some version
    → (path ≡ descriptor_path goos goarch version) × (valid_version version ≡ true)
unfolding version_of_descriptor_path descriptor_path
version_of-some path goos goarch version h =
    let prefix = release_prefix goos goarch in
    let (rest, e, k) =
      bind-eq-some (cut_prefix path prefix) (λ r. keep_valid (cut_suffix r json)) h in
    let (c, v) = keep_valid-some (cut_suffix rest json) version k in
    (
      cut_prefix-some path prefix rest e
          ∙ ap (λ r. prefix ++ r) (cut_suffix-some rest json version c),
      v,
    )

descriptor_path-version_of :
    (goos goarch version : Bytes)
    → valid_version version ≡ true
    → version_of_descriptor_path (descriptor_path goos goarch version) goos goarch ≡ some version
unfolding descriptor_path
descriptor_path-version_of goos goarch version v =
    version_of-eq goos goarch (version ++ json) ∙ rw (cut_suffix-append version json, v) refl

-- A target path reads as a version exactly where it is the path of that version's descriptor, and
-- the version is a valid one.
pub version_of_descriptor_path_iff :
    (path goos goarch version : Bytes)
    → (version_of_descriptor_path path goos goarch ≡ some version)
      ↔ ((path ≡ descriptor_path goos goarch version) × (valid_version version ≡ true))
version_of_descriptor_path_iff path goos goarch version = (
  version_of-some path goos goarch version,
  λ h.
      ap (λ p. version_of_descriptor_path p goos goarch) h.0
      ∙ descriptor_path-version_of goos goarch version h.1,
)

policy_of-some :
    (path goos goarch : Bytes) (o : Option Bytes) (p : PolicyOf)
    → policy_of path goos goarch o ≡ some p
    → (path ≡ policy_path p.goos p.goarch p.version) × (valid_version p.version ≡ true)
unfolding policy_of
policy_of-some path goos goarch none p h = cc
policy_of-some path goos goarch (some version) p h =
    let (g, e) = unguarded _ _ _ h in
    let (g2, differs) = or-false _ _ g in
    let (g1, invalid) = or-false _ _ g2 in
    let printed = (same_iff (policy_path goos goarch version) path).0 (not-false _ differs) in
    (
      sym printed ∙ ap (λ q. policy_path q.goos q.goarch q.version) e,
      ap (λ q. valid_version q.version) (sym e) ∙ not-false _ invalid,
    )

-- What a policy path names is the release whose policy path it is, with a valid version.
pub version_of_policy_path-some :
    (path : Bytes) (p : PolicyOf)
    → version_of_policy_path path ≡ some p
    → (path ≡ policy_path p.goos p.goarch p.version) × (valid_version p.version ≡ true)
unfolding version_of_policy_path
version_of_policy_path-some path p h =
    let (rest, _, h1) = bind-eq-some (cut_prefix path (codes "releases/")) _ h in
    let (pf, _, h2) = bind-eq-some (cut rest b'/') _ h1 in
    let (oa, _, h3) = bind-eq-some (cut pf.0 b'-') _ h2 in
    policy_of-some path oa.0 oa.1 (cut_suffix pf.1 policy_suffix) p h3

policy_path-cut :
    (goos goarch version : Bytes)
    → Lacks b'/' goos
    → Lacks b'/' goarch
    → cut (goos ++ (codes "-" ++ (goarch ++ codes "/")) ++ (version ++ policy_suffix)) b'/'
      ≡ some (goos ++ (b'-' ∷ goarch), version ++ policy_suffix)
unfolding contains_byte
policy_path-cut goos goarch version s1 s2 =
    let platform = goos ++ (b'-' ∷ goarch) in
    let whole : Lacks b'/' platform = contains_byte-append b'/' goos (b'-' ∷ goarch) ∙ rw (s1) s2 in
    let shape : goos ++ (codes "-" ++ (goarch ++ codes "/")) ++ (version ++ policy_suffix)
        ≡ platform ++ (b'/' ∷ (version ++ policy_suffix)) =
      let rest = version ++ policy_suffix in
      append_assoc goos (b'-' ∷ (goarch ++ codes "/")) rest
      ∙ ap (λ t. goos ++ (b'-' ∷ t)) (append_assoc goarch (codes "/") rest)
      ∙ sym (append_assoc goos (b'-' ∷ goarch) (b'/' ∷ rest)) in
    ap (λ t. cut t b'/') shape ∙ cut-append platform (version ++ policy_suffix) b'/' whole

policy_of-valid :
    (goos goarch version : Bytes)
    → same goos [] ≡ false
    → same goarch [] ≡ false
    → valid_version version ≡ true
    → policy_of (policy_path goos goarch version) goos goarch (some version)
      ≡ some record { goos = goos; goarch = goarch; version = version }
unfolding policy_of
policy_of-valid goos goarch version n1 n2 v =
    rw (n1, n2, v, same_refl (policy_path goos goarch version)) refl

-- The path of a release's policy is read back as that release, where the names of the platform are
-- not empty and the first holds no dash and neither of them a slash.
pub policy_path-version_of :
    (goos goarch version : Bytes)
    → Lacks b'-' goos
    → Lacks b'/' goos
    → Lacks b'/' goarch
    → same goos [] ≡ false
    → same goarch [] ≡ false
    → valid_version version ≡ true
    → version_of_policy_path (policy_path goos goarch version)
      ≡ some record { goos = goos; goarch = goarch; version = version }
unfolding version_of_policy_path policy_path
policy_path-version_of goos goarch version d s1 s2 n1 n2 v =
    rw
      (
        policy_path-cut goos goarch version s1 s2,
        cut-append goos goarch b'-' d,
        cut_suffix-append version policy_suffix,
      )
      (policy_of-valid goos goarch version n1 n2 v)

invalid_policy : (version : Bytes) → valid_version (version ++ codes "_policy") ≡ false
unfolding is_ident is_digit contains_byte
invalid_policy version = elim (Bool-cases (valid_version (version ++ codes "_policy"))) [
  | inl h ↦
      let lacks = valid_version-Lacks (version ++ codes "_policy") b'_' (ground arith) h in
      let holds = contains_byte-append b'_' version (codes "_policy") in ground arith
  | inr h ↦ h
]

-- No end of a policy's suffix is a version.
ends_invalid : Bytes → Bool
ends_invalid [] = not (valid_version [])
ends_invalid (c ∷ s) = let rest = ends_invalid s in not (valid_version (c ∷ s)) && rest

not-true : (b : Bool) → not b ≡ true → b ≡ false
not-true b h = ground arith

and-true : (a b : Bool) → (a && b) ≡ true → (a ≡ true) × (b ≡ true)
and-true a b h = ground arith

no_end : ends_invalid (codes "_policy") ≡ true
unfolding ends_invalid valid_version
no_end = refl

tail-eq : {x y : ℕ} {s t : Bytes} → x ∷ s ≡ y ∷ t → s ≡ t
tail-eq {s} e = ap (λ l. elim l [ [] ↦ s | a ∷ r ↦ r ]) e

ends_invalid-of : (u v s : Bytes) → s ≡ u ++ v → ends_invalid s ≡ true → valid_version v ≡ false
unfolding ends_invalid
ends_invalid-of [] v [] e h = subst (λ t. valid_version t ≡ false) e (not-true _ h)
ends_invalid-of [] v (c ∷ s) e h =
    subst (λ t. valid_version t ≡ false) e (not-true _ (and-true _ _ h).0)
ends_invalid-of (x ∷ u) v [] e h = cc
ends_invalid-of (x ∷ u) v (c ∷ s) e h = ends_invalid-of u v s (tail-eq e) (and-true _ _ h).1

-- A text that ends another one that ends in `s` ends in `s` too, or is an end of it.
end_of :
    (p q v s : Bytes)
    → p ++ v ≡ q ++ s
    → ((w : Bytes) × (v ≡ w ++ s)) ⊎ ((u : Bytes) × (s ≡ u ++ v))
end_of [] q v s e = inl (q, e)
end_of (x ∷ p) [] v s e = inr (x ∷ p, sym e)
end_of (x ∷ p) (y ∷ q) v s e = end_of p q v s (tail-eq e)

-- What is left of a policy's path before the suffix of a descriptor is no version.
policy_end :
    (goos goarch goos' goarch' version v : Bytes)
    → policy_path goos goarch version ≡ descriptor_path goos' goarch' v
    → valid_version v ≡ false
unfolding policy_path descriptor_path
policy_end goos goarch goos' goarch' version v e =
    let a = release_prefix goos' goarch' in
    let b = release_prefix goos goarch in
    let shape : (a ++ v) ++ json ≡ ((b ++ version) ++ codes "_policy") ++ json =
      append_assoc a v json
      ∙ sym e
      ∙ sym (append_assoc b version policy_suffix)
      ∙ sym (append_assoc (b ++ version) (codes "_policy") json) in
    elim (end_of a (b ++ version) v (codes "_policy") (append_cancel_right _ _ json shape)) [
      | inl (w, is_end) ↦ ap valid_version is_end ∙ invalid_policy w
      | inr (u, is_end) ↦ ends_invalid-of u v (codes "_policy") is_end no_end
    ]

none_of : {A : Type 0} (o : Option A) → ((a : A) → o ≡ some a → ⊥) → o ≡ none
none_of none f = refl
none_of (some a) f = absurd (f a refl)

-- No client, of whatever platform, takes the path of a policy for the path of a descriptor.
pub policy-not-descriptor :
    (goos goarch version goos' goarch' : Bytes)
    → version_of_descriptor_path (policy_path goos goarch version) goos' goarch' ≡ none
unfolding policy_path descriptor_path
policy-not-descriptor goos goarch version goos' goarch' =
    none_of (version_of_descriptor_path (policy_path goos goarch version) goos' goarch') λ v h.
      let (e, valid) = version_of-some (policy_path goos goarch version) goos' goarch' v h in
      cc (policy_end goos goarch goos' goarch' version v e, valid)
