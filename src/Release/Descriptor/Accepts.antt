-- ===== src/Release/Descriptor/Accepts.antt =====
-- ParseDescriptor accepts exactly the well-formed descriptors, and answers them unchanged.
use idunn.Prelude.{
  ℕ, Bool, true, false, not, ◌&&◌, ◌^◌, ◌≤◌, List, [], ◌∷◌, Bytes, All, member, same, ◌==◌, ==_iff,
  ltb, if◌then◌else◌, ok, refuse_if-false, bind-eq-ok, then-eq-ok, ok-injective, ◌≡◌, ◌≢◌, ◌⊎◌,
  refl, sym, ap, ◌∙◌, ◌↔◌, arith, inl, inr,
}
use idunn.Prelude.Options.{not-false}
use idunn.Prelude.Integers.{ℤ, pos, negsuc, is_int}
use idunn.Release.Version.{valid_version}
use idunn.Release.Descriptor
use idunn.Release.Descriptor.{
  Raw, Inner, FileRef, Requirements, Float, ParseError, check_descriptor_keys,
  validate_requirements, check_files, outside_unit, any_empty, check_descriptor, parse_descriptor,
  decode_strict,
}
use idunn.Release.Descriptor.Files.{AreFiles, check_files-AreFiles}
use idunn.Release.Descriptor.Parsing.{
  Decodes, decode_strict_iff, IsSpelledOut, check_descriptor_keys_iff,
}

pub IsNonempty : Bytes → Type 0
IsNonempty [] = ⊥
IsNonempty (c ∷ s) = Unit

-- A version, or nothing where the descriptor asks for none.
abbrev pub IsFloor : Bytes → Type 0
IsFloor v = (v ≡ []) ⊎ (valid_version v ≡ true)

-- Zero to one.
pub InUnit : Float → Type 0
InUnit x = if x.negative then x.whole ≡ 0 else x.whole ≤ 2 ^ x.scale

-- What the client relies on in a descriptor.
pub IsWellFormed : Descriptor.Descriptor → Type 0
IsWellFormed d =
    (d.schema_version ≡ pos 1)
    × (d.layout_schema ≡ pos 1)
    × All IsNonempty (d.name ∷ d.channel ∷ d.os ∷ d.arch ∷ [])
    × (valid_version d.version ≡ true)
    × InUnit d.rollout
    × IsFloor d.requirements.min_from_version
    × IsFloor d.requirements.min_client_version
    × (d.files ≢ [])
    × AreFiles d.files

pos-injective : (m n : ℕ) → pos m ≡ pos n → m ≡ n
pos-injective m n h = cc

pub is_int_iff : (x : ℤ) (n : ℕ) → (is_int x n ≡ true) ↔ (x ≡ pos n)
unfolding is_int
is_int_iff (pos m) n = (λ h. ap pos ((==_iff m n).0 h), λ h. (==_iff m n).1 (pos-injective m n h))
is_int_iff (negsuc m) n = (λ h. cc, λ h. cc)

pub any_empty_iff : (fields : List Bytes) → (any_empty fields ≡ false) ↔ All IsNonempty fields
unfolding member same IsNonempty
any_empty_iff [] = (λ h. tt, λ h. refl)
any_empty_iff ([] ∷ fields) = (λ h. cc, λ h. elim h.0 [ ])
any_empty_iff ((c ∷ s) ∷ fields) =
    (λ h. (tt, (any_empty_iff fields).0 h), λ h. (any_empty_iff fields).1 h.1)

outside_unit_iff : (x : Float) → (outside_unit x ≡ false) ↔ InUnit x
unfolding outside_unit InUnit
outside_unit_iff x = go x.negative x.whole (2 ^ x.scale)
  where
    go :
        (b : Bool) (n m : ℕ)
        → ((if b then not (n == 0) else ltb m n) ≡ false) ↔ (if b then n ≡ 0 else n ≤ m)
    go true n m = (λ h. ground arith, λ h. ground arith)
    go false n m = (λ h. ground arith, λ h. ground arith)

IsFloor-iff : (v : Bytes) → ((not (same v []) && not (valid_version v)) ≡ false) ↔ IsFloor v
unfolding same
IsFloor-iff [] = (λ h. inl refl, λ h. refl)
IsFloor-iff (c ∷ s) = (λ h. inr (not-false _ h), λ h. elim h [ inl e ↦ cc | inr e ↦ rw (e) refl ])

validate_requirements_iff :
    (r : Requirements)
    → (validate_requirements r ≡ ok tt)
      ↔ (IsFloor r.min_from_version × IsFloor r.min_client_version)
unfolding validate_requirements
validate_requirements_iff r = (
  λ h.
      let (h1, h2) = then-eq-ok _ _ h in
      (
        (IsFloor-iff r.min_from_version).0 (refuse_if-false _ _ h1),
        (IsFloor-iff r.min_client_version).0 (refuse_if-false _ _ h2),
      ),
  λ h. rw ((IsFloor-iff r.min_from_version).1 h.0, (IsFloor-iff r.min_client_version).1 h.1) refl,
)

no_files_iff : (fs : List FileRef) → (elim fs [ [] ↦ true | _ ∷ _ ↦ false ] ≡ false) ↔ (fs ≢ [])
no_files_iff [] = (λ h. cc, λ h. elim (h refl) [ ])
no_files_iff (f ∷ fs) = (λ h e. cc, λ h. refl)

check_descriptor-IsWellFormed :
    (d : Descriptor.Descriptor) → check_descriptor d ≡ ok tt → IsWellFormed d
unfolding check_descriptor IsWellFormed
check_descriptor-IsWellFormed d h =
    let (h1, k1) = then-eq-ok _ _ h in
    let (h2, k2) = then-eq-ok _ _ k1 in
    let (h3, k3) = then-eq-ok _ _ k2 in
    let (h4, k4) = then-eq-ok _ _ k3 in
    let (h5, k5) = then-eq-ok _ _ k4 in
    let (h6, k6) = then-eq-ok _ _ k5 in
    let (h7, h8) = then-eq-ok _ _ k6 in
    let (r1, r2) = (validate_requirements_iff d.requirements).0 h6 in
    (
      (is_int_iff d.schema_version 1).0 (not-false _ (refuse_if-false _ _ h1)),
      (is_int_iff d.layout_schema 1).0 (not-false _ (refuse_if-false _ _ h2)),
      (any_empty_iff (d.name ∷ d.channel ∷ d.os ∷ d.arch ∷ [])).0 (refuse_if-false _ _ h3),
      not-false _ (refuse_if-false _ _ h4),
      (outside_unit_iff d.rollout).0 (refuse_if-false _ _ h5),
      r1,
      r2,
      (no_files_iff d.files).0 (refuse_if-false _ _ h7),
      (check_files-AreFiles d.files).0 h8,
    )

IsWellFormed-check_descriptor :
    (d : Descriptor.Descriptor) → IsWellFormed d → check_descriptor d ≡ ok tt
unfolding check_descriptor IsWellFormed
IsWellFormed-check_descriptor d (s, l, n, v, o, r1, r2, f, fs) =
    rw
      (
        (is_int_iff d.schema_version 1).1 s,
        (is_int_iff d.layout_schema 1).1 l,
        (any_empty_iff (d.name ∷ d.channel ∷ d.os ∷ d.arch ∷ [])).1 n,
        v,
        (outside_unit_iff d.rollout).1 o,
        (validate_requirements_iff d.requirements).1 (r1, r2),
        (no_files_iff d.files).1 f,
      )
      ((check_files-AreFiles d.files).1 fs)

-- ParseDescriptor answers a descriptor exactly where the document is one of at most a megabyte
-- that decodes to it, every key at every level is spelled as the format says, and the descriptor
-- is well-formed: known schemas, nothing empty, valid versions, a rollout from zero to one, and at
-- least one file, all with plain paths, known kinds and permission bits only, no two of them with
-- one target or one destination.
pub parse_descriptor_iff :
    (raw : Raw Descriptor.Descriptor Inner) (d : Descriptor.Descriptor)
    → (parse_descriptor raw ≡ ok d) ↔ (Decodes raw d × IsSpelledOut raw × IsWellFormed d)
unfolding parse_descriptor
parse_descriptor_iff raw d = (
  λ h.
      let (a, h1, k1) = bind-eq-ok _ _ h in
      let (h2, k2) = then-eq-ok _ _ k1 in
      let (h3, h4) = then-eq-ok _ _ k2 in
      let e = ok-injective a d h4 in
      (
        (decode_strict_iff raw d).0 (h1 ∙ h4),
        (check_descriptor_keys_iff raw).0 h2,
        check_descriptor-IsWellFormed d (ap check_descriptor (sym e) ∙ h3),
      ),
  λ h.
      rw
        (
          (decode_strict_iff raw d).1 h.0,
          (check_descriptor_keys_iff raw).1 h.1,
          IsWellFormed-check_descriptor d h.2,
        )
        refl,
)
