-- ===== src/Release/Documents/Accepts.antt =====
-- ParsePointer and ParsePolicy accept exactly the well-formed documents.
use idunn.Prelude.{
  ℕ, true, false, ◌≤◌, Option, none, some, List, [], ◌∷◌, Bytes, All, ok, refuse_if-false,
  bind-eq-ok, then-eq-ok, ok-injective, ◌≡◌, refl, sym, ap, ◌∙◌, ◌↔◌, arith,
}
use idunn.Prelude.Options.{not-false}
use idunn.Prelude.Integers.{ℤ, pos, negsuc, outside}
use idunn.Safepath
use idunn.Safepath.{clean_target}
use idunn.Safepath.Plain.{IsPlain, clean-ok_iff}
use idunn.Release.Version.{valid_version}
use idunn.Release.Descriptor.{Raw}
use idunn.Release.Descriptor.Files.{check_path_iff}
use idunn.Release.Descriptor.Parsing.{
  Decodes, decode_strict_iff, IsSpelled, IsSpelledIfThere, check_keys_iff, check_nested_iff,
  is_none-ok,
}
use idunn.Release.Descriptor.Accepts.{IsNonempty, is_int_iff, any_empty_iff}
use idunn.Release.Documents.{
  Pointer, pointer_fields, check_pointer, parse_pointer, ProbationPolicy, Policy, policy_fields,
  probation_policy_fields, max_probation_attempts, max_probation_restarts, check_probation,
  check_policy, parse_policy,
}

-- What the client relies on in a channel pointer.
pub IsPointer : Pointer → Type 0
IsPointer p =
    (p.schema_version ≡ pos 1)
    × All IsNonempty (p.channel ∷ p.os ∷ p.arch ∷ [])
    × (valid_version p.version ≡ true)
    × IsPlain p.descriptor

check_pointer_iff : (p : Pointer) → (check_pointer p ≡ ok tt) ↔ IsPointer p
unfolding check_pointer IsPointer Safepath.clean_target
check_pointer_iff p = (
  λ h.
      let (h1, k1) = then-eq-ok _ _ h in
      let (h2, k2) = then-eq-ok _ _ k1 in
      let (h3, h4) = then-eq-ok _ _ k2 in
      (
        (is_int_iff p.schema_version 1).0 (not-false _ (refuse_if-false _ _ h1)),
        (any_empty_iff (p.channel ∷ p.os ∷ p.arch ∷ [])).0 (refuse_if-false _ _ h2),
        not-false _ (refuse_if-false _ _ h3),
        (clean-ok_iff p.descriptor).0 ((check_path_iff p.descriptor _ _ _).0 h4),
      ),
  λ h.
      rw
        (
          (is_int_iff p.schema_version 1).1 h.0,
          (any_empty_iff (p.channel ∷ p.os ∷ p.arch ∷ [])).1 h.1,
          h.2,
        )
        ((check_path_iff p.descriptor _ _ _).1 ((clean-ok_iff p.descriptor).1 h.3)),
)

-- ParsePointer answers a pointer exactly where the document is one of at most a megabyte that
-- decodes to it, its keys are spelled as the format says, its schema is known, its channel and
-- platform are not empty, its version is valid and its descriptor is a plain path.
pub parse_pointer_iff :
    (raw : Raw Pointer (Unit {0})) (p : Pointer)
    → (parse_pointer raw ≡ ok p) ↔ (Decodes raw p × IsSpelled pointer_fields raw.keys × IsPointer p)
unfolding parse_pointer
parse_pointer_iff raw p = (
  λ h.
      let (a, h1, k1) = bind-eq-ok _ _ h in
      let (h2, k2) = then-eq-ok _ _ k1 in
      let (h3, h4) = then-eq-ok _ _ k2 in
      let e = ok-injective a p h4 in
      (
        (decode_strict_iff raw p).0 (h1 ∙ h4),
        (check_keys_iff pointer_fields raw.keys).0 h2,
        (check_pointer_iff p).0 (ap check_pointer (sym e) ∙ h3),
      ),
  λ h.
      rw
        (
          (decode_strict_iff raw p).1 h.0,
          (check_keys_iff pointer_fields raw.keys).1 h.1,
          (check_pointer_iff p).1 h.2,
        )
        refl,
)

-- A number from 0 to `top`.
abbrev pub UpTo : ℕ → ℤ → Type 0
UpTo top (pos n) = n ≤ top
UpTo top (negsuc n) = ⊥

pub outside_iff : (x : ℤ) (top : ℕ) → (outside x top ≡ false) ↔ UpTo top x
unfolding outside
outside_iff (pos n) top = (λ h. ground arith, λ h. ground arith)
outside_iff (negsuc n) top = (λ h. cc, λ h. elim h [ ])

unfoldable pub IsAllowance : Option ProbationPolicy → Type 0
IsAllowance none = Unit
IsAllowance (some pp) =
    UpTo max_probation_attempts pp.attempts × UpTo max_probation_restarts pp.restarts

-- What the client relies on in a policy.
unfoldable pub IsPolicy : Policy → Type 0
IsPolicy p =
    (p.schema_version ≡ pos 1)
    × All IsNonempty (p.name ∷ p.os ∷ p.arch ∷ [])
    × (valid_version p.version ≡ true)
    × IsAllowance p.probation

check_probation_iff : (o : Option ProbationPolicy) → (check_probation o ≡ ok tt) ↔ IsAllowance o
unfolding check_probation IsAllowance
check_probation_iff none = (λ h. tt, λ h. refl)
check_probation_iff (some pp) = (
  λ h.
      let (h1, h2) = then-eq-ok _ _ h in
      (
        (outside_iff pp.attempts max_probation_attempts).0 (refuse_if-false _ _ h1),
        (outside_iff pp.restarts max_probation_restarts).0 (refuse_if-false _ _ h2),
      ),
  λ h.
      rw
        (
          (outside_iff pp.attempts max_probation_attempts).1 h.0,
          (outside_iff pp.restarts max_probation_restarts).1 h.1,
        )
        refl,
)

check_policy_iff : (p : Policy) → (check_policy p ≡ ok tt) ↔ IsPolicy p
unfolding check_policy IsPolicy
check_policy_iff p = (
  λ h.
      let (h1, k1) = then-eq-ok _ _ h in
      let (h2, k2) = then-eq-ok _ _ k1 in
      let (h3, h4) = then-eq-ok _ _ k2 in
      (
        (is_int_iff p.schema_version 1).0 (not-false _ (refuse_if-false _ _ h1)),
        (any_empty_iff (p.name ∷ p.os ∷ p.arch ∷ [])).0 (refuse_if-false _ _ h2),
        not-false _ (refuse_if-false _ _ h3),
        (check_probation_iff p.probation).0 h4,
      ),
  λ h.
      rw
        (
          (is_int_iff p.schema_version 1).1 h.0,
          (any_empty_iff (p.name ∷ p.os ∷ p.arch ∷ [])).1 h.1,
          h.2,
        )
        ((check_probation_iff p.probation).1 h.3),
)

-- ParsePolicy answers a policy exactly where the document is one of at most a megabyte that
-- decodes to it, its keys and those of its probation are spelled as the format says, its schema is
-- known, its name and platform are not empty, its version is valid, and its allowances are within
-- 0 and 20.
pub parse_policy_iff :
    (raw : Raw Policy (Option (Option (List Bytes)))) (p : Policy)
    → (parse_policy raw ≡ ok p) ↔ (
        Decodes raw p
        × IsSpelled policy_fields raw.keys
        × ((nested : Option (Option (List Bytes))) × (raw.nested ≡ some nested)
            × IsSpelledIfThere probation_policy_fields nested)
        × IsPolicy p)
unfolding parse_policy
parse_policy_iff raw p = (
  λ h.
      let (a, h1, k1) = bind-eq-ok _ _ h in
      let (h2, k2) = then-eq-ok _ _ k1 in
      let (n, h3, k3) = bind-eq-ok _ _ k2 in
      let (h4, k4) = then-eq-ok _ _ k3 in
      let (h5, h6) = then-eq-ok _ _ k4 in
      let e = ok-injective a p h6 in
      (
        (decode_strict_iff raw p).0 (h1 ∙ h6),
        (check_keys_iff policy_fields raw.keys).0 h2,
        (n, is_none-ok raw.nested _ n h3, (check_nested_iff probation_policy_fields n).0 h4),
        (check_policy_iff p).0 (ap check_policy (sym e) ∙ h5),
      ),
  λ h.
      let (n, hn, hs) = h.2 in
      rw
        (
          (decode_strict_iff raw p).1 h.0,
          (check_keys_iff policy_fields raw.keys).1 h.1,
          hn,
          (check_nested_iff probation_policy_fields n).1 hs,
          (check_policy_iff p).1 h.3,
        )
        refl,
)
