-- ===== src/Release/Descriptor/Parsing.antt =====
-- ParseDescriptor accepts exactly the well-formed descriptors of well-spelled documents.
use idunn.Prelude.{
  true, false, ◌≤◌, Option, none, some, List, [], ◌∷◌, Bytes, All, all, member, ◌==◌, ==_iff, ltb,
  ltb-false→le, ok, refuse_if-false, bind-eq-ok, then-eq-ok, ok-injective, ◌≡◌, ◌≢◌, refl, ap, ◌∙◌,
  ◌↔◌, arith,
}
use idunn.Prelude.Options.{not-false}
use idunn.Release.Descriptor
use idunn.Release.Descriptor.{
  Raw, Inner, FileRef, Requirements, Float, ParseError, max_json_len, is_none, decode_strict,
  check_keys, descriptor_fields, file_fields, requirements_fields, check_file_keys, check_nested,
  check_descriptor_keys, validate_requirements, check_files, outside_unit, any_empty,
  check_descriptor, parse_descriptor,
}

-- An object that was read, with no key but those of a list.
pub IsSpelled : List Bytes → Option (List Bytes) → Type 0
IsSpelled allowed none = ⊥
IsSpelled allowed (some keys) = All (λ key. member key allowed ≡ true) keys

pub IsSpelledIfThere : List Bytes → Option (Option (List Bytes)) → Type 0
IsSpelledIfThere allowed none = Unit
IsSpelledIfThere allowed (some keys) = IsSpelled allowed keys

all-All :
    (allowed keys : List Bytes)
    → all (λ key. member key allowed) keys ≡ true
    → All (λ key. member key allowed ≡ true) keys
unfolding all
all-All allowed [] h = tt
all-All allowed (k ∷ keys) h = (ground arith, all-All allowed keys (ground arith))

All-all :
    (allowed keys : List Bytes)
    → All (λ key. member key allowed ≡ true) keys
    → all (λ key. member key allowed) keys ≡ true
unfolding all
All-all allowed [] h = refl
All-all allowed (k ∷ keys) h = rw (h.0) (All-all allowed keys h.1)

pub check_keys_iff :
    (allowed : List Bytes) (o : Option (List Bytes))
    → (check_keys o allowed ≡ ok tt) ↔ IsSpelled allowed o
unfolding check_keys IsSpelled
check_keys_iff allowed none = (λ h. cc, λ h. elim h [ ])
check_keys_iff allowed (some keys) = (
  λ h. all-All allowed keys (not-false _ (refuse_if-false _ _ h)),
  λ h. rw (All-all allowed keys h) refl,
)

pub check_nested_iff :
    (allowed : List Bytes) (o : Option (Option (List Bytes)))
    → (check_nested o allowed ≡ ok tt) ↔ IsSpelledIfThere allowed o
unfolding check_nested IsSpelledIfThere
check_nested_iff allowed none = (λ h. tt, λ h. refl)
check_nested_iff allowed (some keys) = check_keys_iff allowed keys

check_file_keys_iff :
    (files : List (Option (List Bytes)))
    → (check_file_keys files ≡ ok tt) ↔ All (IsSpelled file_fields) files
unfolding check_file_keys
check_file_keys_iff [] = (λ h. tt, λ h. refl)
check_file_keys_iff (keys ∷ rest) = (
  λ h.
      let (h1, h2) = then-eq-ok (check_keys keys file_fields) _ h in
      ((check_keys_iff file_fields keys).0 h1, (check_file_keys_iff rest).0 h2),
  λ h. rw ((check_keys_iff file_fields keys).1 h.0) ((check_file_keys_iff rest).1 h.1),
)

-- One document of at most a megabyte, and nothing after it, that decodes to `d`.
pub Decodes : {A N : Type 0} → Raw A N → A → Type 0
Decodes raw d =
    (raw.size ≢ 0) × (raw.size ≤ max_json_len) × (raw.decoded ≡ some d) × (raw.more ≡ false)

pub is_none-ok :
    {A : Type 0} (o : Option A) (e : ParseError) (a : A) → is_none o e ≡ ok a → o ≡ some a
is_none-ok none e a h = cc
is_none-ok (some b) e a h = ap some (ok-injective b a h)

decode_strict-Decodes :
    {A N : Type 0} (raw : Raw A N) (d : A) → decode_strict raw ≡ ok d → Decodes raw d
unfolding decode_strict Decodes
decode_strict-Decodes raw d h =
    let (h1, k1) = then-eq-ok _ _ h in
    let (h2, k2) = then-eq-ok _ _ k1 in
    let (a, h3, k3) = bind-eq-ok _ _ k2 in
    let (h4, k4) = then-eq-ok _ _ k3 in
    let sized : (raw.size == 0) ≡ false = refuse_if-false _ _ h1 in
    (
      λ e. cc (sized, (==_iff raw.size 0).1 e),
      ltb-false→le _ _ (refuse_if-false _ _ h2),
      is_none-ok raw.decoded _ a h3 ∙ ap some (ok-injective a d k4),
      refuse_if-false _ _ h4,
    )

Decodes-decode_strict :
    {A N : Type 0} (raw : Raw A N) (d : A) → Decodes raw d → decode_strict raw ≡ ok d
unfolding decode_strict Decodes
Decodes-decode_strict raw d (n, l, e, m) =
    let sized : (raw.size == 0) ≡ false = ground arith in
    let small : ltb max_json_len raw.size ≡ false = ground arith in rw (sized, small, e, m) refl

pub decode_strict_iff :
    {A N : Type 0} (raw : Raw A N) (d : A) → (decode_strict raw ≡ ok d) ↔ Decodes raw d
decode_strict_iff raw d = (decode_strict-Decodes raw d, Decodes-decode_strict raw d)

-- The spelling of every key, at every level.
pub IsSpelledOut : Raw Descriptor.Descriptor Inner → Type 0
IsSpelledOut raw =
    IsSpelled descriptor_fields raw.keys
    × ((doc : Inner) × (raw.nested ≡ some doc)
        × All (IsSpelled file_fields) doc.file_keys
        × IsSpelledIfThere requirements_fields doc.requirement_keys)

check_descriptor_keys-IsSpelledOut :
    (raw : Raw Descriptor.Descriptor Inner) → check_descriptor_keys raw ≡ ok tt → IsSpelledOut raw
unfolding check_descriptor_keys IsSpelledOut
check_descriptor_keys-IsSpelledOut raw h =
    let (h1, k1) = then-eq-ok _ _ h in
    let (doc, h2, k2) = bind-eq-ok _ _ k1 in
    let (h3, h4) = then-eq-ok _ _ k2 in
    (
      (check_keys_iff descriptor_fields raw.keys).0 h1,
      (
        doc,
        is_none-ok raw.nested _ doc h2,
        (check_file_keys_iff doc.file_keys).0 h3,
        (check_nested_iff requirements_fields doc.requirement_keys).0 h4,
      ),
    )

IsSpelledOut-check_descriptor_keys :
    (raw : Raw Descriptor.Descriptor Inner) → IsSpelledOut raw → check_descriptor_keys raw ≡ ok tt
unfolding check_descriptor_keys IsSpelledOut
IsSpelledOut-check_descriptor_keys raw (h1, (doc, h2, h3, h4)) =
    rw
      (
        (check_keys_iff descriptor_fields raw.keys).1 h1,
        h2,
        (check_file_keys_iff doc.file_keys).1 h3,
      )
      ((check_nested_iff requirements_fields doc.requirement_keys).1 h4)

pub check_descriptor_keys_iff :
    (raw : Raw Descriptor.Descriptor Inner) → (check_descriptor_keys raw ≡ ok tt) ↔ IsSpelledOut raw
check_descriptor_keys_iff raw =
    (check_descriptor_keys-IsSpelledOut raw, IsSpelledOut-check_descriptor_keys raw)
