-- ===== src/Release/Version.antt =====
-- core/release/semver.go and ValidVersion of core/release/parse.go: which texts are versions, and
-- their precedence. An `int` result of -1, 0 or 1 is the `Ordering` lt, eq or gt.
pub mod Order
use Prim.Native.Nat.{compare, Ordering}
use idunn.Prelude.{
  ℕ, ◌+◌, ◌-◌, ◌*◌, ◌^◌, Bool, true, false, ◌&&◌, ◌||◌, Option, none, some, List, [], ◌∷◌, Bytes,
  Result, ok, err, length, contains_byte, cut, split, ltb, leb, ◌==◌, if◌then◌else◌,
}

unfoldable pub is_digit : ℕ → Bool
is_digit c = leb b'0' c && leb c b'9'

-- The class `[0-9A-Za-z.-]`.
unfoldable pub is_ident : ℕ → Bool
unfolding is_digit
is_ident c =
    is_digit c || (leb b'A' c && leb c b'Z') || (leb b'a' c && leb c b'z') || c == b'.' || c == b'-'

-- Where a match of `semverRe` stands: before or inside one of the three numbers, before or inside
-- the pre-release, before or inside the build metadata.
pub data Mode : Type 0 where
  major0 major minor0 minor patch0 patch pre0 pre build0 build : Mode

-- The position after one more byte, or none if no match goes on.
unfoldable pub step : Mode → ℕ → Option Mode
unfolding is_digit is_ident
step major0 c = if is_digit c then some major else none
step major c = if is_digit c then some major else if c == b'.' then some minor0 else none
step minor0 c = if is_digit c then some minor else none
step minor c = if is_digit c then some minor else if c == b'.' then some patch0 else none
step patch0 c = if is_digit c then some patch else none
step patch c =
    if is_digit c
    then some patch
    else if c == b'-'
    then some pre0
    else if c == b'+'
    then some build0
    else none
step pre0 c = if is_ident c then some pre else none
step pre c = if is_ident c then some pre else if c == b'+' then some build0 else none
step build0 c = if is_ident c then some build else none
step build c = if is_ident c then some build else none

-- `$`: the match may end here.
unfoldable pub final : Mode → Bool
final patch = true
final pre = true
final build = true
final _ = false

unfoldable pub accepts : Mode → Bytes → Bool
unfolding step final
accepts m [] = final m
accepts m (c ∷ s) = elim (step m c) [ none ↦ false | some m' ↦ accepts m' s ]

unfoldable pub valid_version : Bytes → Bool
unfolding accepts
valid_version v = accepts major0 v

abbrev pub max_u64 : ℕ
max_u64 = 2 ^ 64 - 1

-- strconv.ParseUint(s, 10, 64); none is its error, a syntax error or a value out of range.
unfoldable pub digits_value : Bytes → ℕ → Option ℕ
unfolding is_digit
digits_value [] n = some n
digits_value (c ∷ s) n =
    let m = n * 10 + (c - b'0') in
    let rest = digits_value s m in
    if is_digit c then (if ltb max_u64 m then none else rest) else none

unfoldable pub parse_uint : Bytes → Option ℕ
unfolding digits_value
parse_uint [] = none
parse_uint (c ∷ s) = digits_value (c ∷ s) 0

pub record ParsedVersion : Type 0 where
  pub major : ℕ
  pub minor : ℕ
  pub patch : ℕ
  pub pre_ids : List Bytes

-- A numeric field; one that does not fit is the largest value.
unfoldable pub field_value : Bytes → ℕ
unfolding parse_uint
field_value s = elim (parse_uint s) [ none ↦ max_u64 | some n ↦ n ]

-- The text before the first `sep`, or all of it.
unfoldable pub before : Bytes → ℕ → Bytes
unfolding cut
before s sep = elim (cut s sep) [ none ↦ s | some (a, b) ↦ a ]

unfoldable pub after_dash : Bytes → List Bytes
unfolding cut split
after_dash s = elim (cut s b'-') [ none ↦ [] | some (a, b) ↦ split b b'.' ]

-- What follows the first dot, or nothing; SplitN stops there at its limit of three.
unfoldable pub after_dot : Bytes → Bytes
unfolding cut
after_dot s = elim (cut s b'.') [ none ↦ [] | some (a, b) ↦ b ]

unfoldable pub parse_version : Bytes → ParsedVersion
unfolding before after_dash after_dot field_value
parse_version v =
    let core = before v b'+' in
    let nums = before core b'-' in
    record {
      major = field_value (before nums b'.');
      minor = field_value (before (after_dot nums) b'.');
      patch = field_value (after_dot (after_dot nums));
      pre_ids = after_dash core;
    }

-- A pre-release identifier as a number; a leading zero or a value beyond uint64 makes it a text.
unfoldable pub numeric_ident : Bytes → Option ℕ
unfolding parse_uint
numeric_ident [] = none
numeric_ident (c ∷ []) = parse_uint (c ∷ [])
numeric_ident (c ∷ d ∷ s) = if c == b'0' then none else parse_uint (c ∷ d ∷ s)

-- The first difference decides.
infixr 20 ◌then_by◌
abbrev pub ◌then_by◌ : Ordering → Ordering → Ordering
Ordering.eq then_by o = o
Ordering.lt then_by o = Ordering.lt
Ordering.gt then_by o = Ordering.gt

-- strings.Compare.
unfoldable pub compare_bytes : Bytes → Bytes → Ordering
compare_bytes [] [] = Ordering.eq
compare_bytes [] (b ∷ t) = Ordering.lt
compare_bytes (a ∷ s) [] = Ordering.gt
compare_bytes (a ∷ s) (b ∷ t) = compare a b then_by compare_bytes s t

-- The switch of comparePreField.
unfoldable pub compare_idents : Option ℕ → Option ℕ → Bytes → Bytes → Ordering
unfolding compare_bytes
compare_idents (some an) (some bn) a b = compare an bn
compare_idents (some an) none a b = Ordering.lt
compare_idents none (some bn) a b = Ordering.gt
compare_idents none none a b = compare_bytes a b

unfoldable pub compare_pre_field : Bytes → Bytes → Ordering
unfolding compare_idents numeric_ident
compare_pre_field a b = compare_idents (numeric_ident a) (numeric_ident b) a b

-- The loop over the shared identifiers, and the longer list above the shorter.
unfoldable pub compare_pre : List Bytes → List Bytes → Ordering
unfolding compare_pre_field
compare_pre [] [] = Ordering.eq
compare_pre [] (b ∷ t) = Ordering.lt
compare_pre (a ∷ s) [] = Ordering.gt
compare_pre (a ∷ s) (b ∷ t) = compare_pre_field a b then_by compare_pre s t

-- A release outranks its pre-releases.
unfoldable pub compare_tail : List Bytes → List Bytes → Ordering
unfolding compare_pre
compare_tail [] [] = Ordering.eq
compare_tail [] (b ∷ t) = Ordering.gt
compare_tail (a ∷ s) [] = Ordering.lt
compare_tail (a ∷ s) (b ∷ t) = compare_pre (a ∷ s) (b ∷ t)

unfoldable pub compare_parsed : ParsedVersion → ParsedVersion → Ordering
unfolding compare_tail
compare_parsed a b =
    compare a.major b.major
    then_by (compare a.minor b.minor
        then_by (compare a.patch b.patch then_by compare_tail a.pre_ids b.pre_ids))

-- ErrInvalid, by what it refuses.
pub data Invalid : Type 0 where
  not_semver not_upgrade ambiguous_order not_published : Invalid

unfoldable pub compare_versions : Bytes → Bytes → Result Invalid Ordering
unfolding valid_version compare_parsed parse_version
compare_versions a b =
    if valid_version a
    then (if valid_version b
        then ok (compare_parsed (parse_version a) (parse_version b))
        else err not_semver)
    else err not_semver

unfoldable pub major_of : Bytes → Option ℕ
unfolding valid_version parse_version
major_of v = if valid_version v then some ((parse_version v).major) else none

abbrev pub is_newer : Ordering → Bool
is_newer Ordering.gt = true
is_newer _ = false

-- Newer: strictly higher precedence.
unfoldable pub newer : Bytes → Bytes → Result Invalid Bool
unfolding compare_versions
newer a b = elim (compare_versions a b) [ ok c ↦ ok (is_newer c) | err e ↦ err e ]
