-- ===== src/Release/Documents.antt =====
-- ParsePointer of core/release/parse.go and ParsePolicy of core/release/policy.go: the two smaller
-- documents of a repository.
pub mod Accepts
mod Tests
use idunn.Prelude.{
  ℕ, Bool, true, false, not, ◌||◌, Option, none, some, List, [], ◌∷◌, Bytes, codes, Result, ok, err,
  ◌>>=◌, ◌>>◌, refuse_if,
}
use idunn.Prelude.Integers.{ℤ, is_int, outside}
use idunn.Release.Version.{valid_version}
use idunn.Release.Descriptor.{
  Raw, ParseError, decode_strict, check_keys, check_nested, any_empty, check_path, is_none,
}
use idunn.Safepath.{clean_target}

pub record Pointer : Type 0 where
  pub schema_version : ℤ
  pub channel : Bytes
  pub os : Bytes
  pub arch : Bytes
  pub version : Bytes
  pub descriptor : Bytes

abbrev pub pointer_fields : List Bytes
pointer_fields =
    codes "schema_version"
    ∷ codes "channel"
    ∷ codes "os"
    ∷ codes "arch"
    ∷ codes "version"
    ∷ codes "descriptor"
    ∷ []

unfoldable pub check_pointer : Pointer → Result ParseError (Unit {0})
unfolding is_int check_path
check_pointer p = do
  refuse_if (not (is_int p.schema_version 1)) ParseError.bad_schema
  refuse_if (any_empty (p.channel ∷ p.os ∷ p.arch ∷ [])) ParseError.empty_field
  refuse_if (not (valid_version p.version)) ParseError.bad_version
  check_path (clean_target p.descriptor) p.descriptor ParseError.bad_target
      ParseError.unclean_target

unfoldable pub parse_pointer : Raw Pointer (Unit {0}) → Result ParseError Pointer
unfolding decode_strict check_keys check_pointer
parse_pointer raw = do
  p ← decode_strict raw
  check_keys raw.keys pointer_fields
  check_pointer p
  ok p

pub record ProbationPolicy : Type 0 where
  pub attempts : ℤ
  pub restarts : ℤ

pub record Policy : Type 0 where
  pub schema_version : ℤ
  pub name : Bytes
  pub version : Bytes
  pub os : Bytes
  pub arch : Bytes
  pub probation : Option ProbationPolicy

abbrev pub policy_fields : List Bytes
policy_fields =
    codes "schema_version"
    ∷ codes "name"
    ∷ codes "version"
    ∷ codes "os"
    ∷ codes "arch"
    ∷ codes "probation"
    ∷ []

abbrev pub probation_policy_fields : List Bytes
probation_policy_fields = codes "attempts" ∷ codes "restarts" ∷ []

abbrev pub max_probation_attempts : ℕ
max_probation_attempts = 20

abbrev pub max_probation_restarts : ℕ
max_probation_restarts = 20

unfoldable pub check_probation : Option ProbationPolicy → Result ParseError (Unit {0})
unfolding outside
check_probation none = ok tt
check_probation (some pp) = do
  refuse_if (outside pp.attempts max_probation_attempts) ParseError.bad_attempts
  refuse_if (outside pp.restarts max_probation_restarts) ParseError.bad_restarts

unfoldable pub check_policy : Policy → Result ParseError (Unit {0})
unfolding is_int check_probation
check_policy p = do
  refuse_if (not (is_int p.schema_version 1)) ParseError.bad_schema
  refuse_if (any_empty (p.name ∷ p.os ∷ p.arch ∷ [])) ParseError.empty_field
  refuse_if (not (valid_version p.version)) ParseError.bad_version
  check_probation p.probation

-- `nested` holds the keys of `probation`, where it is there and not null.
unfoldable pub parse_policy : Raw Policy (Option (Option (List Bytes))) → Result ParseError Policy
unfolding decode_strict check_keys check_nested check_policy
parse_policy raw = do
  p ← decode_strict raw
  check_keys raw.keys policy_fields
  nested ← is_none raw.nested ParseError.malformed
  check_nested nested probation_policy_fields
  check_policy p
  ok p
