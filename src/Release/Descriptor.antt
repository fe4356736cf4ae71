-- ===== src/Release/Descriptor.antt =====
-- core/release/descriptor.go and core/release/parse.go: a release descriptor, and what ParseDescriptor
-- asks of a document before the client believes a word of it.
pub mod Files
pub mod Parsing
pub mod Accepts
mod Tests
use idunn.Prelude.{
  ℕ, Bool, true, false, not, ◌||◌, ◌&&◌, if◌then◌else◌, ◌/◌, ◌^◌, Option, none, some, List, [], ◌∷◌,
  Bytes, codes, all, member, same, ltb, ◌==◌, Result, ok, err, ◌>>=◌, ◌>>◌, refuse_if,
}
use idunn.Prelude.Integers.{ℤ, is_int}
use idunn.Release.Version.{valid_version}
use idunn.Safepath
use idunn.Safepath.{clean, clean_target}

pub record FileRef : Type 0 where
  pub target : Bytes
  pub dst : Bytes
  pub mode : ℕ
  pub kind : Bytes

pub record Requirements : Type 0 where
  pub min_from_version : Bytes
  pub min_client_version : Bytes

-- A finite float64, whole / 2 ^ scale with its sign; a JSON document holds no other.
pub record Float : Type 0 where
  pub negative : Bool
  pub whole : ℕ
  pub scale : ℕ

pub record Descriptor : Type 0 where
  pub schema_version : ℤ
  pub name : Bytes
  pub version : Bytes
  pub channel : Bytes
  pub os : Bytes
  pub arch : Bytes
  pub files : List FileRef
  pub requirements : Requirements
  pub rollout : Float
  pub layout_schema : ℤ

-- What wraps ErrInvalid, by message.
pub data ParseError : Type 0 where
  empty_document too_large malformed trailing_data unknown_field bad_schema bad_layout empty_field :
      ParseError
  bad_version bad_rollout bad_requirement no_files bad_target unclean_target bad_dst unclean_dst :
      ParseError
  unknown_kind bad_mode duplicate_target duplicate_dst bad_attempts bad_restarts : ParseError

-- What encoding/json reads out of the bytes of a document: the value that a strict decoder fills,
-- whether more data follows it, the keys of its object, and those of the objects inside it. `none`
-- stands for an error of that reading.
pub record Raw (A N : Type 0) : Type 0 where
  pub size : ℕ
  pub decoded : Option A
  pub more : Bool
  pub keys : Option (List Bytes)
  pub nested : Option N

abbrev pub max_json_len : ℕ
max_json_len = 2 ^ 20

abbrev pub is_none {ℓ} : {A : Type ℓ} → Option A → ParseError → Result ParseError A
is_none none e = err e
is_none (some a) e = ok a

unfoldable pub decode_strict : {A N : Type 0} → Raw A N → Result ParseError A
decode_strict raw = do
  refuse_if (raw.size == 0) empty_document
  refuse_if (ltb max_json_len raw.size) too_large
  value ← is_none raw.decoded malformed
  refuse_if raw.more trailing_data
  ok value

unfoldable pub check_keys : Option (List Bytes) → List Bytes → Result ParseError (Unit {0})
unfolding all member
check_keys none allowed = err malformed
check_keys (some keys) allowed =
    refuse_if (not (all (λ key. member key allowed) keys)) unknown_field

abbrev pub descriptor_fields : List Bytes
descriptor_fields =
    codes "schema_version"
    ∷ codes "name"
    ∷ codes "version"
    ∷ codes "channel"
    ∷ codes "os"
    ∷ codes "arch"
    ∷ codes "files"
    ∷ codes "requirements"
    ∷ codes "rollout"
    ∷ codes "layout_schema"
    ∷ []

abbrev pub file_fields : List Bytes
file_fields = codes "target" ∷ codes "dst" ∷ codes "mode" ∷ codes "kind" ∷ []

abbrev pub requirements_fields : List Bytes
requirements_fields = codes "min_from_version" ∷ codes "min_client_version" ∷ []

-- The keys of the elements of `files`, and those of `requirements` where it is there and not null.
pub record Inner : Type 0 where
  pub file_keys : List (Option (List Bytes))
  pub requirement_keys : Option (Option (List Bytes))

unfoldable pub check_file_keys : List (Option (List Bytes)) → Result ParseError (Unit {0})
unfolding check_keys
check_file_keys [] = ok tt
check_file_keys (keys ∷ rest) =
    let others = check_file_keys rest in check_keys keys file_fields >> others

unfoldable pub check_nested :
    Option (Option (List Bytes)) → List Bytes → Result ParseError (Unit {0})
unfolding check_keys
check_nested none allowed = ok tt
check_nested (some keys) allowed = check_keys keys allowed

unfoldable pub check_descriptor_keys : Raw Descriptor Inner → Result ParseError (Unit {0})
unfolding check_keys check_file_keys check_nested
check_descriptor_keys raw = do
  check_keys raw.keys descriptor_fields
  doc ← is_none raw.nested malformed
  check_file_keys doc.file_keys
  check_nested doc.requirement_keys requirements_fields

unfoldable pub validate_requirements : Requirements → Result ParseError (Unit {0})
unfolding same
validate_requirements r = do
  refuse_if (not (same r.min_from_version []) && not (valid_version r.min_from_version))
      bad_requirement
  refuse_if (not (same r.min_client_version []) && not (valid_version r.min_client_version))
      bad_requirement

-- A path that Clean answers unchanged.
unfoldable pub check_path :
    Result Safepath.Error Bytes → Bytes → ParseError → ParseError → Result ParseError (Unit {0})
unfolding same
check_path (err e) path bad unclean = err bad
check_path (ok cleaned) path bad unclean = refuse_if (not (same cleaned path)) unclean

abbrev pub kinds : List Bytes
kinds = codes "exe" ∷ codes "lib" ∷ codes "data" ∷ []

unfoldable pub check_file : FileRef → List Bytes → List Bytes → Result ParseError (Unit {0})
unfolding check_path member
check_file f seen_target seen_dst = do
  check_path (clean_target f.target) f.target bad_target unclean_target
  check_path (clean f.dst) f.dst bad_dst unclean_dst
  refuse_if (not (member f.kind kinds)) unknown_kind
  refuse_if (not (f.mode / 512 == 0)) bad_mode
  refuse_if (member f.target seen_target) duplicate_target
  refuse_if (member f.dst seen_dst) duplicate_dst

unfoldable pub check_files : List FileRef → List Bytes → List Bytes → Result ParseError (Unit {0})
unfolding check_file
check_files [] seen_target seen_dst = ok tt
check_files (f ∷ fs) seen_target seen_dst =
    let rest = check_files fs (f.target ∷ seen_target) (f.dst ∷ seen_dst) in
    check_file f seen_target seen_dst >> rest

-- `rollout < 0 || rollout > 1`
unfoldable pub outside_unit : Float → Bool
outside_unit x = if x.negative then not (x.whole == 0) else ltb (2 ^ x.scale) x.whole

abbrev pub any_empty : List Bytes → Bool
any_empty fields = member [] fields

unfoldable pub check_descriptor : Descriptor → Result ParseError (Unit {0})
unfolding validate_requirements check_files outside_unit is_int member
check_descriptor d = do
  refuse_if (not (is_int d.schema_version 1)) bad_schema
  refuse_if (not (is_int d.layout_schema 1)) bad_layout
  refuse_if (any_empty (d.name ∷ d.channel ∷ d.os ∷ d.arch ∷ [])) empty_field
  refuse_if (not (valid_version d.version)) bad_version
  refuse_if (outside_unit d.rollout) bad_rollout
  validate_requirements d.requirements
  refuse_if (elim d.files [ [] ↦ true | _ ∷ _ ↦ false ]) no_files
  check_files d.files [] []

unfoldable pub parse_descriptor : Raw Descriptor Inner → Result ParseError Descriptor
unfolding decode_strict check_descriptor_keys check_descriptor
parse_descriptor raw = do d ← decode_strict raw; check_descriptor_keys raw; check_descriptor d; ok d
