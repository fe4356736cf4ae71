-- ===== src/Release/Descriptor/Tests.antt =====
-- Documents that parse_test.go accepts and refuses.

use idunn.Prelude.{Bytes, codes, List, [], ◌∷◌, some, none, false, ok, err, ◌≡◌, refl, ◌↔◌}
use idunn.Prelude.Integers.{pos}
use idunn.Release.Descriptor
use idunn.Release.Descriptor.{
  Raw, Inner, FileRef, ParseError, descriptor_fields, file_fields, parse_descriptor, duplicate_dst,
  unknown_field,
}
use idunn.Release.Version.{valid_version}
use idunn.Release.Descriptor.Parsing.{Decodes, IsSpelledOut}
use idunn.Release.Descriptor.Accepts.{IsWellFormed, parse_descriptor_iff}

abbrev app : FileRef
app = record {
  target = codes "payloads/v1/app";
  dst = codes "bin/app";
  mode = 493;
  kind = codes "exe";
}

abbrev library : FileRef
library = record {
  target = codes "payloads/v1/lib";
  dst = codes "lib/app.so";
  mode = 420;
  kind = codes "lib";
}

abbrev with_files : List FileRef → Descriptor.Descriptor
with_files files = record {
  schema_version = pos 1;
  name = codes "app";
  version = codes "1.2.3";
  channel = codes "stable";
  os = codes "linux";
  arch = codes "amd64";
  files = files;
  requirements = record { min_from_version = codes "1.0.0"; min_client_version = [] };
  rollout = record { negative = false; whole = 1; scale = 2 };
  layout_schema = pos 1;
}

abbrev raw_of : Descriptor.Descriptor → List Bytes → Raw Descriptor.Descriptor Inner
raw_of d keys = record {
  size = 500;
  decoded = some d;
  more = false;
  keys = some keys;
  nested =
      some record { file_keys = some file_fields ∷ some file_fields ∷ []; requirement_keys = none };
}

parse_accepts :
    parse_descriptor (raw_of (with_files (app ∷ library ∷ [])) descriptor_fields)
    ≡ ok (with_files (app ∷ library ∷ []))
unfolding parse_descriptor valid_version Descriptor.Safepath.clean_target
parse_accepts = refl

parse_duplicate :
    parse_descriptor (
      raw_of
        (with_files (app ∷ record app { target = codes "payloads/v1/b" } ∷ []))
        descriptor_fields)
    ≡ err duplicate_dst
unfolding parse_descriptor valid_version Descriptor.Safepath.clean_target
parse_duplicate = refl

parse_spelling :
    parse_descriptor (raw_of (with_files (app ∷ library ∷ [])) (codes "Name" ∷ []))
    ≡ err unknown_field
unfolding parse_descriptor valid_version Descriptor.Safepath.clean_target
parse_spelling = refl

abbrev release : Descriptor.Descriptor
release = with_files (app ∷ library ∷ [])

parse_descriptor_iff_example :
    (parse_descriptor (raw_of release descriptor_fields) ≡ ok release) ↔ (
      Decodes (raw_of release descriptor_fields) release
      × IsSpelledOut (raw_of release descriptor_fields)
      × IsWellFormed release)
parse_descriptor_iff_example = parse_descriptor_iff (raw_of release descriptor_fields) release
