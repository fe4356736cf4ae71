-- ===== src/Release/Documents/Tests.antt =====
-- A pointer and a policy as a repository publishes them.
use idunn.Prelude
use idunn.Prelude.{Bytes, codes, List, [], ◌∷◌, Option, some, none, false, ok, err, ◌≡◌, refl, ◌↔◌}
use idunn.Prelude.Integers.{pos}
use idunn.Release.Version.{valid_version}
use idunn.Release.Descriptor.{Raw}
use idunn.Release.Descriptor.Parsing.{Decodes, IsSpelled, IsSpelledIfThere}
use idunn.Release.Documents.{
  Pointer, pointer_fields, parse_pointer, Policy, policy_fields, probation_policy_fields,
  parse_policy,
}
use idunn.Release.Documents.Accepts.{IsPointer, parse_pointer_iff, IsPolicy, parse_policy_iff}

abbrev latest : Pointer
latest = record {
  schema_version = pos 1;
  channel = codes "stable";
  os = codes "linux";
  arch = codes "amd64";
  version = codes "1.2.3";
  descriptor = codes "releases/linux-amd64/1.2.3.json";
}

abbrev latest_raw : Raw Pointer (Unit {0})
latest_raw = record {
  size = 200;
  decoded = some latest;
  more = false;
  keys = some pointer_fields;
  nested = none;
}

parse_pointer_iff_example : (parse_pointer latest_raw ≡ ok latest) ↔ (
    Decodes latest_raw latest × IsSpelled pointer_fields (some pointer_fields) × IsPointer latest)
parse_pointer_iff_example = parse_pointer_iff latest_raw latest

abbrev careful : Policy
careful = record {
  schema_version = pos 1;
  name = codes "app";
  version = codes "1.2.3";
  os = codes "linux";
  arch = codes "amd64";
  probation = some record { attempts = pos 3; restarts = pos 0 };
}

abbrev careful_raw : Raw Policy (Option (Option (List Bytes)))
careful_raw = record {
  size = 200;
  decoded = some careful;
  more = false;
  keys = some policy_fields;
  nested = some (some (some probation_policy_fields));
}

accept_policy : parse_policy careful_raw ≡ ok careful
unfolding parse_policy valid_version Prelude.same
accept_policy = refl

parse_policy_iff_example : (parse_policy careful_raw ≡ ok careful) ↔ (
    Decodes careful_raw careful
    × IsSpelled policy_fields (some policy_fields)
    × ((nested : Option (Option (List Bytes))) × (some (some (some probation_policy_fields))
          ≡ some nested)
        × IsSpelledIfThere probation_policy_fields nested)
    × IsPolicy careful)
parse_policy_iff_example = parse_policy_iff careful_raw careful
