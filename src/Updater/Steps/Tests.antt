-- ===== src/Updater/Steps/Tests.antt =====
-- A release that migrates only from 1.5.0, on a machine with 1.0.0.
use idunn.Prelude.{
  ◌≡◌, ◌≤◌, refl, false, Option, none, some, [], ◌∷◌, Bytes, codes, same, ok, length, if◌then◌else◌,
  last?, member,
}
use idunn.Release.Version.{newer, compare_versions, valid_version}
use idunn.Release.Chain.{between, candidates, add_candidate, ordered, check_walk, ends_at}
use idunn.Release.Sorting.{sort_by, older}
use idunn.Prelude.Integers.{pos}
use idunn.Release.Descriptor.{Descriptor}
use idunn.Updater.Policy.{Client, applicable, check_client, check_jump, check_floor}
use idunn.Updater.Steps.{
  History, steps, max_walk, walk_on, resolve, furthest_reachable, furthest_from, is_step,
  steps_after,
}
use idunn.Updater.Steps.Leads.{Leads, steps-LeadsWithin}

abbrev client : Client
client = record {
  channel = codes "stable";
  goos = codes "linux";
  goarch = codes "amd64";
  client_version = [];
  allow_downgrade = false;
}

abbrev release_of : Bytes → Bytes → Descriptor
release_of v floor = record {
  schema_version = pos 1;
  files = [];
  rollout = record { negative = false; whole = 0; scale = 0 };
  layout_schema = pos 1;
  name = codes "app";
  version = v;
  channel = codes "stable";
  os = codes "linux";
  arch = codes "amd64";
  requirements = record { min_client_version = []; min_from_version = floor };
}

abbrev stone : Descriptor
stone = release_of (codes "1.5.0") []

abbrev head : Descriptor
head = release_of (codes "2.0.0") (codes "1.5.0")

abbrev known : Option History
known = some (record {
  versions = codes "2.0.0" ∷ codes "1.5.0" ∷ [];
  release_version = λ v. if same v (codes "1.5.0") then some stone else none;
})

two_hops : steps client known head (codes "1.0.0") ≡ ok (stone ∷ head ∷ [])
unfolding steps applicable steps_after same check_client check_jump newer check_floor
    compare_versions valid_version between candidates add_candidate ordered check_walk ends_at
    sort_by older last? member resolve walk_on furthest_reachable furthest_from is_step
two_hops = refl

steps-LeadsWithin_example :
    Leads client (codes "1.0.0") (stone ∷ head ∷ []) head.version
    × (length (stone ∷ head ∷ []) ≤ max_walk)
steps-LeadsWithin_example =
    steps-LeadsWithin client known head (codes "1.0.0") (stone ∷ head ∷ []) two_hops
