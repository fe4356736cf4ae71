-- ===== src/Release/Paths/Tests.antt =====
-- Paths as channel_test.go and policy_test.go write them, and as others would.
use idunn.Prelude
use idunn.Prelude.{codes, ok, ◌≡◌, refl, none, some, Bytes, true, ◌↔◌}
use native.Mathlib.Omega.{arith}
use idunn.Release.Version.{valid_version}
use idunn.Release.Paths.{
  version_of_descriptor_path, descriptor_path, version_of_policy_path, policy_path, PolicyOf,
  patch_path, payload_path, payload_of_path, hex_encode, pointer_path,
}
use idunn.Release.Paths.Versions.{
  version_of_descriptor_path_iff, version_of_policy_path-some, policy_path-version_of,
  policy-not-descriptor,
}
use idunn.Release.Paths.Payloads.{payload_path-payload_of, patch_path-injective, sum_of}

write_pointer :
    pointer_path (codes "stable") (codes "linux") (codes "amd64")
    ≡ codes "channels/stable/linux-amd64/latest.json"
unfolding pointer_path
write_pointer = refl

abbrev linux : Bytes
linux = codes "linux"

abbrev amd64 : Bytes
amd64 = codes "amd64"

abbrev release : Bytes
release = codes "1.2.3-rc.1"

release-valid : valid_version release ≡ true
unfolding valid_version
release-valid = refl

no_version :
    version_of_descriptor_path (codes "releases/linux-amd64/latest.json") linux amd64 ≡ none
unfolding version_of_descriptor_path valid_version
no_version = refl

version_of_descriptor_path_iff_example :
    (version_of_descriptor_path (descriptor_path linux amd64 release) linux amd64 ≡ some release)
    ↔ ((descriptor_path linux amd64 release ≡ descriptor_path linux amd64 release)
        × (valid_version release ≡ true))
version_of_descriptor_path_iff_example =
    version_of_descriptor_path_iff (descriptor_path linux amd64 release) linux amd64 release

abbrev release_policy : PolicyOf
release_policy = record { goos = linux; goarch = amd64; version = release }

policy_path-version_of_example :
    version_of_policy_path (policy_path linux amd64 release) ≡ some release_policy
unfolding Prelude.contains_byte Prelude.same
policy_path-version_of_example =
    policy_path-version_of linux amd64 release refl refl refl refl refl release-valid

version_of_policy_path-some_example :
    (policy_path linux amd64 release ≡ policy_path linux amd64 release)
    × (valid_version release ≡ true)
version_of_policy_path-some_example =
    version_of_policy_path-some (policy_path linux amd64 release) release_policy
      policy_path-version_of_example

policy-not-descriptor_example :
    version_of_descriptor_path (policy_path linux amd64 release) linux (codes "arm64") ≡ none
policy-not-descriptor_example = policy-not-descriptor linux amd64 release linux (codes "arm64")

abbrev one_sum : Bytes
one_sum = codes "0123456789abcdef0123456789abcdef"

abbrev two_sum : Bytes
two_sum = codes "0123456789abcdef0123456789abcdeF"

payload_path-payload_of_example :
    payload_of_path (payload_path (codes "1") one_sum) ≡ some (codes "1", hex_encode one_sum)
unfolding Prelude.contains_byte Prelude.same
payload_path-payload_of_example =
    payload_path-payload_of (codes "1") one_sum refl (refl, tt) refl (omega arith)

abbrev one_path : Bytes
one_path = codes "payloads/v1/0123456789abcdef0123456789abcdef0123456789abcdef0123456789abcdef"

abbrev two_path : Bytes
two_path = codes "payloads/v1/0123456789abcdef0123456789abcdef0123456789abcdef0123456789abcde0"

abbrev patch : Bytes
patch =
    codes
      "patches/v1/0123456789abcdef0123456789abcdef0123456789abcdef0123456789abcdef-0123456789abcdef0123456789abcdef0123456789abcdef0123456789abcde0"

one_two-patch : patch_path one_path two_path ≡ some patch
unfolding patch_path
one_two-patch = refl

-- The payload of the first path, in another line.
abbrev other_path : Bytes
other_path = codes "payloads/v2/0123456789abcdef0123456789abcdef0123456789abcdef0123456789abcdef"

other_two-patch : patch_path other_path two_path ≡ some patch
unfolding patch_path
other_two-patch = refl

patch_path-injective_example : (two_path ≡ two_path) × (sum_of one_path ≡ sum_of other_path)
patch_path-injective_example =
    patch_path-injective one_path two_path other_path two_path patch one_two-patch other_two-patch
