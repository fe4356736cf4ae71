-- ===== src/Release/Paths.antt =====
-- core/release/channel.go and core/release/policy.go: the target paths of pointers, descriptors,
-- policies, payloads and patches, and how a client reads them back.
pub mod Versions
pub mod Payloads
mod Tests
use idunn.Prelude.{
  ℕ, ◌*◌, Bool, true, false, ◌||◌, not, Option, none, some, List, [], ◌∷◌, ◌++◌, Bytes, codes,
  length, contains_byte, cut, cut_prefix, cut_suffix, same, ltb, ◌==◌, ◌+◌, ◌/◌, ◌%◌, if◌then◌else◌,
}
use idunn.Prelude.Options.{◌>>=◌}
use idunn.Release.Version.{valid_version}

unfoldable pub pointer_path : Bytes → Bytes → Bytes → Bytes
pointer_path channel goos goarch =
    codes "channels/" ++ channel ++ codes "/" ++ goos ++ codes "-" ++ goarch ++ codes "/latest.json"

-- `releases/<os>-<arch>/`
abbrev pub release_prefix : Bytes → Bytes → Bytes
release_prefix goos goarch = codes "releases/" ++ (goos ++ (codes "-" ++ (goarch ++ codes "/")))

abbrev pub json : Bytes
json = codes ".json"

unfoldable pub descriptor_path : Bytes → Bytes → Bytes → Bytes
descriptor_path goos goarch version = release_prefix goos goarch ++ (version ++ json)

abbrev pub keep_valid : Option Bytes → Option Bytes
keep_valid none = none
keep_valid (some version) = if not (valid_version version) then none else some version

unfoldable pub version_of_descriptor_path : Bytes → Bytes → Bytes → Option Bytes
unfolding cut_prefix cut_suffix
version_of_descriptor_path target_path goos goarch =
    cut_prefix target_path (release_prefix goos goarch) >>= λ rest.
    keep_valid (cut_suffix rest json)

abbrev pub policy_suffix : Bytes
policy_suffix = codes "_policy.json"

unfoldable pub policy_path : Bytes → Bytes → Bytes → Bytes
policy_path goos goarch version = release_prefix goos goarch ++ (version ++ policy_suffix)

-- A release as the path of its policy names it.
pub record PolicyOf : Type 0 where
  pub goos : Bytes
  pub goarch : Bytes
  pub version : Bytes

unfoldable pub policy_of : Bytes → Bytes → Bytes → Option Bytes → Option PolicyOf
unfolding same policy_path
policy_of target_path goos goarch none = none
policy_of target_path goos goarch (some version) =
    if same goos []
      || same goarch []
      || not (valid_version version)
      || not (same (policy_path goos goarch version) target_path)
    then none
    else some record { goos = goos; goarch = goarch; version = version }

unfoldable pub version_of_policy_path : Bytes → Option PolicyOf
unfolding cut cut_prefix cut_suffix policy_of
version_of_policy_path target_path = do
  rest ← cut_prefix target_path (codes "releases/")
  (platform, file) ← cut rest b'/'
  (goos, goarch) ← cut platform b'-'
  policy_of target_path goos goarch (cut_suffix file policy_suffix)

-- hex.EncodeToString, of bytes below 256.
unfoldable pub hex_digit : ℕ → ℕ
hex_digit n = if ltb n 10 then b'0' + n else 87 + n

unfoldable pub hex_encode : Bytes → Bytes
unfolding hex_digit
hex_encode [] = []
hex_encode (b ∷ bs) = hex_digit (b / 16) ∷ hex_digit (b % 16) ∷ hex_encode bs

unfoldable pub payload_path : Bytes → Bytes → Bytes
unfolding hex_encode
payload_path major sum = codes "payloads/v" ++ (major ++ (codes "/" ++ hex_encode sum))

-- strings.Trim, by the two ends.
unfoldable pub trim_left : Bytes → Bytes → Bytes
unfolding contains_byte
trim_left [] cutset = []
trim_left (x ∷ s) cutset =
    let rest = trim_left s cutset in if contains_byte x cutset then rest else x ∷ s

trim_end : ℕ → Bytes → Bytes → Bytes
unfolding contains_byte
trim_end x [] cutset = if contains_byte x cutset then [] else x ∷ []
trim_end x (y ∷ s) cutset = x ∷ y ∷ s

unfoldable pub trim_right : Bytes → Bytes → Bytes
unfolding trim_end
trim_right [] cutset = []
trim_right (x ∷ s) cutset = trim_end x (trim_right s cutset) cutset

unfoldable pub trim : Bytes → Bytes → Bytes
unfolding trim_left trim_right
trim s cutset = trim_right (trim_left s cutset) cutset

abbrev pub digits : Bytes
digits = codes "0123456789"

abbrev pub hex_digits : Bytes
hex_digits = codes "0123456789abcdef"

-- sha256.Size
abbrev pub sum_size : ℕ
sum_size = 32

unfoldable pub keep_payload : Option (Bytes × Bytes) → Option (Bytes × Bytes)
unfolding trim same
keep_payload none = none
keep_payload (some (major, sum)) =
    if same major [] || not (same (trim major digits) [])
    then none
    else if not (length sum == 2 * sum_size) || not (same (trim sum hex_digits) [])
    then none
    else some (major, sum)

-- The line and the content hash of a payload target.
unfoldable pub payload_of_path : Bytes → Option (Bytes × Bytes)
unfolding cut cut_prefix keep_payload
payload_of_path target_path =
    cut_prefix target_path (codes "payloads/v") >>= λ rest. keep_payload (cut rest b'/')

unfoldable pub print_patch : Bytes → Bytes → Bytes → Bytes
print_patch major from to =
    codes "patches/v" ++ (major ++ (codes "/" ++ (from ++ (codes "-" ++ to))))

unfoldable pub patch_path : Bytes → Bytes → Option Bytes
unfolding payload_of_path same print_patch
patch_path from_payload to_payload = do
  (line, from) ← payload_of_path from_payload
  (major, to) ← payload_of_path to_payload
  if same from to then none else some (print_patch major from to)
