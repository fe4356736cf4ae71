-- ===== src/Safepath.antt =====
-- internal/safepath/safepath.go: Clean, which every destination and target path of a descriptor
-- goes through, over path.Clean of the standard library on a text that does not begin with a slash.
pub mod Lexical
pub mod Walk
pub mod Plain
mod Tests
use idunn.Prelude.{
  ℕ, Bool, true, false, ◌||◌, Option, none, some, List, [], ◌∷◌, ◌++◌, Bytes, codes, Result, ok,
  err, ◌>>=◌, ◌>>◌, refuse_if, length, contains_byte, cut, cut_prefix, split, join_with, last?,
  member, same, ltb, leb, ◌-◌, ◌&&◌, not, map, if◌then◌else◌, ends_with,
}

-- What wraps ErrUnsafe, one for each message.
pub data Error : Type 0 where
  empty too_long nul_byte backslash absolute colon escapes absolute_cleaned : Error
  empty_element traversal bad_ending reserved_name : Error

abbrev pub max_len : ℕ
max_len = 1024

abbrev pub dot : Bytes
dot = codes "."

abbrev pub dots : Bytes
dots = codes ".."

-- strings.ToUpper as far as `reserved_windows` can tell: no letter outside ASCII becomes a letter
-- of a device name, since none of the names has an I or an S.
unfoldable pub upper : ℕ → ℕ
upper c = if leb b'a' c && leb c b'z' then c - 32 else c

abbrev pub reserved_windows : List Bytes
reserved_windows =
    codes "CON"
    ∷ codes "PRN"
    ∷ codes "AUX"
    ∷ codes "NUL"
    ∷ codes "COM1"
    ∷ codes "COM2"
    ∷ codes "COM3"
    ∷ codes "COM4"
    ∷ codes "COM5"
    ∷ codes "COM6"
    ∷ codes "COM7"
    ∷ codes "COM8"
    ∷ codes "COM9"
    ∷ codes "LPT1"
    ∷ codes "LPT2"
    ∷ codes "LPT3"
    ∷ codes "LPT4"
    ∷ codes "LPT5"
    ∷ codes "LPT6"
    ∷ codes "LPT7"
    ∷ codes "LPT8"
    ∷ codes "LPT9"
    ∷ []

unfoldable pub drop_last : List Bytes → List Bytes
drop_last [] = []
drop_last (x ∷ []) = []
drop_last (x ∷ y ∷ out) = x ∷ drop_last (y ∷ out)

-- path.Clean on one element, after the elements already written: a `..` takes the last of them
-- back unless that is a `..` too.
unfoldable pub go_up : List Bytes → List Bytes
unfolding last? same drop_last
go_up out = elim (last? out) [
  | none ↦ out ++ dots ∷ []
  | some l ↦ if same l dots then out ++ dots ∷ [] else drop_last out
]

unfoldable pub push_element : List Bytes → Bytes → List Bytes
unfolding go_up same
push_element out e =
    if same e [] || same e dot then out else if same e dots then go_up out else out ++ e ∷ []

unfoldable pub resolve : List Bytes → List Bytes → List Bytes
unfolding push_element
resolve out [] = out
resolve out (e ∷ es) = resolve (push_element out e) es

unfoldable pub print_path : List Bytes → Bytes
unfolding join_with
print_path [] = dot
print_path (e ∷ es) = join_with b'/' (e ∷ es)

-- path.Clean of a path that is not rooted.
unfoldable pub path_clean : Bytes → Bytes
unfolding print_path resolve split
path_clean s = print_path (resolve [] (split s b'/'))

abbrev pub rooted : Bytes → Bool
rooted [] = false
rooted (c ∷ s) = elim (cut_prefix (c ∷ s) (codes "/")) [ none ↦ false | some _ ↦ true ]

abbrev pub starts_above : Bytes → Bool
starts_above s = elim (cut_prefix s (codes "../")) [ none ↦ false | some _ ↦ true ]

-- The part of an element before its first dot.
unfoldable pub base_name : Bytes → Bytes
unfolding cut
base_name e = elim (cut e b'.') [ none ↦ e | some (a, b) ↦ a ]

unfoldable pub check_element : Bytes → Result Error (Unit {0})
unfolding same ends_with base_name upper member
check_element e =
    refuse_if (same e []) empty_element
    >> refuse_if (same e dot || same e dots) traversal
    >> refuse_if (ends_with b' ' e || ends_with b'.' e) bad_ending
    >> refuse_if (member (map upper (base_name e)) reserved_windows) reserved_name

unfoldable pub check_elements : List Bytes → Result Error (Unit {0})
unfolding check_element
check_elements [] = ok tt
check_elements (e ∷ es) = let rest = check_elements es in check_element e >> rest

unfoldable pub check_text : Bytes → Result Error (Unit {0})
unfolding same contains_byte cut_prefix
check_text dst =
    refuse_if (same dst []) empty
    >> refuse_if (ltb max_len (length dst)) too_long
    >> refuse_if (contains_byte 0 dst) nul_byte
    >> refuse_if (contains_byte b'\\' dst) backslash
    >> refuse_if (rooted dst) absolute
    >> refuse_if (contains_byte b':' dst) colon

unfoldable pub check_cleaned : Bytes → Result Error (Unit {0})
unfolding same cut_prefix check_elements split
check_cleaned cleaned =
    refuse_if (same cleaned dot || same cleaned dots || starts_above cleaned) escapes
    >> refuse_if (rooted cleaned) absolute_cleaned
    >> check_elements (split cleaned b'/')

unfoldable pub clean : Bytes → Result Error Bytes
unfolding check_text path_clean check_cleaned
clean dst = let cleaned = path_clean dst in check_text dst >> check_cleaned cleaned >> ok cleaned

unfoldable pub clean_target : Bytes → Result Error Bytes
unfolding clean
clean_target target = clean target
