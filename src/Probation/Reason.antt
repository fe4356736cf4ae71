-- ===== src/Probation/Reason.antt =====
-- SanitizeReason of internal/layout/probation.go, on the runes of a text.
pub mod Clean
use idunn.Prelude.{
  ℕ, ◌+◌, ◌-◌, Bool, true, false, ◌||◌, ◌&&◌, Option, none, some, List, [], ◌∷◌, map, ltb, leb,
  ◌==◌, if◌then◌else◌,
}

-- A valid text as its runes.
abbrev pub Runes : Type 0
Runes = List ℕ

-- What a range over a string finds: a rune, or a byte of none.
abbrev pub RawRunes : Type 0
RawRunes = List (Option ℕ)

-- strings.ToValidUTF8, with one replacement for a run of invalid bytes.
unfoldable pub to_valid : Bool → RawRunes → Runes
to_valid in_run [] = []
to_valid in_run (some c ∷ s) = c ∷ to_valid false s
to_valid true (none ∷ s) = to_valid true s
to_valid false (none ∷ s) = 65533 ∷ to_valid true s

-- unicode.IsControl
unfoldable pub is_control : ℕ → Bool
is_control c = ltb c 32 || (leb 127 c && leb c 159)

-- unicode.IsSpace
unfoldable pub is_space : ℕ → Bool
is_space c =
    (leb 9 c && leb c 13)
    || c == 32
    || c == 133
    || c == 160
    || c == 5760
    || (leb 8192 c && leb c 8202)
    || c == 8232
    || c == 8233
    || c == 8239
    || c == 8287
    || c == 12288

unfoldable pub blank : ℕ → ℕ
unfolding is_control
blank c = if is_control c then 32 else c

unfoldable pub skip_space : Runes → Runes
skip_space [] = []
skip_space (c ∷ s) = let rest = skip_space s in if is_space c then rest else c ∷ s

unfoldable pub close_with : ℕ → Runes → Runes
close_with c [] = if is_space c then [] else c ∷ []
close_with c (d ∷ s) = c ∷ d ∷ s

unfoldable pub drop_space : Runes → Runes
unfolding close_with
drop_space [] = []
drop_space (c ∷ s) = close_with c (drop_space s)

-- strings.TrimSpace
unfoldable pub trim_space : Runes → Runes
unfolding skip_space drop_space
trim_space s = drop_space (skip_space s)

-- utf8.RuneLen
unfoldable pub rune_len : ℕ → ℕ
rune_len c = if ltb c 128 then 1 else if ltb c 2048 then 2 else if ltb c 65536 then 3 else 4

-- len
unfoldable pub size : Runes → ℕ
unfolding rune_len
size [] = 0
size (c ∷ s) = rune_len c + size s

-- The longest prefix of at most `n` bytes that ends at a rune.
unfoldable pub cut_at : ℕ → Runes → Runes
unfolding rune_len
cut_at n [] = []
cut_at n (c ∷ s) =
    let rest = cut_at (n - rune_len c) s in if leb (rune_len c) n then c ∷ rest else []

abbrev pub max_probation_reason : ℕ
max_probation_reason = 512

unfoldable pub bound : Runes → Runes
unfolding size cut_at trim_space
bound s =
    if leb (size s) max_probation_reason then s else trim_space (cut_at max_probation_reason s)

unfoldable pub sanitize_reason : RawRunes → Runes
unfolding bound to_valid blank trim_space
sanitize_reason s = bound (trim_space (map blank (to_valid false s)))
