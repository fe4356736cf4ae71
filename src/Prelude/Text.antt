-- ===== src/Prelude/Text.antt =====
-- A Go string as the list of its bytes, with the functions of package strings that the program uses.
use Prim.Native.Char.{code}
use Prim.Native.String.{String}
use Prim.Native.Nat.{ℕ}
use mathlib.Core.Path.{◌≡◌, refl}
use mathlib.Core.Logic.{◌↔◌}
use mathlib.Core.Bool.{Bool, true, false, ◌&&◌, ◌||◌}
use mathlib.Core.Option.{Option, none, some}
use mathlib.Core.List.{List, [], ◌∷◌, ◌++◌}
use native.Mathlib.Omega.{arith}
use idunn.Prelude.Tests.{◌==◌, if◌then◌else◌}

abbrev pub Bytes : Type 0
Bytes = List ℕ

-- The code points of a literal; these are its bytes, since every literal here is ASCII.
abbrev pub codes : String → Bytes
codes String.[] = []
codes (String.◌∷◌ c s) = code c ∷ codes s

-- Go's `a == b` on strings.
unfoldable pub same : Bytes → Bytes → Bool
same [] [] = true
same [] (b ∷ t) = false
same (a ∷ s) [] = false
same (a ∷ s) (b ∷ t) = a == b && same s t

pub same_iff : (s t : Bytes) → (same s t ≡ true) ↔ (s ≡ t)
unfolding same
same_iff [] [] = ground arith
same_iff [] (b ∷ t) = ground arith
same_iff (a ∷ s) [] = ground arith
same_iff (a ∷ s) (b ∷ t) = ground (arith, same_iff s t)

pub same_refl : (s : Bytes) → same s s ≡ true
same_refl s = (same_iff s s).1 refl

unfoldable pub member : Bytes → List Bytes → Bool
member x [] = false
member x (y ∷ ys) = same y x || member x ys

-- strings.ContainsRune, at an ASCII rune.
unfoldable pub contains_byte : ℕ → Bytes → Bool
contains_byte c [] = false
contains_byte c (x ∷ s) = x == c || contains_byte c s

-- strings.CutPrefix: what follows the prefix.
unfoldable pub cut_prefix : Bytes → Bytes → Option Bytes
cut_prefix s [] = some s
cut_prefix [] (p ∷ ps) = none
cut_prefix (x ∷ s) (p ∷ ps) = let rest = cut_prefix s ps in if x == p then rest else none

-- strings.CutSuffix: what stands before the suffix.
unfoldable pub cut_suffix : Bytes → Bytes → Option Bytes
unfolding same
cut_suffix [] suffix = if same [] suffix then some [] else none
cut_suffix (x ∷ s) suffix =
    let rest = cut_suffix s suffix in
    if same (x ∷ s) suffix then some [] else elim rest [ none ↦ none | some r ↦ some (x ∷ r) ]

-- strings.Cut at one byte: before and after its first occurrence.
unfoldable pub cut : Bytes → ℕ → Option (Bytes × Bytes)
cut [] sep = none
cut (x ∷ s) sep =
    let rest = cut s sep in
    if x == sep then some ([], s) else elim rest [ none ↦ none | some (a, b) ↦ some (x ∷ a, b) ]

unfoldable pub push_byte : ℕ → List Bytes → List Bytes
push_byte x [] = (x ∷ []) ∷ []
push_byte x (p ∷ ps) = (x ∷ p) ∷ ps

-- strings.Split at one byte: never the empty list.
unfoldable pub split : Bytes → ℕ → List Bytes
unfolding push_byte
split [] sep = [] ∷ []
split (x ∷ s) sep = let rest = split s sep in if x == sep then [] ∷ rest else push_byte x rest

-- strings.Join at one byte.
unfoldable pub join_with : ℕ → List Bytes → Bytes
join_with sep [] = []
join_with sep (p ∷ []) = p
join_with sep (p ∷ q ∷ ps) = p ++ (sep ∷ join_with sep (q ∷ ps))

unfoldable pub ends_with : ℕ → Bytes → Bool
ends_with c [] = false
ends_with c (x ∷ []) = x == c
ends_with c (x ∷ y ∷ s) = ends_with c (y ∷ s)

pub cut_prefix-append : (p s : Bytes) → cut_prefix (p ++ s) p ≡ some s
unfolding cut_prefix
cut_prefix-append [] [] = refl
cut_prefix-append [] (x ∷ s) = refl
cut_prefix-append (x ∷ p) s = ground (arith, cut_prefix-append p s)

pub cut_prefix-some : (s p r : Bytes) → cut_prefix s p ≡ some r → s ≡ p ++ r
unfolding cut_prefix
cut_prefix-some [] [] r h = cc
cut_prefix-some (x ∷ s) [] r h = cc
cut_prefix-some [] (p ∷ ps) r h = cc
cut_prefix-some (x ∷ s) (p ∷ ps) r h = ground (arith, cut_prefix-some s ps r)
