-- ===== src/Prelude/Splits.antt =====
-- Splitting a text at a byte and joining it again: what survives, and how long the parts are.
use Prim.Native.Nat.{ℕ, suc, ◌+◌}
use mathlib.Core.Path.{◌≡◌, refl, ap, ◌∙◌}
use mathlib.Core.Bool.{Bool, true, false, ◌||◌}
use mathlib.Core.List.{List, [], ◌∷◌, ◌++◌}
use native.Mathlib.Omega.{arith}
use idunn.Prelude.Tests.{◌==◌, if◌then◌else◌}
use idunn.Prelude.Lists.{length, All, length-append}
use idunn.Prelude.Text.{Bytes, split, push_byte, join_with, contains_byte}

push_byte-cons :
    (x : ℕ) (ps : List Bytes) → (q : Bytes) × (qs : List Bytes) × (push_byte x ps ≡ q ∷ qs)
unfolding push_byte
push_byte-cons x [] = (x ∷ [], [], refl)
push_byte-cons x (p ∷ ps) = (x ∷ p, ps, refl)

split_step :
    (b : Bool) (x : ℕ) (ps : List Bytes)
    → (q : Bytes) × (qs : List Bytes) × ((if b then [] ∷ ps else push_byte x ps) ≡ q ∷ qs)
split_step true x ps = ([], ps, refl)
split_step false x ps = push_byte-cons x ps

pub split-cons : (s : Bytes) (sep : ℕ) → (p : Bytes) × (ps : List Bytes) × (split s sep ≡ p ∷ ps)
unfolding split
split-cons [] sep = ([], [], refl)
split-cons (x ∷ s) sep = split_step (x == sep) x (split s sep)

join_with-push :
    (sep x : ℕ) (ps : List Bytes) → join_with sep (push_byte x ps) ≡ x ∷ join_with sep ps
unfolding join_with push_byte
join_with-push sep x [] = refl
join_with-push sep x (p ∷ []) = refl
join_with-push sep x (p ∷ q ∷ ps) = refl

join_with-nil :
    (sep : ℕ) (p : Bytes) (ps qs : List Bytes)
    → qs ≡ p ∷ ps
    → join_with sep ([] ∷ qs) ≡ sep ∷ join_with sep qs
unfolding join_with
join_with-nil sep p ps [] h = cc
join_with-nil sep p ps (q ∷ qs) h = refl

pub join_with-split : (s : Bytes) (sep : ℕ) → join_with sep (split s sep) ≡ s
unfolding split join_with
join_with-split [] sep = refl
join_with-split (x ∷ s) sep =
    let (p, ps, h) = split-cons s sep in
    ground (
      arith,
      join_with-split s sep,
      join_with-nil sep p ps (split s sep) h,
      join_with-push sep x (split s sep),
    )

-- The lengths of the parts, each with its separator.
unfoldable pub weight : List Bytes → ℕ
weight [] = 0
weight (p ∷ ps) = length p + 1 + weight ps

pub weight-append : (ps qs : List Bytes) → weight (ps ++ qs) ≡ weight ps + weight qs
unfolding weight
weight-append [] qs = omega arith
weight-append (p ∷ ps) qs = omega (arith, weight-append ps qs)

weight-push :
    (x : ℕ) (p : Bytes) (ps qs : List Bytes)
    → qs ≡ p ∷ ps
    → weight (push_byte x qs) ≡ suc (weight qs)
unfolding weight push_byte
weight-push x p ps [] h = cc
weight-push x p ps (q ∷ qs) h = omega arith

pub weight-split : (s : Bytes) (sep : ℕ) → weight (split s sep) ≡ suc (length s)
unfolding split weight
weight-split [] sep = refl
weight-split (x ∷ s) sep =
    let (p, ps, h) = split-cons s sep in
    ground (arith, weight-split s sep, weight-push x p ps (split s sep) h)

pub length-join_with :
    (sep : ℕ) (p : Bytes) (ps : List Bytes)
    → suc (length (join_with sep (p ∷ ps))) ≡ weight (p ∷ ps)
unfolding join_with weight
length-join_with sep p [] = omega arith
length-join_with sep p (q ∷ ps) =
    omega (arith, length-append p (sep ∷ join_with sep (q ∷ ps)), length-join_with sep q ps)

abbrev pub Lacks : ℕ → Bytes → Type 0
Lacks b s = contains_byte b s ≡ false

pub contains_byte-append :
    (b : ℕ) (s t : Bytes) → contains_byte b (s ++ t) ≡ (contains_byte b s || contains_byte b t)
unfolding contains_byte
contains_byte-append b [] t = refl
contains_byte-append b (x ∷ s) t = ground (arith, contains_byte-append b s t)

pub Lacks-join_with :
    (b sep : ℕ) (ps : List Bytes)
    → (sep == b) ≡ false
    → All (Lacks b) ps
    → Lacks b (join_with sep ps)
unfolding join_with contains_byte
Lacks-join_with b sep [] ne h = refl
Lacks-join_with b sep (p ∷ []) ne h = h.0
Lacks-join_with b sep (p ∷ q ∷ ps) ne h = ground (
  arith,
  contains_byte-append b p (sep ∷ join_with sep (q ∷ ps)),
  h.0,
  Lacks-join_with b sep (q ∷ ps) ne h.1,
)

Lacks-push :
    (b x : ℕ) (ps : List Bytes)
    → (x == b) ≡ false
    → All (Lacks b) ps
    → All (Lacks b) (push_byte x ps)
unfolding push_byte contains_byte
Lacks-push b x [] ne h = (ground arith, tt)
Lacks-push b x (p ∷ ps) ne h = (ground (arith, h.0), h.1)

Lacks-if :
    (c : Bool) (b x : ℕ) (ps : List Bytes)
    → (x == b) ≡ false
    → All (Lacks b) ps
    → All (Lacks b) (if c then [] ∷ ps else push_byte x ps)
unfolding contains_byte
Lacks-if true b x ps ne h = (refl, h)
Lacks-if false b x ps ne h = Lacks-push b x ps ne h

pub Lacks-split : (b : ℕ) (s : Bytes) (sep : ℕ) → Lacks b s → All (Lacks b) (split s sep)
unfolding split contains_byte
Lacks-split b [] sep h = (refl, tt)
Lacks-split b (x ∷ s) sep h =
    Lacks-if (x == sep) b x (split s sep) (ground arith) (Lacks-split b s sep (ground arith))

-- No part of a text holds the byte at which it is split.
Lacks-sep_step :
    (c : Bool) (sep x : ℕ) (ps : List Bytes)
    → (x == sep) ≡ c
    → All (Lacks sep) ps
    → All (Lacks sep) (if c then [] ∷ ps else push_byte x ps)
unfolding contains_byte
Lacks-sep_step true sep x ps e h = (refl, h)
Lacks-sep_step false sep x ps e h = Lacks-push sep x ps e h

pub split-Lacks : (s : Bytes) (sep : ℕ) → All (Lacks sep) (split s sep)
unfolding split contains_byte
split-Lacks [] sep = (refl, tt)
split-Lacks (x ∷ s) sep = Lacks-sep_step (x == sep) sep x (split s sep) refl (split-Lacks s sep)

split-Lacks_once : (p : Bytes) (sep : ℕ) → Lacks sep p → split p sep ≡ p ∷ []
unfolding split contains_byte push_byte
split-Lacks_once [] sep h = refl
split-Lacks_once (x ∷ p) sep h = ground (arith, split-Lacks_once p sep)

split-append : (p s : Bytes) (sep : ℕ) → Lacks sep p → split (p ++ (sep ∷ s)) sep ≡ p ∷ split s sep
unfolding split contains_byte push_byte
split-append [] s sep h = ground arith
split-append (x ∷ p) s sep h = ground (arith, split-append p s sep)

-- Parts that do not hold the separator are what the joined text is split into.
pub split-join_with :
    (p : Bytes) (ps : List Bytes) (sep : ℕ)
    → All (Lacks sep) (p ∷ ps)
    → split (join_with sep (p ∷ ps)) sep ≡ p ∷ ps
unfolding join_with
split-join_with p [] sep h = split-Lacks_once p sep h.0
split-join_with p (q ∷ ps) sep h =
    split-append p (join_with sep (q ∷ ps)) sep h.0 ∙ ap (λ r. p ∷ r) (split-join_with q ps sep h.1)
