-- ===== src/Probation/Reason/Clean.antt =====
-- A sanitized reason is short, holds no control character, and is not changed again.
use mathlib.Core.Path.{subst}
use idunn.Prelude.{
  ◌↔◌, ℕ, ◌+◌, ◌-◌, ◌≤◌, Bool, true, false, some, [], ◌∷◌, map, leb, leb→le, if◌then◌else◌, All,
  Bool-cases, inl, inr, ◌≡◌, refl, ap, ◌∙◌, arith,
}
use idunn.Probation.Reason.{
  Runes, RawRunes, to_valid, is_control, is_space, blank, skip_space, close_with, drop_space,
  trim_space, rune_len, size, cut_at, max_probation_reason, bound, sanitize_reason,
}

abbrev pub Printable : Runes → Type 0
Printable s = All (λ c. is_control c ≡ false) s

-- Neither begins nor ends with a space.
pub record IsTrimmed (s : Runes) : Type 0 where
  pub start : skip_space s ≡ s
  pub end : drop_space s ≡ s

Printable-blank : (s : Runes) → Printable (map blank s)
unfolding blank is_control
Printable-blank [] = tt
Printable-blank (c ∷ s) = (ground arith, Printable-blank s)

blank-Printable : (s : Runes) → Printable s → map blank s ≡ s
unfolding blank is_control
blank-Printable [] h = refl
blank-Printable (c ∷ s) h = rw (h.0, blank-Printable s h.1) refl

Printable-skip : (s : Runes) → Printable s → Printable (skip_space s)
unfolding skip_space
Printable-skip [] h = tt
Printable-skip (c ∷ s) h = go (is_space c) (Printable-skip s h.1)
  where
    go : (b : Bool) → Printable (skip_space s) → Printable (if b then skip_space s else c ∷ s)
    go true k = k
    go false k = h

Printable-close :
    (c : ℕ) (s : Runes) → is_control c ≡ false → Printable s → Printable (close_with c s)
unfolding close_with
Printable-close c [] h k = go (is_space c)
  where
    go : (b : Bool) → Printable (if b then [] else c ∷ [])
    go true = tt
    go false = (h, tt)
Printable-close c (d ∷ s) h k = (h, k)

Printable-drop : (s : Runes) → Printable s → Printable (drop_space s)
unfolding drop_space
Printable-drop [] h = tt
Printable-drop (c ∷ s) h = Printable-close c (drop_space s) h.0 (Printable-drop s h.1)

Printable-cut : (n : ℕ) (s : Runes) → Printable s → Printable (cut_at n s)
unfolding cut_at
Printable-cut n [] h = tt
Printable-cut n (c ∷ s) h = go (leb (rune_len c) n) (Printable-cut (n - rune_len c) s h.1)
  where
    go :
        (b : Bool)
        → Printable (cut_at (n - rune_len c) s)
        → Printable (if b then c ∷ cut_at (n - rune_len c) s else [])
    go true k = (h.0, k)
    go false k = tt

size-cut : (n : ℕ) (s : Runes) → size (cut_at n s) ≤ n
unfolding size cut_at
size-cut n [] = omega arith
size-cut n (c ∷ s) = go (leb (rune_len c) n) (leb→le (rune_len c) n) (size-cut (n - rune_len c) s)
  where
    go :
        (b : Bool)
        → (b ≡ true → rune_len c ≤ n)
        → size (cut_at (n - rune_len c) s) ≤ n - rune_len c
        → size (if b then c ∷ cut_at (n - rune_len c) s else []) ≤ n
    go true f k = omega (arith, f refl, k)
    go false f k = omega arith

size-skip : (s : Runes) → size (skip_space s) ≤ size s
unfolding size skip_space
size-skip [] = omega arith
size-skip (c ∷ s) = ground (arith, size-skip s)

size-drop : (s : Runes) → size (drop_space s) ≤ size s
unfolding size drop_space
size-drop [] = omega arith
size-drop (c ∷ s) = go (drop_space s) (size-drop s)
  where
    go : (r : Runes) → size r ≤ size s → size (close_with c r) ≤ rune_len c + size s
    go [] k = ground arith
    go (d ∷ r) k = omega (arith, k)

size-trim : (s : Runes) → size (trim_space s) ≤ size s
unfolding trim_space
size-trim s = omega (arith, size-drop (skip_space s), size-skip s)

drop_idem : (s : Runes) → drop_space (drop_space s) ≡ drop_space s
unfolding drop_space close_with
drop_idem [] = refl
drop_idem (c ∷ s) = go (drop_space s) (drop_idem s)
  where
    go : (r : Runes) → drop_space r ≡ r → drop_space (close_with c r) ≡ close_with c r
    go [] k = elim (Bool-cases (is_space c)) [ inl e ↦ rw (e) refl | inr e ↦ rw (e, e) refl ]
    go (d ∷ r) k = ap (close_with c) k

-- What is dropped at the end is not the start.
skip-close : (c : ℕ) (r : Runes) → is_space c ≡ false → skip_space (close_with c r) ≡ close_with c r
unfolding skip_space close_with
skip-close c [] e = rw (e, e) refl
skip-close c (d ∷ r) e = rw (e) refl

skip-drop : (s : Runes) → skip_space (drop_space (skip_space s)) ≡ drop_space (skip_space s)
unfolding skip_space drop_space
skip-drop [] = refl
skip-drop (c ∷ s) = elim (Bool-cases (is_space c)) [
  | inl e ↦ rw (e) (skip-drop s)
  | inr e ↦ rw (e) (skip-close c (drop_space s) e)
]

trim-IsTrimmed : (s : Runes) → IsTrimmed (trim_space s)
unfolding trim_space
trim-IsTrimmed s = record { start = skip-drop s; end = drop_idem (skip_space s) }

IsTrimmed-trim : (s : Runes) → IsTrimmed s → trim_space s ≡ s
unfolding trim_space
IsTrimmed-trim s h = ap drop_space h.start ∙ h.end

to_valid-runes : (b : Bool) (s : Runes) → to_valid b (map some s) ≡ s
unfolding to_valid
to_valid-runes b [] = refl
to_valid-runes b (c ∷ s) = ap (λ t. c ∷ t) (to_valid-runes false s)

Printable-trim : (s : Runes) → Printable s → Printable (trim_space s)
unfolding trim_space
Printable-trim s h = Printable-drop (skip_space s) (Printable-skip s h)

-- What every sanitized reason is.
pub record IsClean (s : Runes) : Type 0 where
  pub printable : Printable s
  pub trimmed : IsTrimmed s
  pub short : size s ≤ max_probation_reason

bound-IsClean : (s : Runes) → Printable s → IsTrimmed s → IsClean (bound s)
unfolding bound
bound-IsClean s h t = go (leb (size s) max_probation_reason) (leb→le (size s) max_probation_reason)
  where
    go :
        (b : Bool)
        → (b ≡ true → size s ≤ max_probation_reason)
        → IsClean (if b then s else trim_space (cut_at max_probation_reason s))
    go true f = record { printable = h; trimmed = t; short = f refl }
    go false f = record {
      printable =
          Printable-trim (cut_at max_probation_reason s) (Printable-cut max_probation_reason s h);
      trimmed = trim-IsTrimmed (cut_at max_probation_reason s);
      short =
          omega (arith, size-trim (cut_at max_probation_reason s), size-cut max_probation_reason s);
    }

-- A sanitized reason has no control character, no space at either end and at most 512 bytes.
pub sanitize_reason-IsClean : (s : RawRunes) → IsClean (sanitize_reason s)
unfolding sanitize_reason
sanitize_reason-IsClean s =
    let t = map blank (to_valid false s) in
    bound-IsClean (trim_space t) (Printable-trim t (Printable-blank (to_valid false s)))
      (trim-IsTrimmed t)

pub IsClean-sanitize_reason : (s : Runes) → IsClean s → sanitize_reason (map some s) ≡ s
unfolding sanitize_reason bound
IsClean-sanitize_reason s h =
    let small : leb (size s) max_probation_reason ≡ true = ground (arith, h.short) in
    ap bound (
      ap trim_space (ap (map blank) (to_valid-runes false s) ∙ blank-Printable s h.printable)
      ∙ IsTrimmed-trim s h.trimmed)
    ∙ rw (small) refl

-- A text is its own sanitized form exactly where it is clean.
sanitize_reason_iff : (s : Runes) → (sanitize_reason (map some s) ≡ s) ↔ IsClean s
sanitize_reason_iff s =
    (λ h. subst IsClean h (sanitize_reason-IsClean (map some s)), IsClean-sanitize_reason s)

-- Whatever runes and other bytes a reason is made of, its sanitized form is clean: it holds no
-- control character, has no space at either end, and is at most 512 bytes long. Sanitizing it
-- again does not change it.
pub sanitize_reason_idem :
    (s : RawRunes)
    → IsClean (sanitize_reason s)
      × (sanitize_reason (map some (sanitize_reason s)) ≡ sanitize_reason s)
sanitize_reason_idem s =
    let clean = sanitize_reason-IsClean s in
    (clean, IsClean-sanitize_reason (sanitize_reason s) clean)
