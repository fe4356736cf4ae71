-- ===== src/Safepath/Plain.antt =====
-- Clean accepts and keeps exactly the plain paths, which are described here without it.
use mathlib.Core.Path.{subst}
use idunn.Prelude.{
  push_byte, Bool, true, false, Option, none, some, List, [], ◌∷◌, ◌++◌, Bytes, codes, length,
  split, contains_byte, cut_prefix, cut_prefix-some, same, same_iff, All, All-map, ends_with,
  member, map, ok, refuse_if-false, ltb-false→le, bind-eq-ok, then-eq-ok, or-false, ltb, ◌≤◌,
  append-nil, ◌≡◌, refl, sym, ap, ◌∙◌, ◌↔◌, arith,
}
use idunn.Prelude.Splits.{Lacks}
use idunn.Safepath.{
  dot, dots, max_len, upper, base_name, reserved_windows, rooted, starts_above, check_element,
  check_elements, check_text, check_cleaned, clean, path_clean, resolve,
}
use idunn.Safepath.Lexical.{
  IsNamed, path_clean-IsNamed, Lacks-path_clean, length-path_clean, split-path_clean,
}
use idunn.Safepath.Walk.{walk, walk-resolve, IsDown}

-- An element that is a file name on every platform.
pub IsElement : Bytes → Type 0
IsElement e =
    (same e [] ≡ false)
    × (same e dot ≡ false)
    × (same e dots ≡ false)
    × (ends_with b' ' e ≡ false)
    × (ends_with b'.' e ≡ false)
    × (member (map upper (base_name e)) reserved_windows ≡ false)

-- A path that means the same everywhere, and only what is beneath the directory it is read from.
pub IsPlain : Bytes → Type 0
IsPlain s =
    (length s ≤ max_len) × Lacks 0 s × Lacks b'\\' s × Lacks b':' s × All IsElement (split s b'/')

check_element-IsElement : (e : Bytes) → check_element e ≡ ok tt → IsElement e
unfolding check_element IsElement
check_element-IsElement e h =
    let (k3, h4) = then-eq-ok _ _ h in
    let (k2, h3) = then-eq-ok _ _ k3 in
    let (k1, h2) = then-eq-ok _ _ k2 in
    let (d1, d2) = or-false _ _ (refuse_if-false _ _ h2) in
    let (e1, e2) = or-false _ _ (refuse_if-false _ _ h3) in
    (refuse_if-false _ _ k1, d1, d2, e1, e2, refuse_if-false _ _ h4)

IsElement-check_element : (e : Bytes) → IsElement e → check_element e ≡ ok tt
unfolding check_element IsElement
IsElement-check_element e (h1, d1, d2, e1, e2, h4) = rw (h1, d1, d2, e1, e2, h4) refl

check_elements-IsElement : (es : List Bytes) → check_elements es ≡ ok tt → All IsElement es
unfolding check_elements
check_elements-IsElement [] h = tt
check_elements-IsElement (e ∷ es) h =
    let (u, h1, h2) = bind-eq-ok (check_element e) (λ _. check_elements es) h in
    (check_element-IsElement e h1, check_elements-IsElement es h2)

IsElement-check_elements : (es : List Bytes) → All IsElement es → check_elements es ≡ ok tt
unfolding check_elements
IsElement-check_elements [] h = refl
IsElement-check_elements (e ∷ es) h =
    rw (IsElement-check_element e h.0) (IsElement-check_elements es h.1)

IsElement-IsNamed : (es : List Bytes) → All IsElement es → All IsNamed es
unfolding IsElement
IsElement-IsNamed es h = All-map es (λ e p. (p.0, p.1, p.2)) h

-- The bytes of a text that Clean looks at.
check_text-Lacks :
    (s : Bytes)
    → check_text s ≡ ok tt
    → (length s ≤ max_len) × Lacks 0 s × Lacks b'\\' s × Lacks b':' s
unfolding check_text
check_text-Lacks s h =
    let (k5, h6) = then-eq-ok _ _ h in
    let (k4, h5) = then-eq-ok _ _ k5 in
    let (k3, h4) = then-eq-ok _ _ k4 in
    let (k2, h3) = then-eq-ok _ _ k3 in
    let (k1, h2) = then-eq-ok _ _ k2 in
    (
      ltb-false→le _ _ (refuse_if-false _ _ h2),
      refuse_if-false _ _ h3,
      refuse_if-false _ _ h4,
      refuse_if-false _ _ h6,
    )

-- A text with a plain first element is neither empty, rooted, dots alone, nor a walk upwards.
first-IsElement :
    (s p : Bytes) (ps : List Bytes)
    → split s b'/' ≡ p ∷ ps
    → All IsElement (split s b'/')
    → IsElement p
first-IsElement s p ps e h = (subst (λ q. All IsElement q) e h).0

refute : (b : Bool) → (b ≡ true → true ≡ false) → b ≡ false
refute true f = f refl
refute false f = refl

is_some :
    (o : Option Bytes) → elim o [ none ↦ false | some _ ↦ true ] ≡ true → (r : Bytes) × (o ≡ some r)
is_some none h = cc
is_some (some r) h = (r, refl)

rooted-cut : (s : Bytes) → rooted s ≡ true → (r : Bytes) × (cut_prefix s (codes "/") ≡ some r)
rooted-cut [] h = cc
rooted-cut (x ∷ s) h = is_some _ h

module _ (s : Bytes) (h : All IsElement (split s b'/')) where
  nonempty : same s [] ≡ false
  unfolding split IsElement same
  nonempty =
      refute _ λ e. (first-IsElement s [] [] (ap (λ t. split t b'/') ((same_iff s []).0 e)) h).0

  unrooted : rooted s ≡ false
  unfolding split IsElement same
  unrooted = refute _ λ e.
      let (r, k) = rooted-cut s e in
      (first-IsElement s [] (split r b'/')
        (ap (λ t. split t b'/') (cut_prefix-some s (codes "/") r k)) h).0

  not_dot : same s dot ≡ false
  unfolding split push_byte IsElement same
  not_dot =
      refute _ λ e. (first-IsElement s dot [] (ap (λ t. split t b'/') ((same_iff s dot).0 e)) h).1

  not_dots : same s dots ≡ false
  unfolding split push_byte IsElement same
  not_dots =
      refute _ λ e. (first-IsElement s dots [] (ap (λ t. split t b'/') ((same_iff s dots).0 e)) h).2

  not_above : starts_above s ≡ false
  unfolding split push_byte IsElement same
  not_above = refute _ λ e.
      let (r, k) = is_some (cut_prefix s (codes "../")) e in
      (first-IsElement s dots (split r b'/')
        (ap (λ t. split t b'/') (cut_prefix-some s (codes "../") r k)) h).2

  check_cleaned-IsPlain : check_cleaned s ≡ ok tt
  unfolding check_cleaned
  check_cleaned-IsPlain =
      rw (not_dot, not_dots, not_above, unrooted) (IsElement-check_elements (split s b'/') h)

  fixed : path_clean s ≡ s
  fixed = path_clean-IsNamed s (IsElement-IsNamed (split s b'/') h)

check_cleaned-elements :
    (c : Bytes) → check_cleaned c ≡ ok tt → (same c dot ≡ false) × All IsElement (split c b'/')
unfolding check_cleaned
check_cleaned-elements c h =
    let (k2, h3) = then-eq-ok _ _ h in
    let (k1, h2) = then-eq-ok _ _ k2 in
    let (d, a) = or-false _ _ (refuse_if-false _ _ k1) in
    ((or-false _ _ d).0, check_elements-IsElement (split c b'/') h3)

clean-ok :
    (s c : Bytes)
    → clean s ≡ ok c
    → (check_text s ≡ ok tt) × (check_cleaned (path_clean s) ≡ ok tt) × (path_clean s ≡ c)
unfolding clean
clean-ok s c h = let (k2, h3) = then-eq-ok _ _ h in let (h1, h2) = then-eq-ok _ _ k2 in (h1, h2, cc)

-- A path that Clean answers is plain, whatever the text that it was given.
pub clean-IsPlain : (s c : Bytes) → clean s ≡ ok c → IsPlain c
unfolding IsPlain contains_byte
clean-IsPlain s c h =
    let (h1, h2, e) = clean-ok s c h in
    let (d, es) = check_cleaned-elements (path_clean s) h2 in
    let (l, n0, n1, n2) = check_text-Lacks s h1 in
    subst IsPlain e (
      omega (arith, l, length-path_clean s d),
      Lacks-path_clean 0 s (ground arith) (ground arith) n0,
      Lacks-path_clean b'\\' s (ground arith) (ground arith) n1,
      Lacks-path_clean b':' s (ground arith) (ground arith) n2,
      es,
    )

IsPlain-clean : (s : Bytes) → IsPlain s → clean s ≡ ok s
unfolding clean check_text IsPlain
IsPlain-clean s (l, n0, n1, n2, es) =
    let short : ltb max_len (length s) ≡ false = ground (arith, l) in
    rw (nonempty s es, short, n0, n1, unrooted s es, n2, fixed s es, check_cleaned-IsPlain s es)
      refl

pub clean-ok_iff : (s : Bytes) → (clean s ≡ ok s) ↔ IsPlain s
clean-ok_iff s = (clean-IsPlain s s, IsPlain-clean s)

IsElement-IsDown : (e : Bytes) → IsElement e → IsDown e
unfolding IsElement
IsElement-IsDown e p = p.2

-- What Clean answers for a text is where the text leads: from any directory, following the text's
-- elements one by one, `..` to the parent, ends at the answer's elements beneath that directory.
pub clean-walk :
    (r : List Bytes) (s c : Bytes) → clean s ≡ ok c → walk r (split s b'/') ≡ r ++ split c b'/'
clean-walk r s c h =
    let (h1, h2, e) = clean-ok s c h in
    let (d, es) = check_cleaned-elements (path_clean s) h2 in
    let q = split-path_clean s d in
    let down : All IsDown (resolve [] (split s b'/')) =
      subst (λ t. All IsDown t) q
        (All-map (split (path_clean s) b'/') (λ x p. (IsElement-IsDown x p)) es) in
    ap (λ t. walk t (split s b'/')) (sym (append-nil r))
    ∙ walk-resolve r [] (split s b'/') down
    ∙ ap (λ t. r ++ t) (sym q ∙ ap (λ t. split t b'/') e)
