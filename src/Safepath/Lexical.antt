-- ===== src/Safepath/Lexical.antt =====
-- path.Clean as a walk over elements: where a path leads, and what its clean form keeps.
use idunn.Prelude.{
  ℕ, suc, Bool, true, false, ◌||◌, none, some, List, [], ◌∷◌, ◌++◌, Bytes, length, split, join_with,
  last?, same, same_iff, if◌then◌else◌, All, All-append, append_assoc, append-nil, ◌≡◌, refl, sym,
  ◌≤◌, ◌+◌, ◌==◌, contains_byte, arith,
}
use idunn.Prelude.Splits.{
  split-cons, join_with-split, weight, weight-append, weight-split, length-join_with, Lacks,
  Lacks-join_with, Lacks-split, split-Lacks, split-join_with,
}
use idunn.Safepath.{dot, dots, drop_last, go_up, push_element, resolve, print_path, path_clean}

-- An element that path.Clean leaves where it is.
abbrev pub IsNamed : Bytes → Type 0
IsNamed e = (same e [] ≡ false) × (same e dot ≡ false) × (same e dots ≡ false)

resolve-IsNamed : (out es : List Bytes) → All IsNamed es → resolve out es ≡ out ++ es
unfolding resolve push_element
resolve-IsNamed out [] h = sym (append-nil out)
resolve-IsNamed out (e ∷ es) h = ground (
  arith,
  resolve-IsNamed (out ++ e ∷ []) es h.1,
  append_assoc out (e ∷ []) es,
  h.0.0,
  h.0.1,
  h.0.2,
)

print_path-cons : (p : Bytes) (ps qs : List Bytes) → qs ≡ p ∷ ps → print_path qs ≡ join_with b'/' qs
unfolding print_path
print_path-cons p ps [] h = cc
print_path-cons p ps (q ∷ qs) h = refl

-- A path all of whose elements are named is its own clean form.
pub path_clean-IsNamed : (s : Bytes) → All IsNamed (split s b'/') → path_clean s ≡ s
unfolding path_clean
path_clean-IsNamed s h =
    let (p, ps, e) = split-cons s b'/' in
    rw (resolve-IsNamed [] (split s b'/') h, print_path-cons p ps (split s b'/') e)
      (join_with-split s b'/')

weight-drop_last : (out : List Bytes) → weight (drop_last out) ≤ weight out
unfolding weight drop_last
weight-drop_last [] = omega arith
weight-drop_last (x ∷ []) = omega arith
weight-drop_last (x ∷ y ∷ out) = omega (arith, weight-drop_last (y ∷ out))

weight-go_up : (out : List Bytes) → weight (go_up out) ≤ weight out + 3
unfolding go_up weight
weight-go_up out = ground (arith, weight-append out (dots ∷ []), weight-drop_last out)

weight-push_element :
    (out : List Bytes) (e : Bytes) → weight (push_element out e) ≤ weight out + suc (length e)
unfolding push_element weight
weight-push_element out e =
    ground (arith, weight-append out (e ∷ []), weight-go_up out, same_iff e dots)

weight-resolve : (out es : List Bytes) → weight (resolve out es) ≤ weight out + weight es
unfolding resolve weight
weight-resolve out [] = omega arith
weight-resolve out (e ∷ es) =
    omega (arith, weight-resolve (push_element out e) es, weight-push_element out e)

module _ (P : Bytes → Type 0) (up : P dots) where
  All-drop_last : (out : List Bytes) → All P out → All P (drop_last out)
  unfolding drop_last
  All-drop_last [] h = tt
  All-drop_last (x ∷ []) h = tt
  All-drop_last (x ∷ y ∷ out) h = (h.0, All-drop_last (y ∷ out) h.1)

  All-if : (b : Bool) (xs ys : List Bytes) → All P xs → All P ys → All P (if b then xs else ys)
  All-if true xs ys hx hy = hx
  All-if false xs ys hx hy = hy

  All-go_up : (out : List Bytes) → All P out → All P (go_up out)
  unfolding go_up
  All-go_up out h =
      let more = All-append P out (dots ∷ []) h (up, tt) in
      elim (last? out)
        as (λ o. All P (elim o [
          | none ↦ out ++ dots ∷ []
          | some l ↦ if same l dots then out ++ dots ∷ [] else drop_last out
        ])) [
          | none ↦ more
          | some l ↦
              All-if (same l dots) (out ++ dots ∷ []) (drop_last out) more (All-drop_last out h)
        ]

  All-push_element : (out : List Bytes) (e : Bytes) → All P out → P e → All P (push_element out e)
  unfolding push_element
  All-push_element out e h he =
      All-if (same e [] || same e dot) out (if same e dots then go_up out else out ++ e ∷ []) h (
        All-if (same e dots) (go_up out) (out ++ e ∷ []) (All-go_up out h)
          (All-append P out (e ∷ []) h (he, tt)))

  pub All-resolve : (out es : List Bytes) → All P out → All P es → All P (resolve out es)
  unfolding resolve
  All-resolve out [] h hs = h
  All-resolve out (e ∷ es) h hs =
      All-resolve (push_element out e) es (All-push_element out e h hs.0) hs.1

Lacks-print_path :
    (b : ℕ) (es : List Bytes)
    → (b == b'.') ≡ false
    → (b'/' == b) ≡ false
    → All (Lacks b) es
    → Lacks b (print_path es)
unfolding print_path contains_byte
Lacks-print_path b [] hd hs h = ground arith
Lacks-print_path b (e ∷ es) hd hs h = Lacks-join_with b b'/' (e ∷ es) hs h

-- Cleaning brings in no byte but dots and slashes.
pub Lacks-path_clean :
    (b : ℕ) (s : Bytes)
    → (b == b'.') ≡ false
    → (b'/' == b) ≡ false
    → Lacks b s
    → Lacks b (path_clean s)
unfolding path_clean contains_byte
Lacks-path_clean b s hd hs h =
    Lacks-print_path b (resolve [] (split s b'/')) hd hs
      (All-resolve (Lacks b) (ground arith) [] (split s b'/') tt (Lacks-split b s b'/' h))

-- Nor does it make a path longer, where it leaves one.
pub length-path_clean :
    (s : Bytes) → same (path_clean s) dot ≡ false → length (path_clean s) ≤ length s
unfolding path_clean print_path weight
length-path_clean s h =
    omega (
      arith,
      go (resolve [] (split s b'/')) h,
      weight-resolve [] (split s b'/'),
      weight-split s b'/',
    )
  where
    go :
        (es : List Bytes)
        → same (print_path es) dot ≡ false
        → suc (length (print_path es)) ≡ weight es
    go [] h = cc
    go (e ∷ es) h = length-join_with b'/' e es

-- What a clean form is split into, where it is not the one dot of an empty path.
pub split-path_clean :
    (s : Bytes)
    → same (path_clean s) dot ≡ false
    → split (path_clean s) b'/' ≡ resolve [] (split s b'/')
unfolding path_clean print_path contains_byte
split-path_clean s h =
    go (resolve [] (split s b'/')) h
      (All-resolve (Lacks b'/') refl [] (split s b'/') tt (split-Lacks s b'/'))
  where
    go :
        (es : List Bytes)
        → same (print_path es) dot ≡ false
        → All (Lacks b'/') es
        → split (print_path es) b'/' ≡ es
    go [] h hs = cc
    go (e ∷ es) h hs = split-join_with e es b'/' hs
