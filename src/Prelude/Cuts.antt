-- ===== src/Prelude/Cuts.antt =====
-- strings.Cut and strings.CutSuffix undo the joining of what they cut apart.
use Prim.Native.Nat.{ℕ, ◌<◌}
use mathlib.Core.Path.{◌≡◌, refl, sym, ap, ◌∙◌}
use mathlib.Core.Bool.{Bool, true, false}
use mathlib.Core.Option.{Option, none, some, some-injective}
use mathlib.Core.List.{[], ◌∷◌, ◌++◌}
use native.Mathlib.Omega.{arith}
use idunn.Prelude.Tests.{◌==◌, if◌then◌else◌, ==_iff}
use idunn.Prelude.Lists.{length, length-append}
use idunn.Prelude.Text.{Bytes, contains_byte, cut, cut_suffix, same, same_refl, same_iff}
use idunn.Prelude.Splits.{Lacks}

pub cut-append : (s t : Bytes) (sep : ℕ) → Lacks sep s → cut (s ++ (sep ∷ t)) sep ≡ some (s, t)
unfolding cut contains_byte
cut-append [] t sep h = ground arith
cut-append (x ∷ s) t sep h = ground (arith, cut-append s t sep)

same-longer : (s t : Bytes) → length t < length s → same s t ≡ false
unfolding same
same-longer [] [] h = ground arith
same-longer [] (y ∷ t) h = refl
same-longer (x ∷ s) [] h = refl
same-longer (x ∷ s) (y ∷ t) h = ground (arith, same-longer s t)

pub cut_suffix-append : (s t : Bytes) → cut_suffix (s ++ t) t ≡ some s
unfolding cut_suffix same
cut_suffix-append [] [] = refl
cut_suffix-append [] (y ∷ t) = rw (same_refl t) (ground arith)
cut_suffix-append (x ∷ s) t =
    rw (same-longer (x ∷ s ++ t) t (omega (arith, length-append s t)), cut_suffix-append s t) refl

pub cut_suffix-some : (s t r : Bytes) → cut_suffix s t ≡ some r → s ≡ r ++ t
unfolding cut_suffix
cut_suffix-some [] t r h = ground (arith, same_iff [] t)
cut_suffix-some (x ∷ s) t r h =
    go (same (x ∷ s) t) (same_iff (x ∷ s) t).0 (cut_suffix s t) (cut_suffix-some s t) h
  where
    go :
        (b : Bool)
        → (b ≡ true → x ∷ s ≡ t)
        → (o : Option Bytes) → ((q : Bytes) → o ≡ some q → s ≡ q ++ t)
        → (if b then some [] else elim o [ none ↦ none | some q ↦ some (x ∷ q) ]) ≡ some r
        → x ∷ s ≡ r ++ t
    go true f o g h = cc (f refl)
    go false f none g h = cc
    go false f (some q) g h = cc (g q refl)

pub cut-some :
    (s : Bytes) (sep : ℕ) (p : Bytes × Bytes) → cut s sep ≡ some p → s ≡ p.0 ++ (sep ∷ p.1)
unfolding cut
cut-some [] sep p h = cc
cut-some (x ∷ s) sep p h = go (x == sep) (==_iff x sep).0 (cut s sep) (cut-some s sep) p h
  where
    go :
        (b : Bool)
        → (b ≡ true → x ≡ sep)
        → (o : Option (Bytes × Bytes)) → ((q : Bytes × Bytes) → o ≡ some q → s ≡ q.0 ++ (sep ∷ q.1))
        → (p : Bytes × Bytes)
        → (if b then some ([], s) else elim o [ none ↦ none | some (a, r) ↦ some (x ∷ a, r) ])
          ≡ some p
        → x ∷ s ≡ p.0 ++ (sep ∷ p.1)
    go true f o g p h =
        ap (λ y. y ∷ s) (f refl) ∙ ap (λ q. q.0 ++ (sep ∷ q.1)) (some-injective _ _ h)
    go false f none g p h = cc
    go false f (some (a, r)) g p h =
        ap (λ t. x ∷ t) (g (a, r) refl) ∙ ap (λ q. q.0 ++ (sep ∷ q.1)) (some-injective _ _ h)

pub cut-injective :
    (s s' t t' : Bytes) (sep : ℕ)
    → Lacks sep s
    → Lacks sep s'
    → s ++ (sep ∷ t) ≡ s' ++ (sep ∷ t')
    → (s ≡ s') × (t ≡ t')
cut-injective s s' t t' sep h h' e =
    let pairs =
      some-injective _ _
        (sym (cut-append s t sep h) ∙ ap (λ r. cut r sep) e ∙ cut-append s' t' sep h') in
    (ap (λ p. p.0) pairs, ap (λ p. p.1) pairs)
