-- ===== src/Safepath/Walk.antt =====
-- Where a path leads: what Clean answers names the same place, and it is beneath the directory
-- that the path is read from.
use idunn.Prelude.{
  Bool, true, false, ◌||◌, Option, none, some, List, [], ◌∷◌, ◌++◌, Bytes, last?, same,
  if◌then◌else◌, All, append_assoc, ◌≡◌, refl, ap, ◌∙◌, Bool-cases, inl, inr,
}
use idunn.Safepath.{dot, dots, drop_last, go_up, push_element, resolve}

-- The directory that a path leads to from the directory `r`, both as the names on the way from
-- the root of the filesystem.
unfoldable pub walk : List Bytes → List Bytes → List Bytes
unfolding same drop_last
walk r [] = r
walk r (e ∷ es) =
    let here = walk r es in
    let above = walk (drop_last r) es in
    let below = walk (r ++ e ∷ []) es in
    if same e [] || same e dot then here else if same e dots then above else below

abbrev pub IsDown : Bytes → Type 0
IsDown e = same e dots ≡ false

drop_last-append :
    (r out : List Bytes) (l : Bytes)
    → last? out ≡ some l
    → drop_last (r ++ out) ≡ r ++ drop_last out
unfolding drop_last last?
drop_last-append [] out l h = refl
drop_last-append (x ∷ []) [] l h = cc
drop_last-append (x ∷ []) (y ∷ out) l h = refl
drop_last-append (x ∷ y ∷ r) out l h = ap (λ t. x ∷ t) (drop_last-append (y ∷ r) out l h)

IsDown-drop_last :
    (out : List Bytes) (l : Bytes)
    → last? out ≡ some l
    → IsDown l
    → All IsDown (drop_last out)
    → All IsDown out
unfolding drop_last last?
IsDown-drop_last [] l e h hs = tt
IsDown-drop_last (x ∷ []) l e h hs = (cc, tt)
IsDown-drop_last (x ∷ y ∷ out) l e h hs = (hs.0, IsDown-drop_last (y ∷ out) l e h hs.1)

IsDown-append :
    (out : List Bytes) (e : Bytes) → All IsDown (out ++ e ∷ []) → All IsDown out × IsDown e
IsDown-append [] e h = (tt, h.0)
IsDown-append (x ∷ out) e h = let (a, b) = IsDown-append out e h.1 in ((h.0, a), b)

-- A step upwards from `out` is a step back, unless it leaves a `..` that stays.
data IsBack (out : List Bytes) : List Bytes → Type 0 where
  back : (l : Bytes) → last? out ≡ some l → IsDown l → IsBack out (drop_last out)
  stays : IsBack out (out ++ dots ∷ [])

go_up-IsBack : (out : List Bytes) → IsBack out (go_up out)
unfolding go_up
go_up-IsBack out = go (last? out) refl
  where
    pick :
        (l : Bytes) (b : Bool)
        → last? out ≡ some l
        → same l dots ≡ b
        → IsBack out (if b then out ++ dots ∷ [] else drop_last out)
    pick l true e h = stays
    pick l false e h = back l e h

    go :
        (o : Option Bytes)
        → last? out ≡ o
        → IsBack out (elim o [
          | none ↦ out ++ dots ∷ []
          | some l ↦ if same l dots then out ++ dots ∷ [] else drop_last out
        ])
    go none e = stays
    go (some l) e = pick l (same l dots) e refl

data IsPush (out : List Bytes) (e : Bytes) : List Bytes → Type 0 where
  skip : (same e [] || same e dot) ≡ true → IsPush out e out
  up :
      (same e [] || same e dot) ≡ false
      → same e dots ≡ true
      → (o : List Bytes) → IsBack out o
      → IsPush out e o
  down : (same e [] || same e dot) ≡ false → IsDown e → IsPush out e (out ++ e ∷ [])

push_element-IsPush : (out : List Bytes) (e : Bytes) → IsPush out e (push_element out e)
unfolding push_element
push_element-IsPush out e = elim (Bool-cases (same e [] || same e dot)) [
  | inl h ↦ rw (h) (skip h)
  | inr h ↦ elim (Bool-cases (same e dots)) [
    | inl d ↦ rw (h, d) (up h d (go_up out) (go_up-IsBack out))
    | inr d ↦ rw (h, d) (down h d)
  ]
]

IsDown-push⁻ :
    (out : List Bytes) (e : Bytes) {o : List Bytes} → IsPush out e o → All IsDown o → All IsDown out
IsDown-push⁻ out e (skip h) hs = hs
IsDown-push⁻ out e (up h d o (back l hl dl)) hs = IsDown-drop_last out l hl dl hs
IsDown-push⁻ out e (up h d o stays) hs = (IsDown-append out dots hs).0
IsDown-push⁻ out e (down h d) hs = (IsDown-append out e hs).0

IsDown-resolve⁻ : (out es : List Bytes) → All IsDown (resolve out es) → All IsDown out
unfolding resolve
IsDown-resolve⁻ out [] h = h
IsDown-resolve⁻ out (e ∷ es) h =
    IsDown-push⁻ out e (push_element-IsPush out e) (IsDown-resolve⁻ (push_element out e) es h)

walk_step :
    (r out : List Bytes) (e : Bytes) (es : List Bytes) {o : List Bytes}
    → IsPush out e o
    → All IsDown o
    → walk (r ++ out) (e ∷ es) ≡ walk (r ++ o) es
unfolding walk
walk_step r out e es (skip h) hs = rw (h) refl
walk_step r out e es (up h d o (back l hl dl)) hs = rw (h, d, drop_last-append r out l hl) refl
walk_step r out e es (up h d o stays) hs = cc ((IsDown-append out dots hs).1)
walk_step r out e es (down h d) hs = rw (h, d, append_assoc r out (e ∷ [])) refl

pub walk-resolve :
    (r out es : List Bytes) → All IsDown (resolve out es) → walk (r ++ out) es ≡ r ++ resolve out es
unfolding resolve walk
walk-resolve r out [] h = refl
walk-resolve r out (e ∷ es) h =
    walk_step r out e es (push_element-IsPush out e) (IsDown-resolve⁻ (push_element out e) es h)
    ∙ walk-resolve r (push_element out e) es h
