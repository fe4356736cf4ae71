-- ===== src/Release/Descriptor/Files.antt =====
-- The files of an accepted descriptor: what each of them is, and that no two of them meet.
use idunn.Prelude.{
  true, false, ◌/◌, ◌≤◌, List, [], ◌∷◌, Bytes, map, All, member, same, same_iff, ◌==◌, ==_iff,
  Result, ok, err, refuse_if-false, then-eq-ok, or-false, ok-injective, ◌≡◌, refl, ap, ◌↔◌, arith,
}
use idunn.Prelude.Options.{not-false}
use idunn.Safepath
use idunn.Safepath.{clean, clean_target}
use idunn.Safepath.Plain.{IsPlain, clean-ok_iff}
use idunn.Release.Descriptor.{FileRef, ParseError, check_path, kinds, check_file, check_files}

pub IsFile : FileRef → Type 0
IsFile f = IsPlain f.target × IsPlain f.dst × (member f.kind kinds ≡ true) × (f.mode ≤ 511)

-- No text stands in the list twice.
pub Distinct : List Bytes → Type 0
Distinct [] = Unit
Distinct (x ∷ xs) = (member x xs ≡ false) × Distinct xs

abbrev Apart : List Bytes → List Bytes → Type 0
Apart seen xs = All (λ x. member x seen ≡ false) xs

same-sym : (s t : Bytes) → same s t ≡ same t s
unfolding same
same-sym [] [] = refl
same-sym [] (y ∷ t) = refl
same-sym (x ∷ s) [] = refl
same-sym (x ∷ s) (y ∷ t) = ground (arith, same-sym s t)

Apart-cons :
    (x : Bytes) (seen xs : List Bytes) → Apart (x ∷ seen) xs → (member x xs ≡ false) × Apart seen xs
unfolding member
Apart-cons x seen [] h = (refl, tt)
Apart-cons x seen (y ∷ xs) h =
    let (new, old) = or-false (same x y) (member y seen) h.0 in
    let (m, a) = Apart-cons x seen xs h.1 in (rw (same-sym y x, new) m, (old, a))

cons-Apart :
    (x : Bytes) (seen xs : List Bytes) → member x xs ≡ false → Apart seen xs → Apart (x ∷ seen) xs
unfolding member
cons-Apart x seen [] m h = tt
cons-Apart x seen (y ∷ xs) m h =
    let (new, rest) = or-false (same y x) (member x xs) m in
    (rw (same-sym x y, new) (h.0), cons-Apart x seen xs rest h.1)

check_path-IsPlain :
    (path : Bytes) (bad unclean : ParseError) (r : Result Safepath.Error Bytes)
    → check_path r path bad unclean ≡ ok tt
    → r ≡ ok path
unfolding check_path
check_path-IsPlain path bad unclean (err e) h = cc
check_path-IsPlain path bad unclean (ok cleaned) h =
    ap ok ((same_iff cleaned path).0 (not-false _ (refuse_if-false _ _ h)))

IsPlain-check_path :
    (path : Bytes) (bad unclean : ParseError) (r : Result Safepath.Error Bytes)
    → r ≡ ok path
    → check_path r path bad unclean ≡ ok tt
unfolding check_path
IsPlain-check_path path bad unclean (err e) h = cc
IsPlain-check_path path bad unclean (ok cleaned) h =
    rw ((same_iff cleaned path).1 (ok-injective _ _ h)) refl

pub check_path_iff :
    (path : Bytes) (bad unclean : ParseError) (r : Result Safepath.Error Bytes)
    → (check_path r path bad unclean ≡ ok tt) ↔ (r ≡ ok path)
check_path_iff path bad unclean r =
    (check_path-IsPlain path bad unclean r, IsPlain-check_path path bad unclean r)

check_file-IsFile :
    (f : FileRef) (st sd : List Bytes)
    → check_file f st sd ≡ ok tt
    → IsFile f × (member f.target st ≡ false) × (member f.dst sd ≡ false)
unfolding check_file IsFile Safepath.clean_target
check_file-IsFile f st sd h =
    let (h1, k1) = then-eq-ok _ _ h in
    let (h2, k2) = then-eq-ok _ _ k1 in
    let (h3, k3) = then-eq-ok _ _ k2 in
    let (h4, k4) = then-eq-ok _ _ k3 in
    let (h5, h6) = then-eq-ok _ _ k4 in
    let small : (f.mode / 512 == 0) ≡ true = not-false _ (refuse_if-false _ _ h4) in
    (
      (
        (clean-ok_iff f.target).0 (check_path-IsPlain f.target _ _ _ h1),
        (clean-ok_iff f.dst).0 (check_path-IsPlain f.dst _ _ _ h2),
        not-false _ (refuse_if-false _ _ h3),
        omega (arith, (==_iff _ _).0 small),
      ),
      refuse_if-false _ _ h5,
      refuse_if-false _ _ h6,
    )

IsFile-check_file :
    (f : FileRef) (st sd : List Bytes)
    → IsFile f
    → member f.target st ≡ false
    → member f.dst sd ≡ false
    → check_file f st sd ≡ ok tt
unfolding check_file IsFile Safepath.clean_target
IsFile-check_file f st sd (t, d, k, m) nt nd =
    let small : (f.mode / 512 == 0) ≡ true = (==_iff _ _).1 (omega (arith, m)) in
    rw
      (
        IsPlain-check_path f.target ParseError.bad_target ParseError.unclean_target _
            ((clean-ok_iff f.target).1 t),
        IsPlain-check_path f.dst ParseError.bad_dst ParseError.unclean_dst _
            ((clean-ok_iff f.dst).1 d),
        k,
        small,
        nt,
        nd,
      )
      refl

targets : List FileRef → List Bytes
targets fs = map (λ f. f.target) fs

dsts : List FileRef → List Bytes
dsts fs = map (λ f. f.dst) fs

check_files-IsFile :
    (fs : List FileRef) (st sd : List Bytes)
    → check_files fs st sd ≡ ok tt
    → All IsFile fs
      × Distinct (targets fs)
      × Distinct (dsts fs)
      × Apart st (targets fs)
      × Apart sd (dsts fs)
unfolding check_files targets dsts Distinct
check_files-IsFile [] st sd h = (tt, tt, tt, tt, tt)
check_files-IsFile (f ∷ fs) st sd h =
    let (h1, h2) = then-eq-ok (check_file f st sd) _ h in
    let (p, nt, nd) = check_file-IsFile f st sd h1 in
    let (ps, dt, dd, at, ad) = check_files-IsFile fs (f.target ∷ st) (f.dst ∷ sd) h2 in
    let (mt, at') = Apart-cons f.target st (targets fs) at in
    let (md, ad') = Apart-cons f.dst sd (dsts fs) ad in
    ((p, ps), (mt, dt), (md, dd), (nt, at'), (nd, ad'))

IsFile-check_files :
    (fs : List FileRef) (st sd : List Bytes)
    → All IsFile fs
    → Distinct (targets fs)
    → Distinct (dsts fs)
    → Apart st (targets fs)
    → Apart sd (dsts fs)
    → check_files fs st sd ≡ ok tt
unfolding check_files targets dsts Distinct
IsFile-check_files [] st sd p dt dd at ad = refl
IsFile-check_files (f ∷ fs) st sd p dt dd at ad = rw (IsFile-check_file f st sd p.0 at.0 ad.0) (
    IsFile-check_files fs (f.target ∷ st) (f.dst ∷ sd) p.1 dt.1 dd.1
      (cons-Apart f.target st (targets fs) dt.0 at.1) (cons-Apart f.dst sd (dsts fs) dd.0 ad.1))

-- The files that a client may install: each is one, and no target or destination is there twice.
pub AreFiles : List FileRef → Type 0
AreFiles fs = All IsFile fs × Distinct (targets fs) × Distinct (dsts fs)

none-Apart : (xs : List Bytes) → Apart [] xs
unfolding member
none-Apart [] = tt
none-Apart (x ∷ xs) = (refl, none-Apart xs)

pub check_files-AreFiles : (fs : List FileRef) → (check_files fs [] [] ≡ ok tt) ↔ AreFiles fs
unfolding AreFiles
check_files-AreFiles fs = (
  λ h. let (p, dt, dd, _, _) = check_files-IsFile fs [] [] h in (p, dt, dd),
  λ h. IsFile-check_files fs [] [] h.0 h.1 h.2 (none-Apart (targets fs)) (none-Apart (dsts fs)),
)
