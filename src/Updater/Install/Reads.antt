-- ===== src/Updater/Install/Reads.antt =====
-- What a read of the record of probation finds, and the calls that leave the record alone, on the
-- whole disk and with nothing said of an error.
use idunn.Prelude.{
  ℕ, ◌≡◌, ◌≢◌, ◌⊎◌, refl, Bool, true, false, Option, none, some, [], Bytes, Result, ok, err,
}
use idunn.Txn.Journal.{Document, Error}
use idunn.Txn.Log.{open_journal, read_document}
use idunn.Layout.Disk.{Disk, Place, set_scratch}
use idunn.Layout.Effects.{Action, lift, quiet, io, on_error, write_file_atomic}
use idunn.Layout.Effects.Triple.{
  Post, Triple, Triple-pure, Triple-raise, Triple-lift, Triple-look, Triple-effect, Triple-on_error,
  Triple-bind,
}
use idunn.Probation.Record.{Probation, BlockedVersion, Stored, absent, unreadable, stored}
use idunn.Probation.Files.{Files, decode, read_probation}

abbrev pub Top : {A : Type 0} → A → Type 0
Top a = Unit {0}

-- Where a version is blocked for a reason, it is another one.
abbrev pub Allows : Bytes → Option BlockedVersion → Type 0
Allows v none = Unit {0}
Allows v (some b) = (b.version ≢ v) ⊎ (b.reason ≡ [])

abbrev pub IsUnblocked : Bytes → Stored → Type 0
IsUnblocked v absent = Unit {0}
IsUnblocked v unreadable = ⊥
IsUnblocked v (stored p) = Allows v p.blocked

abbrev pub blocked_of : Option Probation → Option BlockedVersion
blocked_of none = none
blocked_of (some p) = p.blocked

abbrev pub Reads : Option Probation → Stored → Type 0
Reads none s = s ≡ absent
Reads (some p) s = s ≡ stored p

each-Post : {H A : Type 0} (r : Result Error A) (d : Disk H) → Post {A = A} (λ _. Top) Top r d
each-Post (ok a) d = tt
each-Post (err e) d = tt

module _ {H A : Type 0} {P : Disk H → Type 0} where
  pub Triple-run : (m : Action H A) → Triple P m (λ _. Top) Top
  Triple-run m = record { at = λ w h. each-Post (m w).0 (m w).1.disk }

  pub Triple-kept : (r : Result Error A) → Triple P (lift r) (λ _. P) Top
  Triple-kept r = Triple-lift r (λ a x d h. h) (λ d h. tt)

module _ {H : Type 0} {P Q : Disk H → Type 0} where
  pub Triple-write_file_atomic :
      (pl : Place) (f : Disk H → Disk H)
      → ((b : Bool) (d : Disk H) → P d → P (set_scratch pl b d))
      → ((d : Disk H) → P d → Q (set_scratch pl false (f d)))
      → Triple P (write_file_atomic pl f) (λ _. Q) Top
  unfolding write_file_atomic io quiet
  Triple-write_file_atomic pl f stable made =
      let step : Triple P (on_error quiet (io (set_scratch pl false))) (λ _. P) Top =
        Triple-on_error {F = Top} (Triple-look _ (λ d h. h) (λ d h. tt)) (Triple-run _) in
      Triple-bind {R = λ _. P} (Triple-effect _ _ (stable true) (λ d h. tt) (λ d h. tt)) λ _.
        Triple-bind {R = λ _. P} step λ _. Triple-bind {R = λ _. P} step λ _.
          Triple-bind {R = λ _. P} step λ _.
            Triple-bind {R = λ _. Q}
              (Triple-on_error {F = Top} (Triple-effect _ _ made (λ d h. tt) (λ d h. tt))
                (Triple-run _))
              λ _. Triple-look _ (λ d h. h) (λ d h. tt)

module _ {H : Type 0} {P : Disk (Files H) → Type 0} where
  Triple-decode :
      (s : Stored)
      → Triple
          (λ d. P d × (d.host.probation ≡ s))
          (decode s)
          (λ o d. P d × Reads o d.host.probation)
          Top
  unfolding decode
  Triple-decode absent = Triple-pure none (λ d h. h)
  Triple-decode unreadable = Triple-raise _ (λ d h. tt)
  Triple-decode (stored p) =
      Triple-bind {R = λ _ d. P d × (d.host.probation ≡ stored p)} (Triple-kept _) λ _.
        Triple-bind {R = λ _ d. P d × (d.host.probation ≡ stored p)} (Triple-kept _)
          λ _. Triple-pure (some p) (λ d h. h)

  pub Triple-read_probation : Triple P read_probation (λ o d. P d × Reads o d.host.probation) Top
  unfolding read_probation
  Triple-read_probation =
      Triple-bind {R = λ s d. P d × (d.host.probation ≡ s)}
        (Triple-look _ (λ d h. (h, refl)) (λ d h. tt)) λ s. Triple-decode s

  Triple-read_document :
      (doc : Option Document) (len : ℕ) → Triple P (read_document doc len) (λ _. P) Top
  unfolding read_document
  Triple-read_document none len = Triple-pure [] (λ d h. h)
  Triple-read_document (some doc) len = Triple-bind {R = λ _. P} (Triple-kept _) λ _. Triple-kept _

  pub Triple-open_journal : Triple P open_journal (λ _. P) Top
  unfolding open_journal
  Triple-open_journal =
      Triple-bind {R = λ _. P} (Triple-look _ (λ d h. h) (λ d h. tt))
        λ x. Triple-read_document x.0 x.1

module _ {H A : Type 0} {P : Disk H → Type 0} {Q : A → Disk H → Type 0} where
  pub Triple-given :
      {m : Action H A} (K : Type 0) → (K → Triple P m Q Top) → Triple (λ d. P d × K) m Q Top
  Triple-given K t = record { at = λ w h. (t h.1).at w h.0 }
