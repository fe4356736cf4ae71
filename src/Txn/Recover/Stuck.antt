-- ===== src/Txn/Recover/Stuck.antt =====
-- A rollback of a swapped transaction that stopped behind its first step, and what later recoveries
-- make of it.
use mathlib.Core.Path.{subst}
use idunn.Prelude.{
  ◌≡◌, refl, sym, ap, ◌∙◌, false, not, Option, some, List, Bytes, Result, ok, err, last?, same,
  refuse_if-false,
}
use idunn.Txn.Journal.{State, swapped, Record, Document, Error}
use idunn.Txn.Invariant.{last_of}
use idunn.Txn.Invariant.Steps.{pointer_at-injective}
use idunn.Txn.Log.Region.{Holds, Safe-open_journal}
use idunn.Txn.Recover.{Migrator, recover, recover_last, recover_from, complete}
use idunn.Layout.Disk.{Disk, Pointer}
use idunn.Layout.Effects.{Action, World}
use idunn.Layout.Effects.Triple.{Post}
use idunn.Layout.Effects.Region.{Region, Over, Safe, Safe-lift, Safe-weaken, Safe-bind, Safe-given}
use idunn.Layout.Pointer.Region.{pointer_at, Targets, Safe-pointer_target}

-- The journal ends with `last`, `current` names the version that `last` came from, and neither has
-- changed from what it was.
abbrev Kept : Record → Pointer → Option Document → Region
Kept last c₀ j₀ c f j =
    (last_of j ≡ some last) × (c ≡ pointer_at last.from_version) × (c ≡ c₀) × (j ≡ j₀)

abbrev Never : Region
Never c f j = ⊥

Safe-never : {H A : Type 0} {q : A → Region} {e : Region} (m : Action H A) → Safe Never m q e
Safe-never m = record { triple = record { at = λ w h. absurd h } }

pub data IsErr {A : Type 0} : Result Error A → Type 0 where
  is_err : (e : Error) → IsErr (err e)

failed :
    {H A : Type 0} (e : Region) (r : Result Error A) (d : Disk H)
    → Post {H = H} (λ _. Over Never) (Over e) r d
    → IsErr r × Over e d
failed e (ok a) d h = absurd h
failed e (err x) d h = (is_err x, h)

elsewhere :
    {c : Pointer} (last : Record) (live : Bytes)
    → same last.from_version last.to_version ≡ false
    → c ≡ pointer_at live
    → c ≡ pointer_at last.from_version
    → not (same live last.to_version) ≡ false
    → ⊥
elsewhere last live apart at_live at_from h =
    let is_from : live ≡ last.from_version =
      pointer_at-injective live last.from_version (sym at_live ∙ at_from) in
    cc (ap (λ v. same v last.to_version) is_from, h, apart)

module _ {H : Type 0} (last : Record) (apart : same last.from_version last.to_version ≡ false)
    (c₀ : Pointer) (j₀ : Option Document) where
  Safe-complete-Kept :
      (records : List Record)
      → Safe {H = H} (Kept last c₀ j₀) (complete records last) (λ _. Never) (Kept last c₀ j₀)
  unfolding complete
  Safe-complete-Kept records =
      Safe-bind (Targets (Kept last c₀ j₀)) (Safe-pointer_target (λ c f j h. h)) λ live.
        Safe-bind (λ _. Never)
          (Safe-lift _
            (λ _ fine c f j h. elsewhere last live apart h.1 h.0.1 (refuse_if-false _ _ fine))
            (λ c f j h. h.0))
          λ _. Safe-never _

  Safe-recover_swapped :
      (m : Option (Migrator H)) (records : List Record) (s : State)
      → s ≡ swapped
      → Safe (Kept last c₀ j₀) (recover_from m records last s) (λ _. Never) (Kept last c₀ j₀)
  unfolding recover_from
  Safe-recover_swapped m records s e =
      subst
        (λ s. Safe (Kept last c₀ j₀) (recover_from m records last s) (λ _. Never) (Kept last c₀ j₀))
        (sym e) (Safe-bind (λ _. Never) (Safe-complete-Kept records) λ _. Safe-never _)

  Safe-recover-Kept :
      (m : Option (Migrator H))
      → last.state ≡ swapped
      → Safe (Kept last c₀ j₀) (recover m) (λ _. Never) (Kept last c₀ j₀)
  unfolding recover recover_last
  Safe-recover-Kept m at_swapped =
      Safe-bind (Holds (Kept last c₀ j₀)) (Safe-open_journal (λ c f j h. h)) λ records.
        Safe-weaken
          (Safe-given (last? records ≡ some last) λ e.
            subst
              (λ o.
                Safe (Kept last c₀ j₀) (recover_last m records o) (λ _. Never) (Kept last c₀ j₀))
              (sym e) (Safe-recover_swapped m records last.state at_swapped))
          (λ c f j h. (h.0, h.1 ∙ h.0.0)) (λ _ c f j h. h) (λ c f j h. h)

-- Where the journal ends with SWAPPED while `current` names the version that the transaction came
-- from, and that is not the version it installs, RecoverResult returns an error, whichever of its
-- calls fail or none, and leaves `current` and the journal as they were: no later start settles the
-- transaction.
pub recover-IsErr :
    {H : Type 0} (m : Option (Migrator H)) (w : World H) (last : Record)
    → last_of w.disk.journal ≡ some last
    → last.state ≡ swapped
    → w.disk.current ≡ pointer_at last.from_version
    → same last.from_version last.to_version ≡ false
    → IsErr (recover m w).0
      × ((recover m w).1.disk.current ≡ w.disk.current)
      × ((recover m w).1.disk.journal ≡ w.disk.journal)
recover-IsErr m w last at_last at_swapped at_from apart =
    let (refused, kept) =
      failed (Kept last w.disk.current w.disk.journal) (recover m w).0 (recover m w).1.disk (
        (Safe-recover-Kept last apart w.disk.current w.disk.journal m at_swapped).triple.at w
          (at_last, at_from, refl, refl)) in
    (refused, kept.2, kept.3)
