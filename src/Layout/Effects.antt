-- ===== src/Layout/Effects.antt =====
-- core/fsx/fsx.go: the effects of one call of the filesystem, and WriteFileAtomic. Before each
-- effect the environment decides how it ends, so that a run under a list of outcomes is a run with
-- failures at chosen calls; a crash leaves the disk of a run whose remaining calls are refused.
pub mod Triple
pub mod Region
pub mod Progress
use idunn.Prelude.{true, false, List, [], ◌∷◌, Result, ok, err}
use idunn.Txn.Journal.{Error, io_failed}
use idunn.Layout.Disk.{Disk, Place, set_scratch}

-- A call takes effect; it fails and nothing changed; it fails after it took effect, or, for a
-- removal of a tree, after part of it.
pub data Outcome : Type 0 where
  done refused unsure : Outcome

pub record World (H : Type 0) : Type 0 where
  pub disk : Disk H
  pub outcomes : List Outcome

-- A call that may fail and leaves a new disk, whichever way it ends.
abbrev pub Action : Type 0 → Type 0 → Type 0
Action H A = World H → Result Error A × World H

abbrev next_outcome : List Outcome → Outcome
next_outcome [] = done
next_outcome (o ∷ os) = o

abbrev other_outcomes : List Outcome → List Outcome
other_outcomes [] = []
other_outcomes (o ∷ os) = os

ok_or : {A : Type 0} → A → Result Error A → A
ok_or x (ok a) = a
ok_or x (err e) = x

module _ {H A : Type 0} where
  unfoldable pub pure : A → Action H A
  pure a w = (ok a, w)

  unfoldable pub raise : Error → Action H A
  raise e w = (err e, w)

  unfoldable pub lift : Result Error A → Action H A
  lift r w = (r, w)

  look_as : Outcome → (Disk H → A) → Disk H → Result Error A
  look_as done f d = ok (f d)
  look_as refused f d = err io_failed
  look_as unsure f d = err io_failed

  -- A call that only reads.
  unfoldable pub look : (Disk H → A) → Action H A
  unfolding look_as
  look f w = (
    look_as (next_outcome w.outcomes) f w.disk,
    record w { outcomes = other_outcomes w.outcomes },
  )

  -- A call that only reads, where the code goes on with `x` if it fails.
  unfoldable pub look_or : A → (Disk H → A) → Action H A
  unfolding ok_or look
  look_or x f w = let (r, w') = look f w in (ok (ok_or x r), w')

  -- `_ = f(…)`: the error is dropped.
  unfoldable pub attempt : Action H A → Action H (Unit {0})
  attempt m w = (ok tt, (m w).1)

module _ {H : Type 0} where
  effect_as :
      Outcome → (Disk H → Disk H) → (Disk H → Disk H) → Disk H → Result Error (Unit {0}) × Disk H
  effect_as done f part d = (ok tt, f d)
  effect_as refused f part d = (err io_failed, d)
  effect_as unsure f part d = (err io_failed, part d)

  -- A call that changes the disk by `f`, or by `part` if it fails too late.
  unfoldable pub effect : (Disk H → Disk H) → (Disk H → Disk H) → Action H (Unit {0})
  unfolding effect_as
  effect f part w =
      let (r, d) = effect_as (next_outcome w.outcomes) f part w.disk in
      (r, record { disk = d; outcomes = other_outcomes w.outcomes })

module _ {H A B : Type 0} where
  unfoldable pub continue : Result Error A → (A → Action H B) → Action H B
  continue (ok a) f w = f a w
  continue (err e) f w = (err e, w)

  infixl 5 ◌>>=◌ ◌>>◌
  unfoldable pub ◌>>=◌ : Action H A → (A → Action H B) → Action H B
  unfolding continue
  ◌>>=◌ m f w = let (r, w') = m w in continue r f w'

  abbrev pub ◌>>◌ : Action H A → Action H B → Action H B
  m >> n = m >>= λ _. n

module _ {H : Type 0} where
  handle : Result Error (Unit {0}) → Action H (Unit {0}) → Action H (Unit {0})
  handle (ok u) cleanup w = (ok tt, w)
  handle (err e) cleanup w = (err e, (cleanup w).1)

  -- `if err := m; err != nil { _ = cleanup; return err }`
  unfoldable pub on_error : Action H (Unit {0}) → Action H (Unit {0}) → Action H (Unit {0})
  unfolding handle
  on_error m cleanup w = let (r, w') = m w in handle r cleanup w'

  -- An effect that happens in full, or not at all as far as a reader of the disk can tell.
  unfoldable pub io : (Disk H → Disk H) → Action H (Unit {0})
  io f = effect f f

  -- A call with no effect that the model shows, such as a write into a scratch file or a sync.
  unfoldable pub quiet : Action H (Unit {0})
  quiet = look (λ d. tt)

  -- WriteFileAtomic: create the scratch file, write, sync and close it, rename it over the
  -- destination, and sync the directory. `f` is what the new destination means.
  unfoldable pub write_file_atomic : Place → (Disk H → Disk H) → Action H (Unit {0})
  write_file_atomic p f = do
    io (set_scratch p true)
    on_error quiet (io (set_scratch p false))
    on_error quiet (io (set_scratch p false))
    on_error quiet (io (set_scratch p false))
    on_error (io (λ d. set_scratch p false (f d))) (io (set_scratch p false))
    quiet
