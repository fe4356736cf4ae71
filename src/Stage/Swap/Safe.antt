-- ===== src/Stage/Swap/Safe.antt =====
-- Swap moves `current` to its version or leaves it.
use idunn.Prelude.{Option, Bytes}
use idunn.Txn.Journal.{Document}
use idunn.Layout.Disk.{Pointer, Dir, names}
use idunn.Layout.Effects.Region.{Region, ◌⊑◌, Safe, Safe-lift, Safe-look, Safe-bind}
use idunn.Layout.Pointer.Region.{Safe-set_pointer}
use idunn.Stage.Swap.{swap}

pub Safe-swap :
    {H : Type 0} {p q e : Region}
    → p ⊑ e
    → q ⊑ e
    → (v : Bytes)
    → ((c : Pointer) (f : Bytes → Dir) (j : Option Document) → p c f j → q (names v) f j)
    → Safe {H = H} p (swap v) (λ _. q) e
unfolding swap
Safe-swap {p} bad bad' v g =
    Safe-bind (λ _. p) (Safe-lift _ (λ _ _ c f j h. h) bad)
      λ _.
        Safe-bind (λ _. p) (Safe-look _ (λ d h. h) bad)
          λ found.
            Safe-bind (λ _. p) (Safe-lift _ (λ _ _ c f j h. h) bad)
              λ _. Safe-set_pointer bad bad' v g
