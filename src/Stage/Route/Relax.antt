-- ===== src/Stage/Route/Relax.antt =====
-- The body of the inner loop of cheapest: what a node costs after it, while no sum overflows.
use idunn.Prelude.{
  arith, ℕ, ◌+◌, ◌*◌, ◌≤◌, ◌<◌, ◌≡◌, refl, sym, ap, ◌∙◌, Bool, true, false, Option, none, some,
  List, [], ◌∷◌, suc, if◌then◌else◌,
}
use mathlib.Core.Path.{subst}
use idunn.Prelude.Integers.{ℤ, pos, negsuc, exceeds}
use idunn.Stage.Route.{
  Node, start, unreached, reached, max_int64, target_of, cost_of, add_int64, wrapped, relax,
}

abbrev pub Within : ℤ → ℕ → Type 0
Within (pos c) k = c ≤ k
Within (negsuc c) k = ⊥

abbrev pub AtMost : Node → ℕ → Type 0
AtMost (start t) k = Unit {0}
AtMost (unreached t) k = ⊥
AtMost (reached t c n) k = Within c k

-- A cost that leaves room for so many patches more.
abbrev Fits : ℕ → ℕ → ℤ → Type 0
Fits top m (pos c) = c + m * top < max_int64
Fits top m (negsuc c) = ⊥

abbrev pub Small : ℕ → ℕ → Node → Type 0
Small top m (start t) = m * top < max_int64
Small top m (unreached t) = Unit {0}
Small top m (reached t c n) = Fits top m c

suc_times : (m k : ℕ) → suc m * k ≡ k + m * k
suc_times m k = ground arith

pub add_middle : (k s c : ℕ) → (k + s) + c ≡ k + (s + c)
add_middle k s c = omega arith

pub add_zero : (k : ℕ) → k ≡ k + 0
add_zero k = omega arith

pub start_add : (k : ℕ) → 0 + k ≡ k
start_add k = omega arith

pub suc_zero : (n : ℕ) → suc n ≡ 0 → ⊥
suc_zero n e = omega arith

pub suc_same : (m n : ℕ) → suc m ≡ suc n → m ≡ n
suc_same m n e = omega arith

add-fits : (a s : ℕ) → a + s < max_int64 → add_int64 (pos a) s ≡ pos (a + s)
unfolding add_int64 wrapped
add-fits a s h = ground arith

module _ (top : ℕ) where
  Fits-less : (m : ℕ) (c : ℤ) → Fits top (suc m) c → Fits top m c
  Fits-less m (pos c) h = let e : suc m * top ≡ top + m * top = suc_times m top in omega arith
  Fits-less m (negsuc c) h = h

  Small-less : (m : ℕ) (n : Node) → Small top (suc m) n → Small top m n
  Small-less m (start t) h = let e : suc m * top ≡ top + m * top = suc_times m top in omega arith
  Small-less m (unreached t) h = tt
  Small-less m (reached t c n) h = Fits-less m c h

module _ (h : Node) (a s : ℕ) where
  -- The two ends of the test in the inner loop.
  pick-AtMost :
      (k : ℕ) (n : Node) (b : Bool) (top m : ℕ)
      → Small top m n
      → exceeds (cost_of n) (pos (a + s)) ≡ b
      → a + s < max_int64
      → a ≤ k
      → AtMost (if b then reached (target_of n) (pos (a + s)) h else n) (k + s)
  unfolding exceeds
  pick-AtMost k n true top m f e l r = omega arith
  pick-AtMost k (start t) false top m f e l r = tt
  pick-AtMost k (unreached t) false top m f e l r = ground arith
  pick-AtMost k (reached t (pos c) n) false top m f e l r = ground arith
  pick-AtMost k (reached t (negsuc c) n) false top m f e l r = elim f [ ]

  keep-AtMost :
      (k : ℕ) (n : Node) (b : Bool)
      → exceeds (cost_of n) (pos (a + s)) ≡ b
      → AtMost n k
      → AtMost (if b then reached (target_of n) (pos (a + s)) h else n) k
  unfolding exceeds
  keep-AtMost k n false e l = l
  keep-AtMost k (start t) true e l = ground arith
  keep-AtMost k (unreached t) true e l = elim l [ ]
  keep-AtMost k (reached t (pos c) n) true e l = ground arith
  keep-AtMost k (reached t (negsuc c) n) true e l = elim l [ ]

  pick-Small :
      (n : Node) (b : Bool) (top m : ℕ)
      → Small top m n
      → Fits top m (pos (a + s))
      → Small top m (if b then reached (target_of n) (pos (a + s)) h else n)
  pick-Small n true top m f g = g
  pick-Small n false top m f g = f

  pick-target :
      (n : Node) (b : Bool)
      → target_of (if b then reached (target_of n) (pos (a + s)) h else n) ≡ target_of n
  pick-target n true = refl
  pick-target n false = refl

abbrev pub Smalls : ℕ → ℕ → List Node → Type 0
Smalls top m [] = Unit {0}
Smalls top m (n ∷ ns) = Small top m n × Smalls top m ns

pub Smalls-less : (top m : ℕ) (ns : List Node) → Smalls top (suc m) ns → Smalls top m ns
Smalls-less top m [] h = tt
Smalls-less top m (n ∷ ns) h = (Small-less top m n h.0, Smalls-less top m ns h.1)

abbrev pub Bounded : ℕ → Option ℕ → Type 0
Bounded top o = (s : ℕ) → o ≡ some s → s ≤ top

-- A node that costs `a`, with room for the patches to the nodes after it.
module _ (top : ℕ) (h : Node) (a m : ℕ) (cost : cost_of h ≡ pos a)
    (fits : a + suc m * top < max_int64) where
  room : (s : ℕ) → s ≤ top → (a + s) + m * top < max_int64
  room s l = let e : suc m * top ≡ top + m * top = suc_times m top in omega arith

  pub relax-eq :
      (s : ℕ) (n : Node)
      → s ≤ top
      → relax (some s) h n
        ≡ (if exceeds (cost_of n) (pos (a + s)) then reached (target_of n) (pos (a + s)) h else n)
  unfolding relax
  relax-eq s n l =
      let r : (a + s) + m * top < max_int64 = room s l in
      ap (λ z. if exceeds (cost_of n) z then reached (target_of n) z h else n)
        (ap (λ z. add_int64 z s) cost ∙ add-fits a s (omega arith))

  pub relax-new :
      (k s : ℕ) (n : Node) → s ≤ top → Small top m n → a ≤ k → AtMost (relax (some s) h n) (k + s)
  relax-new k s n l f r =
      let x : (a + s) + m * top < max_int64 = room s l in
      subst (λ z. AtMost z (k + s)) (sym (relax-eq s n l))
        (pick-AtMost h a s k n _ top m f refl (omega arith) r)

  pub relax-kept :
      (k : ℕ) (n : Node) (o : Option ℕ) → Bounded top o → AtMost n k → AtMost (relax o h n) k
  unfolding relax
  relax-kept k n none b l = l
  relax-kept k n (some s) b l =
      subst (λ z. AtMost z k) (sym (relax-eq s n (b s refl))) (keep-AtMost h a s k n _ refl l)

  pub relax-Small :
      (n : Node) (o : Option ℕ) → Bounded top o → Small top m n → Small top m (relax o h n)
  unfolding relax
  relax-Small n none b f = f
  relax-Small n (some s) b f =
      subst (Small top m) (sym (relax-eq s n (b s refl)))
        (pick-Small h a s n _ top m f (room s (b s refl)))

  pub relax-target :
      (n : Node) (o : Option ℕ) → Bounded top o → target_of (relax o h n) ≡ target_of n
  unfolding relax
  relax-target n none b = refl
  relax-target n (some s) b = ap target_of (relax-eq s n (b s refl)) ∙ pick-target h a s n _
