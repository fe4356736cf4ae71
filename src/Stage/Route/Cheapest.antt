-- ===== src/Stage/Route/Cheapest.antt =====
-- No walk of patches over a lineage costs less than the one that cheapest finds.
use idunn.Prelude.{
  arith, ℕ, ◌+◌, ◌*◌, ◌≤◌, ◌<◌, ◌≡◌, refl, sym, ap, ◌∙◌, Option, none, some, List, [], ◌∷◌, Bytes,
  length, map, zero, suc,
}
use mathlib.Core.Path.{subst}
use idunn.Prelude.Integers.{ℤ, pos, negsuc}
use idunn.Stage.Route.{
  Lengths, Hop, Node, start, unreached, reached, max_int64, target_of, cost_of, edge, relax,
  relax_all, visit, settle, outcome, cheapest,
}
use idunn.Stage.Route.Relax.{
  Within, AtMost, Small, add_middle, add_zero, start_add, suc_zero, suc_same, Smalls, Smalls-less,
  Bounded, relax-new, relax-kept, relax-Small, relax-target,
}

-- A walk from a target to the last of the ones after it, and what its patches cost together.
pub data Walk (lengths : Lengths) : Bytes → List Bytes → ℕ → Type 0 where
  arrived : {a : Bytes} → Walk lengths a [] 0
  skip :
      {a : Bytes} (t u : Bytes) {ts : List Bytes} {c : ℕ}
      → Walk lengths a (u ∷ ts) c
      → Walk lengths a (t ∷ u ∷ ts) c
  hop :
      {a : Bytes} (t : Bytes) {ts : List Bytes} {s c : ℕ}
      → edge lengths a t ≡ some s
      → Walk lengths t ts c
      → Walk lengths a (t ∷ ts) (s + c)

-- A node of the list from which a walk to the last one costs so much, with what it costs itself.
data Best (lengths : Lengths) : List Node → ℕ → Type 0 where
  here :
      {n : Node} {ns : List Node} (k c : ℕ)
      → AtMost n k
      → Walk lengths (target_of n) (map target_of ns) c
      → Best lengths (n ∷ ns) (k + c)
  later : {ns : List Node} {c : ℕ} (n : Node) → Best lengths ns c → Best lengths (n ∷ ns) c

module _ (lengths : Lengths) (top : ℕ)
    (bounded : (t u : Bytes) → Bounded top (edge lengths t u)) where
  module _ (h : Node) (a m : ℕ) (cost : cost_of h ≡ pos a)
      (fits : a + suc m * top < max_int64) where
    pub all-targets : (ns : List Node) → map target_of (relax_all lengths h ns) ≡ map target_of ns
    unfolding relax_all
    all-targets [] = refl
    all-targets (n ∷ ns) =
        ap (λ z. z ∷ map target_of (relax_all lengths h ns))
          (relax-target top h a m cost fits n _ (bounded _ _))
        ∙ ap (λ z. target_of n ∷ z) (all-targets ns)

    pub all-Smalls : (ns : List Node) → Smalls top m ns → Smalls top m (relax_all lengths h ns)
    unfolding relax_all
    all-Smalls [] s = tt
    all-Smalls (n ∷ ns) s =
        (relax-Small top h a m cost fits n _ (bounded _ _) s.0, all-Smalls ns s.1)

    pub all-length : (ns : List Node) → length (relax_all lengths h ns) ≡ length ns
    unfolding relax_all
    all-length [] = refl
    all-length (n ∷ ns) = ap suc (all-length ns)

    Best-kept :
        {ns : List Node} {c : ℕ} → Best lengths ns c → Best lengths (relax_all lengths h ns) c
    unfolding relax_all
    Best-kept (here {n} {ns} k c l w) =
        here k c (relax-kept top h a m cost fits k n _ (bounded _ _) l) (
          subst (λ t. Walk lengths t (map target_of (relax_all lengths h ns)) c)
            (sym (relax-target top h a m cost fits n _ (bounded _ _)))
            (subst (λ ts. Walk lengths (target_of n) ts c) (sym (all-targets ns)) w))
    Best-kept (later n b) = later _ (Best-kept b)

    -- The first hop of a walk is an edge that the visit of `h` relaxes.
    Best-hop :
        (k s c : ℕ) (n : Node) (ns : List Node)
        → a ≤ k
        → Small top m n
        → edge lengths (target_of h) (target_of n) ≡ some s
        → Walk lengths (target_of n) (map target_of ns) c
        → Best lengths (relax_all lengths h (n ∷ ns)) (k + (s + c))
    unfolding relax_all
    Best-hop k s c n ns l f e w =
        subst (Best lengths (relax_all lengths h (n ∷ ns))) (add_middle k s c) (
          here (k + s) c
            (subst (λ o. AtMost (relax o h n) (k + s)) (sym e)
              (relax-new top h a m cost fits k s n (bounded _ _ s e) f l))
            (subst (λ t. Walk lengths t (map target_of (relax_all lengths h ns)) c)
              (sym (relax-target top h a m cost fits n _ (bounded _ _)))
              (subst (λ ts. Walk lengths (target_of n) ts c) (sym (all-targets ns)) w)))

    Best-last :
        (k c : ℕ) (n : Node)
        → a ≤ k
        → Small top m n
        → Walk lengths (target_of h) (target_of n ∷ []) c
        → Best lengths (relax_all lengths h (n ∷ [])) (k + c)
    Best-last k c n l f (hop t {s = s} {c = c'} e w) = Best-hop k s c' n [] l f e w

    Best-either :
        (k c : ℕ) (n n' : Node) (ns : List Node)
        → a ≤ k
        → Small top m n
        → (Walk lengths (target_of h) (map target_of (n' ∷ ns)) c
            → Best lengths (relax_all lengths h (n' ∷ ns)) (k + c))
        → Walk lengths (target_of h) (map target_of (n ∷ n' ∷ ns)) c
        → Best lengths (relax_all lengths h (n ∷ n' ∷ ns)) (k + c)
    unfolding relax_all
    Best-either k c n n' ns l f next (skip t u w) = later _ (next w)
    Best-either k c n n' ns l f next (hop t {s = s} {c = c'} e w) =
        Best-hop k s c' n (n' ∷ ns) l f e w

    Best-new :
        (k c : ℕ) (n : Node) (ns : List Node)
        → a ≤ k
        → Smalls top m (n ∷ ns)
        → Walk lengths (target_of h) (map target_of (n ∷ ns)) c
        → Best lengths (relax_all lengths h (n ∷ ns)) (k + c)
    Best-new k c n [] l f w = Best-last k c n l f.0 w
    Best-new k c n (n' ∷ ns) l f w =
        Best-either k c n n' ns l f.0 (λ x. Best-new k c n' ns l f.1 x) w

    Best-visited :
        {c : ℕ} (n : Node) (ns : List Node)
        → ((k : ℕ) → AtMost h k → a ≤ k)
        → Smalls top m (n ∷ ns)
        → Best lengths (h ∷ n ∷ ns) c
        → Best lengths (relax_all lengths h (n ∷ ns)) c
    Best-visited n ns l f (here k c x w) = Best-new k c n ns (l k x) f w
    Best-visited n ns l f (later _ b) = Best-kept b

    -- One turn of the outer loop, given that the turns after it do.
    visited-AtMost :
        {c : ℕ} (n : Node) (ns : List Node)
        → ((n : Node) (ns : List Node)
            → length ns ≡ m
            → Small top m n
            → Smalls top m ns
            → Best lengths (n ∷ ns) c
            → AtMost (settle lengths m n ns) c)
        → ((k : ℕ) → AtMost h k → a ≤ k)
        → length ns ≡ m
        → Smalls top m (n ∷ ns)
        → Best lengths (h ∷ n ∷ ns) c
        → AtMost
            (settle lengths m
              (relax (edge lengths (target_of h) (target_of n)) h n)
              (relax_all lengths h ns))
            c
    unfolding relax_all
    visited-AtMost n ns next l e f b =
        let g : Smalls top m (relax_all lengths h (n ∷ ns)) = all-Smalls (n ∷ ns) f in
        next _ _ (all-length ns ∙ e) g.0 g.1 (Best-visited n ns l f b)

  abbrev pub Rest : ℕ → List Node → Type 0
  Rest zero ns = Unit {0}
  Rest (suc m) ns = Smalls top m ns

  pub Rest-Smalls : (m : ℕ) (ns : List Node) → Smalls top m ns → Rest m ns
  Rest-Smalls zero ns f = tt
  Rest-Smalls (suc m) ns f = Smalls-less top m ns f

  settle-AtMost :
      {c : ℕ} (left : ℕ) (h : Node) (ns : List Node)
      → length ns ≡ left
      → Small top left h
      → Rest left ns
      → Best lengths (h ∷ ns) c
      → AtMost (settle lengths left h ns) c
  unfolding settle visit relax_all
  settle-AtMost zero h [] e f g (here k c l arrived) = subst (AtMost h) (add_zero k) l
  settle-AtMost zero h [] e f g (later _ b) = elim b [ ]
  settle-AtMost (suc m) (unreached t) (n ∷ ns) e f g (here k c l _) = elim l [ ]
  settle-AtMost (suc m) (reached t (negsuc _) from) (n ∷ ns) e f g b = elim f [ ]
  settle-AtMost zero h (n ∷ ns) e f g b = elim (suc_zero (length ns) e) [ ]
  settle-AtMost (suc m) h [] e f g b = elim (suc_zero m (sym e)) [ ]
  settle-AtMost (suc m) (unreached t) (n ∷ ns) e f g (later _ b) =
      settle-AtMost m n ns (suc_same _ _ e) g.0 (Rest-Smalls m ns g.1) b
  settle-AtMost (suc m) (start t) (n ∷ ns) e f g b =
      let f' : 0 + suc m * top < max_int64 = omega arith in
      visited-AtMost (start t) 0 m refl f' n ns
        (λ n' ns' e' s' g' b'. settle-AtMost m n' ns' e' s' (Rest-Smalls m ns' g') b')
        (λ k l. omega arith) (suc_same _ _ e) g b
  settle-AtMost (suc m) (reached t (pos c) from) (n ∷ ns) e f g b =
      visited-AtMost (reached t (pos c) from) c m refl f n ns
        (λ n' ns' e' s' g' b'. settle-AtMost m n' ns' e' s' (Rest-Smalls m ns' g') b') (λ k l. l)
        (suc_same _ _ e) g b

-- A walk that was found costs no more than `k`.
abbrev pub FoundWithin : Option (List Hop × ℤ) → ℕ → Type 0
FoundWithin none k = ⊥
FoundWithin (some (hops, c)) k = Within c k

outcome-FoundWithin : (n : Node) (k : ℕ) → AtMost n k → FoundWithin (outcome n) k
unfolding outcome
outcome-FoundWithin (start t) k l = omega arith
outcome-FoundWithin (unreached t) k l = elim l [ ]
outcome-FoundWithin (reached t c n) k l = l

pub unreached-targets : (ts : List Bytes) → map target_of (map unreached ts) ≡ ts
unreached-targets [] = refl
unreached-targets (t ∷ ts) = ap (λ z. t ∷ z) (unreached-targets ts)

pub unreached-length : (ts : List Bytes) → length (map unreached ts) ≡ length ts
unreached-length [] = refl
unreached-length (t ∷ ts) = ap suc (unreached-length ts)

pub unreached-Smalls : (top m : ℕ) (ts : List Bytes) → Smalls top m (map unreached ts)
unreached-Smalls top m [] = tt
unreached-Smalls top m (t ∷ ts) = (tt, unreached-Smalls top m ts)

-- cheapest finds a walk wherever the patches that the repository publishes allow one, and none
-- costs less than the one it finds, whose cost is not negative: where the lengths of the patches
-- are at most `top`, and as many of them as the lineage has steps do not overflow an int64.
pub cheapest-least :
    (lengths : Lengths) (top : ℕ) (first : Bytes) (rest : List Bytes) (c : ℕ)
    → ((t u : Bytes) (s : ℕ) → edge lengths t u ≡ some s → s ≤ top)
    → length rest * top < max_int64
    → Walk lengths first rest c
    → FoundWithin (cheapest lengths first rest) c
unfolding cheapest
cheapest-least lengths top first rest c bounded fits w = outcome-FoundWithin _ c (
    settle-AtMost lengths top bounded (length rest) (start first) (map unreached rest)
      (unreached-length rest) fits
      (Rest-Smalls lengths top bounded (length rest) _ (unreached-Smalls top _ rest))
      (subst (Best lengths (start first ∷ map unreached rest)) (start_add c)
        (here 0 c tt (subst (λ ts. Walk lengths first ts c) (sym (unreached-targets rest)) w))))
