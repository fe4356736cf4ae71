-- ===== src/Stage/Route/Found.antt =====
-- The patches that cheapest gives, one after the other, with what they cost together.
use idunn.Prelude.{
  arith, ℕ, ◌+◌, ◌*◌, ◌≤◌, ◌<◌, ◌≡◌, refl, sym, ap, ◌∙◌, Bool, true, false, Option, none, some,
  List, [], ◌∷◌, Bytes, length, map, zero, suc, if◌then◌else◌,
}
use mathlib.Core.Path.{subst}
use idunn.Prelude.Integers.{ℤ, pos, negsuc}
use idunn.Release.Paths.{patch_path}
use idunn.Stage.Route.{
  Lengths, Hop, Node, start, unreached, reached, max_int64, target_of, cost_of, edge, length_of,
  patch_of, relax, relax_all, visit, settle, back, outcome, cheapest,
}
use idunn.Stage.Route.Relax.{Bounded, Small, Smalls, suc_zero, suc_same, relax-eq}
use idunn.Stage.Route.Cheapest.{
  all-targets, all-Smalls, all-length, Rest, Rest-Smalls, unreached-targets, unreached-length,
  unreached-Smalls,
}

-- Each patch leads from the payload before it, and its length is positive.
pub data Leads (lengths : Lengths) : Bytes → List Hop → Bytes → ℕ → Type 0 where
  there : {a : Bytes} → Leads lengths a [] a 0
  patched :
      {a z : Bytes} (h : Hop) {hs : List Hop} {s c : ℕ}
      → patch_path a h.to ≡ some h.patch
      → edge lengths a h.to ≡ some s
      → Leads lengths h.to hs z c
      → Leads lengths a (h ∷ hs) z (s + c)

abbrev pub last_of : Bytes → List Bytes → Bytes
last_of t [] = t
last_of t (u ∷ ts) = last_of u ts

abbrev Costs : Node → ℕ → Type 0
Costs (start t) a = a ≡ 0
Costs (unreached t) a = ⊥
Costs (reached t c n) a = c ≡ pos a

record Linked (lengths : Lengths) (t : Bytes) (c : ℤ) (n : Node) : Type 0 where
  before : ℕ
  size : ℕ
  costs : Costs n before
  published : edge lengths (target_of n) t ≡ some size
  sum : c ≡ pos (before + size)

abbrev Chain : Lengths → Bytes → Node → Type 0
Chain lengths first (start t) = t ≡ first
Chain lengths first (unreached t) = Unit {0}
Chain lengths first (reached t c n) = Chain lengths first n × Linked lengths t c n

abbrev Chains : Lengths → Bytes → List Node → Type 0
Chains lengths first [] = Unit {0}
Chains lengths first (n ∷ ns) = Chain lengths first n × Chains lengths first ns

patch_of-some :
    (lengths : Lengths) (o : Option Bytes) (s : ℕ)
    → length_of lengths o ≡ some s
    → o ≡ some (patch_of o)
unfolding length_of patch_of
patch_of-some lengths none s e = cc
patch_of-some lengths (some p) s e = refl

negative : (k n : ℕ) → negsuc k ≡ pos n → ⊥
negative k n e = cc

pos_same : (a b : ℕ) → pos a ≡ pos b → a ≡ b
pos_same a b e = cc

module _ (lengths : Lengths) (first z : Bytes) where
  back-Leads :
      (n : Node) (hops : List Hop) (a c : ℕ)
      → Chain lengths first n
      → Costs n a
      → Leads lengths (target_of n) hops z c
      → Leads lengths first (back n hops) z (a + c)
  unfolding back edge
  back-Leads (start t) hops a c h e l =
      subst (λ t. Leads lengths t hops z (a + c)) h (subst (Leads lengths t hops z) (omega arith) l)
  back-Leads (unreached _) hops a c h e l = elim e [ ]
  back-Leads (reached t k n) hops a c h e l =
      let q : Linked lengths t k n = h.1 in
      let same_sum : a ≡ q.before + q.size = pos_same _ _ (sym e ∙ q.sum) in
      subst (Leads lengths first (back (reached t k n) hops) z) (omega arith) (
        back-Leads n _ q.before (q.size + c) h.0 q.costs
          (patched _ (patch_of-some lengths _ _ q.published) q.published l))

module _ (lengths : Lengths) (top : ℕ) (bounded : (t u : Bytes) → Bounded top (edge lengths t u))
    (first : Bytes) where
  module _ (h : Node) (a m : ℕ) (cost : cost_of h ≡ pos a) (fits : a + suc m * top < max_int64)
      (paid : Costs h a) (chain : Chain lengths first h) where
    pick-Chain :
        (n : Node) (s : ℕ) (b : Bool)
        → edge lengths (target_of h) (target_of n) ≡ some s
        → Chain lengths first n
        → Chain lengths first (if b then reached (target_of n) (pos (a + s)) h else n)
    pick-Chain n s true e c =
        (chain, record { before = a; size = s; costs = paid; published = e; sum = refl })
    pick-Chain n s false e c = c

    relax-Chain :
        (n : Node) (o : Option ℕ)
        → edge lengths (target_of h) (target_of n) ≡ o
        → Chain lengths first n
        → Chain lengths first (relax o h n)
    unfolding relax
    relax-Chain n none e c = c
    relax-Chain n (some s) e c =
        subst (Chain lengths first) (sym (relax-eq top h a m cost fits s n (bounded _ _ s e)))
          (pick-Chain n s _ e c)

    all-Chains :
        (ns : List Node) → Chains lengths first ns → Chains lengths first (relax_all lengths h ns)
    unfolding relax_all
    all-Chains [] c = tt
    all-Chains (n ∷ ns) c = (relax-Chain n _ refl c.0, all-Chains ns c.1)

  -- The node that the outer loop ends at, which is the last one.
  record IsEnd (z : Bytes) (n : Node) : Type 0 where
    chain : Chain lengths first n
    target : target_of n ≡ z

  settle-IsEnd :
      {z : Bytes} (left : ℕ) (h : Node) (ns : List Node)
      → length ns ≡ left
      → Small top left h
      → Rest lengths top bounded left ns
      → Chain lengths first h
      → Chains lengths first ns
      → last_of (target_of h) (map target_of ns) ≡ z
      → IsEnd z (settle lengths left h ns)
  unfolding settle visit relax_all
  settle-IsEnd zero h [] e f g c cs l = record { chain = c; target = l }
  settle-IsEnd zero h (n ∷ ns) e f g c cs l = elim (suc_zero (length ns) e) [ ]
  settle-IsEnd (suc m) h [] e f g c cs l = elim (suc_zero m (sym e)) [ ]
  settle-IsEnd (suc m) (unreached t) (n ∷ ns) e f g c cs l =
      settle-IsEnd m n ns (suc_same _ _ e) g.0 (Rest-Smalls lengths top bounded m ns g.1) cs.0 cs.1
        l
  settle-IsEnd (suc m) (start t) (n ∷ ns) e f g c cs l =
      let f' : 0 + suc m * top < max_int64 = omega arith in
      let g' : Smalls top m (relax_all lengths (start t) (n ∷ ns)) =
        all-Smalls lengths top bounded (start t) 0 m refl f' (n ∷ ns) g in
      let c' : Chains lengths first (relax_all lengths (start t) (n ∷ ns)) =
        all-Chains (start t) 0 m refl f' refl c (n ∷ ns) cs in
      settle-IsEnd m _ _ (all-length lengths top bounded (start t) 0 m refl f' ns ∙ suc_same _ _ e)
        g'.0 (Rest-Smalls lengths top bounded m _ g'.1) c'.0 c'.1
        (ap (last_of t) (all-targets lengths top bounded (start t) 0 m refl f' (n ∷ ns)) ∙ l)
  settle-IsEnd (suc m) (reached t (negsuc _) from) (n ∷ ns) e f g c cs l = elim f [ ]
  settle-IsEnd (suc m) (reached t (pos k) from) (n ∷ ns) e f g c cs l =
      let h : Node = reached t (pos k) from in
      let g' : Smalls top m (relax_all lengths h (n ∷ ns)) =
        all-Smalls lengths top bounded h k m refl f (n ∷ ns) g in
      let c' : Chains lengths first (relax_all lengths h (n ∷ ns)) =
        all-Chains h k m refl f refl c (n ∷ ns) cs in
      settle-IsEnd m _ _ (all-length lengths top bounded h k m refl f ns ∙ suc_same _ _ e) g'.0
        (Rest-Smalls lengths top bounded m _ g'.1) c'.0 c'.1
        (ap (last_of t) (all-targets lengths top bounded h k m refl f (n ∷ ns)) ∙ l)

-- The hops of a walk that was found lead from the first target to the last for its cost.
abbrev pub IsRoute : Lengths → Bytes → Bytes → Option (List Hop × ℤ) → Type 0
IsRoute lengths first z none = Unit {0}
IsRoute lengths first z (some (hops, pos c)) = Leads lengths first hops z c
IsRoute lengths first z (some (hops, negsuc c)) = ⊥

outcome-IsRoute :
    (lengths : Lengths) (first z : Bytes) (n : Node)
    → Chain lengths first n
    → target_of n ≡ z
    → IsRoute lengths first z (outcome n)
unfolding outcome back
outcome-IsRoute lengths first z (start t) c e =
    subst (λ x. Leads lengths first [] x 0) (sym c ∙ e) there
outcome-IsRoute lengths first z (unreached t) c e = tt
outcome-IsRoute lengths first z (reached t (pos k) n) c e =
    subst (Leads lengths first (back (reached t (pos k) n) []) z) (omega arith) (
      back-Leads lengths first z (reached t (pos k) n) [] k 0 c refl
        (subst (λ x. Leads lengths t [] x 0) e there))
outcome-IsRoute lengths first z (reached t (negsuc k) n) c e = elim (negative k _ c.1.sum) [ ]

unreached-Chains :
    (lengths : Lengths) (first : Bytes) (ts : List Bytes) → Chains lengths first (map unreached ts)
unreached-Chains lengths first [] = tt
unreached-Chains lengths first (t ∷ ts) = (tt, unreached-Chains lengths first ts)

-- The hops that cheapest gives are published patches, each from the payload before it, that lead
-- from the first target of the lineage to its last one, and their lengths add up to the cost that
-- it gives: where the lengths of the patches are at most `top`, and as many of them as the lineage
-- has steps do not overflow an int64.
pub cheapest-IsRoute :
    (lengths : Lengths) (top : ℕ) (first : Bytes) (rest : List Bytes)
    → ((t u : Bytes) (s : ℕ) → edge lengths t u ≡ some s → s ≤ top)
    → length rest * top < max_int64
    → IsRoute lengths first (last_of first rest) (cheapest lengths first rest)
unfolding cheapest
cheapest-IsRoute lengths top first rest bounded fits =
    let end : IsEnd lengths top bounded first (last_of first rest)
        (settle lengths (length rest) (start first) (map unreached rest)) =
      settle-IsEnd lengths top bounded first (length rest) (start first) (map unreached rest)
        (unreached-length rest) fits
        (Rest-Smalls lengths top bounded (length rest) _ (unreached-Smalls top _ rest)) refl
        (unreached-Chains lengths first rest) (ap (last_of first) (unreached-targets rest)) in
    outcome-IsRoute lengths first (last_of first rest) _ end.chain end.target
