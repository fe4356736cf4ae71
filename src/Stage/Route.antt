-- ===== src/Stage/Route.antt =====
-- core/stage/route.go: collapse and cheapest. The arrays of costs and of earlier nodes are one list
-- of nodes, each with its target, its cost and the node itself that `from` gives the index of.
pub mod Relax
pub mod Cheapest
pub mod Found
mod Tests
use idunn.Prelude.{
  ℕ, ◌+◌, ◌-◌, Bool, true, false, Option, none, some, List, [], ◌∷◌, Bytes, same, ltb, length, map,
  zero, suc, if◌then◌else◌,
}
use idunn.Prelude.Integers.{ℤ, pos, negsuc, exceeds}
use idunn.Release.Paths.{patch_path}

pub record Hop : Type 0 where
  pub patch : Bytes
  pub to : Bytes

-- TargetLength of the trust client: an int64, or an error.
abbrev pub Lengths : Type 0
Lengths = Bytes → Option ℤ

-- `start` is the node of index 0; the cost of `unreached` is math.MaxInt64 and its `from` -1.
pub data Node : Type 0 where
  start : Bytes → Node
  unreached : Bytes → Node
  reached : Bytes → ℤ → Node → Node

abbrev pub max_int64 : ℕ
max_int64 = 9223372036854775807

abbrev pub target_of : Node → Bytes
target_of (start t) = t
target_of (unreached t) = t
target_of (reached t c n) = t

abbrev pub cost_of : Node → ℤ
cost_of (start t) = pos 0
cost_of (unreached t) = pos max_int64
cost_of (reached t c n) = c

-- The sum of an int64 and a positive one, which wraps around.
unfoldable pub wrapped : ℕ → ℤ
wrapped t = if ltb max_int64 t then negsuc (18446744073709551615 - t) else pos t

unfoldable pub add_int64 : ℤ → ℕ → ℤ
unfolding wrapped
add_int64 (pos a) s = wrapped (a + s)
add_int64 (negsuc a) s = if ltb a s then pos (s - (a + 1)) else negsuc (a - s)

-- The length of the patch between two payloads, where there is one and its length is positive.
unfoldable pub positive : Option ℤ → Option ℕ
positive none = none
positive (some (pos n)) = if ltb 0 n then some n else none
positive (some (negsuc n)) = none

unfoldable pub length_of : Lengths → Option Bytes → Option ℕ
unfolding positive
length_of lengths none = none
length_of lengths (some p) = positive (lengths p)

unfoldable pub edge : Lengths → Bytes → Bytes → Option ℕ
unfolding length_of
edge lengths a b = length_of lengths (patch_path a b)

-- The body of the inner loop.
unfoldable pub relax : Option ℕ → Node → Node → Node
relax none h n = n
relax (some s) h n =
    if exceeds (cost_of n) (add_int64 (cost_of h) s)
    then reached (target_of n) (add_int64 (cost_of h) s) h
    else n

unfoldable pub relax_all : Lengths → Node → List Node → List Node
unfolding relax
relax_all lengths h [] = []
relax_all lengths h (n ∷ ns) =
    relax (edge lengths (target_of h) (target_of n)) h n ∷ relax_all lengths h ns

-- The outer loop's body; a node that is not reached is passed over.
unfoldable pub visit : Lengths → Node → List Node → List Node
visit lengths (unreached t) ns = ns
visit lengths (start t) ns = relax_all lengths (start t) ns
visit lengths (reached t c n) ns = relax_all lengths (reached t c n) ns

-- The last node after the outer loop, over as many nodes as there are.
unfoldable pub settle : Lengths → ℕ → Node → List Node → Node
unfolding visit
settle lengths zero h ns = h
settle lengths (suc left) h ns = elim (visit lengths h ns) [
  | [] ↦ h
  | n ∷ rest ↦ settle lengths left n rest
]

unfoldable pub patch_of : Option Bytes → Bytes
patch_of none = []
patch_of (some p) = p

-- The loop back along `from`, with the reversal of what it collects.
unfoldable pub back : Node → List Hop → List Hop
unfolding patch_of
back (start t) hops = hops
back (unreached t) hops = hops
back (reached t c n) hops =
    back n (record { patch = patch_of (patch_path (target_of n) t); to = t } ∷ hops)

unfoldable pub outcome : Node → Option (List Hop × ℤ)
unfolding back
outcome (unreached t) = none
outcome (start t) = some ([], pos 0)
outcome (reached t c n) = some (back (reached t c n) [], c)

-- cheapest, of a lineage with its first target apart.
unfoldable pub cheapest : Lengths → Bytes → List Bytes → Option (List Hop × ℤ)
unfolding settle outcome
cheapest lengths first rest =
    outcome (settle lengths (length rest) (start first) (map unreached rest))

-- collapse; the target that a repeat is judged by is the last one that was kept.
unfoldable pub other_targets : Bytes → List Bytes → List Bytes
other_targets last [] = []
other_targets last (t ∷ ts) = elim (same last t) [
  | true ↦ other_targets last ts
  | false ↦ t ∷ other_targets t ts
]

unfoldable pub collapse : List Bytes → List Bytes
unfolding other_targets
collapse [] = []
collapse (t ∷ ts) = t ∷ other_targets t ts
