-- ===== src/Stage/Collect.antt =====
-- GC and retained of core/stage/stage.go: which old versions go. The listing of versions/ is an
-- argument, as are the versions that a probation pins. ErrIncompleteGC, which the caller reports and
-- does not take for a failure, is no error here. The versions that are sorted have all been
-- compared with the live one before, so no comparison of the sort fails.
pub mod Safe
use Prim.Native.Nat.{Ordering}
use idunn.Prelude.{
  ℕ, zero, suc, ◌-◌, ◌<◌, Bool, true, false, not, ◌||◌, Option, none, some, List, [], ◌∷◌, ◌++◌,
  Bytes, Result, ok, err, ◌>>=◌ as bind, member, ltb, if◌then◌else◌, same, refuse_if,
}
use idunn.Release.Version.{Invalid, compare_versions}
use idunn.Release.Sorting.{older, sort_by}
use idunn.Txn.Journal.{Error, retain_too_small, bad_version}
use idunn.Txn.Recover.{remove_version}
use idunn.Layout.Effects.{Action, pure, lift, attempt, look_or, quiet, ◌>>=◌, ◌>>◌}
use idunn.Layout.Pointer.{is_empty, validate_version, pointer_target}

abbrev pub min_retain : ℕ
min_retain = 2

-- The versions above the live one, and those below it.
pub record Split : Type 0 where
  pub above : List Bytes
  pub below : List Bytes

add_to : Ordering → Bytes → Split → Split
add_to Ordering.gt v s = record s { above = v ∷ s.above }
add_to Ordering.lt v s = record s { below = v ∷ s.below }
add_to Ordering.eq v s = s

-- The first loop of retained.
unfoldable pub split_at : Bytes → List Bytes → Result Invalid Split
unfolding add_to
split_at live [] = ok (record { above = []; below = [] })
split_at live (v ∷ vs) =
    let rest = split_at live vs in
    bind (compare_versions v live) λ c. bind rest λ s. ok (add_to c v s)

abbrev newest_first : Bytes → Bytes → Bool
newest_first a b = older b a

abbrev take {ℓ} : {A : Type ℓ} → ℕ → List A → List A
take zero xs = []
take (suc n) [] = []
take (suc n) (x ∷ xs) = x ∷ take n xs

-- retained: the keys of the map `keep`.
unfoldable pub retained : List Bytes → Bytes → ℕ → Result Invalid (List Bytes)
retained versions live retain =
    bind (split_at live versions)
      λ s. ok (live ∷ (s.above ++ take (retain - 1) (sort_by newest_first s.below)))

module _ {H : Type 0} where
  -- The loop over the listing; a removal that fails is reported, and the next call tries again.
  collect_from : List Bytes → List Bytes → Action H (Unit {0})
  collect_from keep [] = pure tt
  collect_from keep (v ∷ vs) =
      let rest = collect_from keep vs in
      if member v keep then rest else do lift (validate_version v); attempt (remove_version v); rest

  -- Where ProbationPins fails, nothing is collected, and that is ErrIncompleteGC too.
  collect_pinned : List Bytes → List Bytes → Option (List Bytes) → Action H (Unit {0})
  unfolding collect_from
  collect_pinned versions keep none = pure tt
  collect_pinned versions keep (some pinned) = collect_from (keep ++ pinned) versions

  collect_kept : List Bytes → List Bytes → Result Invalid (List Bytes) → Action H (Unit {0})
  unfolding collect_pinned
  collect_kept versions pinned (err e) = lift (err bad_version)
  collect_kept versions pinned (ok keep) = do
    pins ← look_or none (λ d. some pinned)
    collect_pinned versions keep pins

  collect_live : List Bytes → List Bytes → ℕ → Bytes → Action H (Unit {0})
  unfolding collect_kept
  collect_live versions pinned retain live =
      if is_empty live
      then pure tt
      else do quiet; collect_kept versions pinned (retained versions live retain)

  -- GC.
  unfoldable pub collect : List Bytes → List Bytes → ℕ → Action H (Unit {0})
  unfolding collect_live
  collect versions pinned retain = do
    lift (refuse_if (ltb retain min_retain) retain_too_small)
    live ← pointer_target
    collect_live versions pinned retain live
