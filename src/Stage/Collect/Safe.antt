-- ===== src/Stage/Collect/Safe.antt =====
-- GC never removes the version that `current` names.
use idunn.Prelude.{
  same_refl, Bool-cases, inl, inr, ap, same_iff, ℕ, ◌≡◌, refl, true, false, Option, none, some,
  List, [], ◌∷◌, ◌++◌, Bytes, Result, ok, err, member, same, arith,
}
use idunn.Release.Version.{Invalid}
use idunn.Txn.Recover.{remove_version}
use idunn.Txn.Invariant.Steps.{Settled, Settled-changed}
use idunn.Layout.Effects.Region.{
  Region, ◌⊑◌, Safe, Safe-pure, Safe-lift, Safe-if, Safe-bind, Safe-effect, Safe-look_or,
  Safe-quiet, Safe-attempt,
}
use idunn.Layout.Pointer.{is_empty}
use idunn.Layout.Pointer.Region.{Targets, Safe-pointer_target}
use idunn.Stage.Collect.{
  retained, collect_from, collect_pinned, collect_kept, collect_live, collect,
}

-- What retained keeps begins with the live version.
retained-cons :
    (versions : List Bytes) (live : Bytes) (retain : ℕ) (keep : List Bytes)
    → retained versions live retain ≡ ok keep
    → member live keep ≡ true
unfolding retained member
retained-cons versions live retain keep h = ground (arith, same_refl live)

member-append : (v : Bytes) (xs ys : List Bytes) → member v xs ≡ true → member v (xs ++ ys) ≡ true
unfolding member
member-append v [] ys h = cc
member-append v (x ∷ xs) ys h = ground (arith, member-append v xs ys)

-- Where `live` is kept, a version that is not kept is another one.
not_kept :
    (live v : Bytes) (keep : List Bytes)
    → member live keep ≡ true
    → member v keep ≡ false
    → same live v ≡ false
not_kept live v keep h k = elim (Bool-cases (same live v)) [
  | inl e ↦ cc (ap (λ x. member x keep) ((same_iff live v).0 e))
  | inr e ↦ e
]

Safe-remove_version :
    {H : Type 0} (live v : Bytes)
    → same live v ≡ false
    → Safe {H = H}
        (Targets Settled live)
        (remove_version v)
        (λ _. Targets Settled live)
        (Targets Settled live)
unfolding remove_version
Safe-remove_version live v apart =
    Safe-effect _ _ (λ d h. (Settled-changed live v _ h.1 apart h.0, h.1))
      (λ d h. (Settled-changed live v _ h.1 apart h.0, h.1)) (λ c f j h. h)

-- A region that holds an error of a settled root holds one that knows where `current` points.
bad_at : {e : Region} → Settled ⊑ e → (live : Bytes) → Targets Settled live ⊑ e
bad_at bad live c f j h = bad c f j h.0

module _ {H : Type 0} {e : Region} (bad : Settled ⊑ e) where
  Safe-collect_from :
      (live : Bytes) (keep versions : List Bytes)
      → member live keep ≡ true
      → Safe {H = H} (Targets Settled live) (collect_from keep versions) (λ _. Settled) e
  unfolding collect_from
  Safe-collect_from live keep [] k = Safe-pure tt (λ c f j h. h.0)
  Safe-collect_from live keep (v ∷ vs) k =
      Safe-if (member v keep) (λ _. Safe-collect_from live keep vs k)
        λ out.
          Safe-bind (λ _. Targets Settled live) (Safe-lift _ (λ _ _ c f j h. h) (bad_at bad live))
            λ _.
              Safe-bind (λ _. Targets Settled live)
                (Safe-attempt (Safe-remove_version live v (not_kept live v keep k out)))
                λ _. Safe-collect_from live keep vs k

  Safe-collect_pinned :
      (live : Bytes) (versions keep : List Bytes) (pins : Option (List Bytes))
      → member live keep ≡ true
      → Safe {H = H} (Targets Settled live) (collect_pinned versions keep pins) (λ _. Settled) e
  unfolding collect_pinned
  Safe-collect_pinned live versions keep none k = Safe-pure tt (λ c f j h. h.0)
  Safe-collect_pinned live versions keep (some pinned) k =
      Safe-collect_from live (keep ++ pinned) versions (member-append live keep pinned k)

  Safe-collect_kept :
      (live : Bytes) (versions pinned : List Bytes) (r : Result Invalid (List Bytes))
      → ((keep : List Bytes) → r ≡ ok keep → member live keep ≡ true)
      → Safe {H = H} (Targets Settled live) (collect_kept versions pinned r) (λ _. Settled) e
  unfolding collect_kept
  Safe-collect_kept live versions pinned (err x) k =
      Safe-lift _ (λ _ _ c f j h. h.0) (bad_at bad live)
  Safe-collect_kept live versions pinned (ok keep) k =
      Safe-bind (λ _. Targets Settled live) (Safe-look_or none _ (λ a c f j h. h))
        λ pins. Safe-collect_pinned live versions keep pins (k keep refl)

  Safe-collect_live :
      (versions pinned : List Bytes) (retain : ℕ) (live : Bytes)
      → Safe {H = H}
          (Targets Settled live)
          (collect_live versions pinned retain live)
          (λ _. Settled)
          e
  unfolding collect_live
  Safe-collect_live versions pinned retain live =
      Safe-if (is_empty live) (λ _. Safe-pure tt (λ c f j h. h.0))
        λ _.
          Safe-bind (λ _. Targets Settled live) (Safe-quiet (bad_at bad live))
            λ _.
              Safe-collect_kept live versions pinned (retained versions live retain)
                (retained-cons versions live retain)

  pub Safe-collect :
      (versions pinned : List Bytes) (retain : ℕ)
      → Safe {H = H} Settled (collect versions pinned retain) (λ _. Settled) e
  unfolding collect
  Safe-collect versions pinned retain =
      Safe-bind (λ _. Settled) (Safe-lift _ (λ _ _ c f j h. h) bad)
        λ _.
          Safe-bind (Targets Settled) (Safe-pointer_target bad)
            λ live. Safe-collect_live versions pinned retain live
