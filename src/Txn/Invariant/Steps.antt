-- ===== src/Txn/Invariant/Steps.antt =====
-- How the invariant of an install root goes through one change: of the journal, of `current`, or of
-- a version directory.
use mathlib.Core.Path.{subst}
use idunn.Prelude.{
  ◌≡◌, ◌≢◌, ◌⊎◌, inl, inr, refl, sym, ap, ◌∙◌, true, false, Option, some, [], ◌∷◌, Bytes, same,
  same_iff, same_refl, Bool-cases,
}
use idunn.Txn.Journal.{State, begin, deferred, Record, Document, Phase}
use idunn.Txn.Recover.{next_record}
use idunn.Layout.Disk.{Pointer, names, Dir, whole, update}
use idunn.Layout.Effects.Region.{Region}
use idunn.Layout.Pointer.Region.{pointer_at}
use idunn.Txn.Invariant.{last_of, is_open, is_past_migration, Sound, SoundAt}

pub some_eq : {o : Option Record} {a b : Record} → o ≡ some a → o ≡ some b → a ≡ b
some_eq h k = cc

pointer_at-names : (v w : Bytes) → pointer_at v ≡ names w → (v ≢ []) × (v ≡ w)
pointer_at-names [] w h = cc
pointer_at-names (x ∷ v) w h = ((λ e. cc), cc)

pointer_at-some : (v : Bytes) → v ≢ [] → pointer_at v ≡ names v
pointer_at-some [] h = absurd (h refl)
pointer_at-some (x ∷ v) h = refl

update-other {ℓ} :
    {A : Type ℓ} (f : Bytes → A) (k j : Bytes) (v : A) → same k j ≡ false → update f k v j ≡ f j
unfolding update
update-other f k j v h = rw h

pub update-at {ℓ} : {A : Type ℓ} (f : Bytes → A) (k : Bytes) (v : A) → update f k v k ≡ v
unfolding update
update-at f k v = rw (same_refl k)

not_same : (k j : Bytes) → same k j ≡ false → k ≢ j
not_same k j h e = cc ((same_iff k j).1 e)

not-same : (k j : Bytes) → k ≢ j → same k j ≡ false
not-same k j h = elim (Bool-cases (same k j)) [
  | inl e ↦ absurd (h ((same_iff k j).0 e))
  | inr e ↦ e
]

names-injective : {v w : Bytes} → names v ≡ names w → v ≡ w
names-injective h = cc

-- What the invariant says where the journal ends with `r`.
record Facts (c : Pointer) (f : Bytes → Dir) (r : Record) : Type 0 where
  live : (v : Bytes) → c ≡ names v → f v ≡ whole
  base : is_open r.state ≡ true → r.from_version ≢ [] → f r.from_version ≡ whole
  waiting : r.state ≡ deferred → f r.to_version ≡ whole
  place :
      is_open r.state ≡ true
      → (c ≡ pointer_at r.from_version)
        ⊎ ((is_past_migration r.state ≡ true) × (c ≡ names r.to_version))

module _ {c : Pointer} {f : Bytes → Dir} {j : Option Document} (r : Record) where
  Facts-of : SoundAt r c f j → Facts c f r
  Facts-of (h, e) = record {
    live = h.live_whole;
    base = h.base_whole r e;
    waiting = h.waiting_whole r e;
    place = h.placed r e;
  }

  of-Facts : last_of j ≡ some r → Facts c f r → SoundAt r c f j
  of-Facts e h =
      let at_r : (r' : Record) → last_of j ≡ some r' → Facts c f r' =
        λ r' e'. subst (Facts c f) (some_eq e e') h in
      (
        record {
          live_whole = h.live;
          base_whole = λ r' e'. (at_r r' e').base;
          waiting_whole = λ r' e'. (at_r r' e').waiting;
          placed = λ r' e'. (at_r r' e').place;
        },
        e,
      )

-- A journal that ends with a record which opens nothing.
pub SoundAt-closed :
    {c : Pointer} {f : Bytes → Dir} {j j' : Option Document} (r : Record)
    → Sound c f j
    → last_of j' ≡ some r
    → is_open r.state ≡ false
    → SoundAt r c f j'
SoundAt-closed r h e k = of-Facts r e (record {
  live = h.live_whole;
  base = λ o. cc;
  waiting = λ d. cc (ap is_open d);
  place = λ o. cc;
})

-- A new transaction from the version that `current` names.
pub SoundAt-begun :
    {c : Pointer} {f : Bytes → Dir} {j j' : Option Document} (r : Record)
    → Sound c f j
    → c ≡ pointer_at r.from_version
    → r.state ≡ begin
    → last_of j' ≡ some r
    → SoundAt r c f j'
SoundAt-begun {f} r h at_base opens e = of-Facts r e (record {
  live = h.live_whole;
  base = λ _ there. h.live_whole r.from_version (at_base ∙ pointer_at-some r.from_version there);
  waiting = λ d. cc (sym opens ∙ d);
  place = λ _. inl at_base;
})

-- The next record of the transaction that is open.
pub SoundAt-advance :
    {c : Pointer} {f : Bytes → Dir} {j j' : Option Document} (last : Record) (s : State) (p : Phase)
    → is_open last.state ≡ true
    → (s ≡ deferred → f last.to_version ≡ whole)
    → (is_past_migration last.state ≡ true → is_past_migration s ≡ true)
    → SoundAt last c f j
    → last_of j' ≡ some (next_record last s p)
    → SoundAt (next_record last s p) c f j'
SoundAt-advance last s p o waits past h e =
    let facts = Facts-of last h in
    of-Facts (next_record last s p) e (record {
      live = facts.live;
      base = λ _. facts.base o;
      waiting = waits;
      place = λ _. elim (facts.place o) [
        | inl here ↦ inl here
        | inr there ↦ inr (past there.0, there.1)
      ];
    })

-- `current` set to the version that the open transaction came from.
pub SoundAt-restored :
    {c : Pointer} {f : Bytes → Dir} {j : Option Document} (last : Record)
    → is_open last.state ≡ true
    → SoundAt last c f j
    → SoundAt last (pointer_at last.from_version) f j
SoundAt-restored {f} last o h =
    let facts = Facts-of last h in
    of-Facts last h.1 (record {
      live = λ v at_v.
          let (there, is_v) = pointer_at-names last.from_version v at_v in
          subst (λ u. f u ≡ whole) is_v (facts.base o there);
      base = facts.base;
      waiting = facts.waiting;
      place = λ _. inl refl;
    })

-- `current` set to the version that the open transaction installs.
pub SoundAt-swapped :
    {c : Pointer} {f : Bytes → Dir} {j : Option Document} (last : Record)
    → is_past_migration last.state ≡ true
    → f last.to_version ≡ whole
    → SoundAt last c f j
    → SoundAt last (names last.to_version) f j
SoundAt-swapped {f} last past there h =
    let facts = Facts-of last h in
    of-Facts last h.1 (record {
      live = λ v at_v. subst (λ u. f u ≡ whole) (names-injective at_v) there;
      base = facts.base;
      waiting = facts.waiting;
      place = λ _. inr (past, refl);
    })

-- The directory of the new version changed while `current` names the old one.
pub SoundAt-removed :
    {c : Pointer} {f : Bytes → Dir} {j : Option Document} (last : Record) (x : Dir)
    → last.state ≢ deferred
    → same last.to_version last.from_version ≡ false
    → c ≡ pointer_at last.from_version
    → SoundAt last c f j
    → SoundAt last c (update f last.to_version x) j
SoundAt-removed {c} {f} last x active apart at_base h =
    let facts = Facts-of last h in
    of-Facts last h.1 (record {
      live = λ v at_v.
          let (there, is_v) = pointer_at-names last.from_version v (sym at_base ∙ at_v) in
          update-other f last.to_version v x (
            not-same last.to_version v
              (λ e. not_same last.to_version last.from_version apart (e ∙ sym is_v)))
          ∙ facts.live v at_v;
      base = λ o b. update-other f last.to_version last.from_version x apart ∙ facts.base o b;
      waiting = λ d. absurd (active d);
      place = facts.place;
    })

pub pointer_at-injective : (v w : Bytes) → pointer_at v ≡ pointer_at w → v ≡ w
pointer_at-injective [] [] h = refl
pointer_at-injective [] (y ∷ w) h = cc
pointer_at-injective (x ∷ v) [] h = cc
pointer_at-injective (x ∷ v) (y ∷ w) h = cc

-- `current` names a version other than `v`.
pub Elsewhere-not_same :
    {c : Pointer} (live from v : Bytes)
    → c ≡ pointer_at live
    → c ≡ pointer_at from
    → same live v ≡ false
    → same v from ≡ false
Elsewhere-not_same live from v at_live at_from h =
    not-same v from
      λ e. not_same live v h (pointer_at-injective live from (sym at_live ∙ at_from) ∙ sym e)

-- No transaction is open.
abbrev pub Settled : Region
Settled c f j = Sound c f j × ((r : Record) → last_of j ≡ some r → is_open r.state ≡ false)

-- A directory that `current` does not name, with no transaction open.
pub Settled-changed :
    {c : Pointer} {f : Bytes → Dir} {j : Option Document} (live v : Bytes) (x : Dir)
    → c ≡ pointer_at live
    → same live v ≡ false
    → Settled c f j
    → Settled c (update f v x) j
Settled-changed {f} live v x at_live apart (h, shut) = (
  record {
    live_whole = λ w at_w.
        let (there, is_w) = pointer_at-names live w (sym at_live ∙ at_w) in
        update-other f v w x (not-same v w (λ e. not_same live v apart (is_w ∙ sym e)))
        ∙ h.live_whole w at_w;
    base_whole = λ r e o. cc (shut r e);
    waiting_whole = λ r e d. cc (shut r e, ap is_open d);
    placed = λ r e o. cc (shut r e);
  },
  shut,
)

pub SoundAt-Settled :
    {c : Pointer} {f : Bytes → Dir} {j : Option Document} (r : Record)
    → is_open r.state ≡ false
    → SoundAt r c f j
    → Settled c f j
SoundAt-Settled r shut (h, e) =
    (h, λ r' e'. subst (λ x. is_open x.state ≡ false) (some_eq e e') shut)
