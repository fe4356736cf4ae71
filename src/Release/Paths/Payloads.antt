-- ===== src/Release/Paths/Payloads.antt =====
-- Payload paths are read back, and a patch path stands for one pair of contents.
use idunn.Prelude.{
  ℕ, ◌*◌, Bool, true, false, Option, none, some, [], ◌∷◌, ◌++◌, Bytes, codes, length, contains_byte,
  cut, cut_prefix, cut_prefix-some, same, same_iff, ◌==◌, ◌/◌, ◌%◌, ◌<◌, All, if◌then◌else◌, ◌≡◌,
  refl, sym, ap, ◌∙◌, arith, ==_iff, or-false, Bool-cases, inl, inr,
}
use idunn.Prelude.Options.{◌>>=◌, bind-eq-some, unguarded, past_guard, not-false}
use mathlib.Core.Option.{some-injective}
use mathlib.Core.Path.{subst}
use idunn.Prelude.Splits.{Lacks}
use idunn.Prelude.Cuts.{cut-append, cut-some, cut-injective}
use idunn.Release.Paths.{
  hex_digit, hex_encode, payload_path, trim_left, trim_right, trim_end, trim, digits, hex_digits,
  sum_size, keep_payload, payload_of_path, print_patch, patch_path,
}

-- A text of which every byte is one of a set's.
abbrev pub Within : Bytes → Bytes → Type 0
Within cutset s = All (λ x. contains_byte x cutset ≡ true) s

trim_left-Within : (s cutset : Bytes) → Within cutset s → trim_left s cutset ≡ []
unfolding trim_left
trim_left-Within [] cutset h = refl
trim_left-Within (x ∷ s) cutset h = rw (h.0) (trim_left-Within s cutset h.1)

trim-Within : (s cutset : Bytes) → Within cutset s → trim s cutset ≡ []
unfolding trim trim_right
trim-Within s cutset h = ap (λ t. trim_right t cutset) (trim_left-Within s cutset h)

hex_digit-within : (n : ℕ) → n < 16 → contains_byte (hex_digit n) hex_digits ≡ true
unfolding hex_digit contains_byte
hex_digit-within n h = ground arith

length-hex_encode : (bs : Bytes) → length (hex_encode bs) ≡ 2 * length bs
unfolding hex_encode
length-hex_encode [] = omega arith
length-hex_encode (b ∷ bs) = omega (arith, length-hex_encode bs)

hex_encode-Within : (bs : Bytes) → All (λ b. b < 256) bs → Within hex_digits (hex_encode bs)
unfolding hex_encode
hex_encode-Within [] h = tt
hex_encode-Within (b ∷ bs) h = (
  hex_digit-within (b / 16) (omega (arith, h.0)),
  (hex_digit-within (b % 16) (omega arith), hex_encode-Within bs h.1),
)

trim_right-Within⁻ : (s cutset : Bytes) → trim_right s cutset ≡ [] → Within cutset s
unfolding trim_right trim_end
trim_right-Within⁻ [] cutset h = tt
trim_right-Within⁻ (x ∷ s) cutset h = go (trim_right s cutset) (trim_right-Within⁻ s cutset) h
  where
    go : (r : Bytes) → (r ≡ [] → Within cutset s) → trim_end x r cutset ≡ [] → Within cutset (x ∷ s)
    go [] f h = (ground arith, f refl)
    go (y ∷ r) f h = cc

trim_left-Within⁻ : (s cutset : Bytes) → Within cutset (trim_left s cutset) → Within cutset s
unfolding trim_left
trim_left-Within⁻ [] cutset h = tt
trim_left-Within⁻ (x ∷ s) cutset h = go (contains_byte x cutset) refl (trim_left-Within⁻ s cutset) h
  where
    go :
        (b : Bool)
        → contains_byte x cutset ≡ b
        → (Within cutset (trim_left s cutset) → Within cutset s)
        → Within cutset (if b then trim_left s cutset else x ∷ s)
        → Within cutset (x ∷ s)
    go true e f h = (e, f h)
    go false e f h = h

trim-Within⁻ : (s cutset : Bytes) → trim s cutset ≡ [] → Within cutset s
unfolding trim
trim-Within⁻ s cutset h =
    trim_left-Within⁻ s cutset (trim_right-Within⁻ (trim_left s cutset) cutset h)

Within-Lacks :
    (b : ℕ) (s cutset : Bytes) → contains_byte b cutset ≡ false → Within cutset s → Lacks b s
unfolding contains_byte
Within-Lacks b [] cutset hb h = refl
Within-Lacks b (x ∷ s) cutset hb h =
    let differs : (x == b) ≡ false = elim (Bool-cases (x == b)) [
      | inl e ↦ cc (h.0, hb, (==_iff x b).0 e)
      | inr e ↦ e
    ] in
    rw (differs) (Within-Lacks b s cutset hb h.1)

-- The path of a payload is read back as its line and the hash of its content, for a line named by
-- digits and a hash of 32 bytes.
pub payload_path-payload_of :
    (major sum : Bytes)
    → same major [] ≡ false
    → All (λ x. contains_byte x digits ≡ true) major
    → length sum ≡ sum_size
    → All (λ b. b < 256) sum
    → payload_of_path (payload_path major sum) ≡ some (major, hex_encode sum)
unfolding payload_of_path payload_path keep_payload
payload_path-payload_of major sum n d l b =
    let size : (length (hex_encode sum) == 2 * sum_size) ≡ true =
      (==_iff _ _).1 (omega (arith, length-hex_encode sum)) in
    let text = hex_encode sum in
    ap keep_payload (cut-append major text b'/' (Within-Lacks b'/' major digits refl d))
    ∙ rw
        (n, trim-Within major digits d, size, trim-Within text hex_digits (hex_encode-Within sum b))
        refl

-- What a path that is read as a payload's is made of.
payload_of_path-some :
    (path : Bytes) (p : Bytes × Bytes)
    → payload_of_path path ≡ some p
    → (path ≡ codes "payloads/v" ++ (p.0 ++ (b'/' ∷ p.1)))
      × Within digits p.0
      × Within hex_digits p.1
unfolding payload_of_path keep_payload
payload_of_path-some path p h =
    let (rest, e, k) = bind-eq-some (cut_prefix path (codes "payloads/v")) _ h in
    let (read, w) = kept (cut rest b'/') p k in
    (
      cut_prefix-some path (codes "payloads/v") rest e
          ∙ ap (λ r. codes "payloads/v" ++ r) (cut-some rest b'/' p read),
      w.0,
      w.1,
    )
  where
    kept :
        (o : Option (Bytes × Bytes)) (p : Bytes × Bytes)
        → keep_payload o ≡ some p
        → (o ≡ some p) × (Within digits p.0 × Within hex_digits p.1)
    kept none p h = cc
    kept (some (major, sum)) p h =
        let (g, k) = past_guard _ _ h in
        let (g2, k2) = past_guard _ _ k in
        let (_, d) = or-false _ _ g in
        let (_, x) = or-false _ _ g2 in
        let e = some-injective _ _ k2 in
        (
          k2,
          (
            subst (λ q. Within digits q.0) e
                (trim-Within⁻ major digits ((same_iff _ _).0 (not-false _ d))),
            subst (λ q. Within hex_digits q.1) e
                (trim-Within⁻ sum hex_digits ((same_iff _ _).0 (not-false _ x))),
          ),
        )

patch_path-some :
    (from to p : Bytes)
    → patch_path from to ≡ some p
    → (a : Bytes × Bytes) × (b : Bytes × Bytes) × (payload_of_path from ≡ some a)
      × (payload_of_path to ≡ some b)
      × (print_patch b.0 a.1 b.1 ≡ p)
unfolding patch_path
patch_path-some from to p h =
    let (a, ha, k) = bind-eq-some (payload_of_path from) _ h in
    let (b, hb, k2) = bind-eq-some (payload_of_path to) _ k in
    (a, b, ha, hb, (unguarded _ _ _ k2).1)

-- The hash of a payload path's content.
unfoldable pub sum_of : Bytes → Option Bytes
unfolding payload_of_path
sum_of path = payload_of_path path >>= λ p. some p.1

print_patch-injective :
    (a b c d : Bytes × Bytes)
    → Within digits b.0
    → Within digits d.0
    → Within hex_digits a.1
    → Within hex_digits c.1
    → print_patch b.0 a.1 b.1 ≡ print_patch d.0 c.1 d.1
    → (b ≡ d) × (a.1 ≡ c.1)
unfolding print_patch contains_byte cut_prefix
print_patch-injective a b c d hb hd ha hc e =
    let rest = some-injective _ _ (ap (λ p. cut_prefix p (codes "patches/v")) e) in
    let line = λ (m : Bytes) (w : Within digits m). Within-Lacks b'/' m digits refl w in
    let sum = λ (t : Bytes) (w : Within hex_digits t). Within-Lacks b'-' t hex_digits refl w in
    let (majors, sums) = cut-injective b.0 d.0 _ _ b'/' (line b.0 hb) (line d.0 hd) rest in
    let (froms, tos) = cut-injective a.1 c.1 _ _ b'-' (sum a.1 ha) (sum c.1 hc) sums in
    (cc (majors, tos), froms)

-- Two pairs of payload paths that have the same patch path have the same second path, and the hash
-- of the content is the same in their first paths.
pub patch_path-injective :
    (from to from' to' p : Bytes)
    → patch_path from to ≡ some p
    → patch_path from' to' ≡ some p
    → (to ≡ to') × (sum_of from ≡ sum_of from')
unfolding sum_of
patch_path-injective from to from' to' p h h' =
    let (a, b, ea, eb, e) = patch_path-some from to p h in
    let (c, d, ec, ed, e') = patch_path-some from' to' p h' in
    let (_, _, ha) = payload_of_path-some from a ea in
    let (tb, hb, _) = payload_of_path-some to b eb in
    let (_, _, hc) = payload_of_path-some from' c ec in
    let (td, hd, _) = payload_of_path-some to' d ed in
    let (tos, froms) = print_patch-injective a b c d hb hd ha hc (e ∙ sym e') in
    (
      tb ∙ ap (λ q. codes "payloads/v" ++ (q.0 ++ (b'/' ∷ q.1))) tos ∙ sym td,
      rw (ea, ec) (ap some froms),
    )
