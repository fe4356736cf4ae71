-- ===== src/Txn/Log/Progress.antt =====
-- Open and Append where no call fails.
use mathlib.Core.Path.{subst}
use idunn.Prelude.{
  ℕ, false, ◌≤◌, ltb, arith, ◌≡◌, refl, sym, ap, ◌∙◌, Option, some, List, Bytes, ok,
}
use idunn.Txn.Journal.{Record, Document, document, parse, next_records, max_journal_len}
use idunn.Txn.Log.{open_journal, read_document, append}
use idunn.Layout.Disk.{Pointer, Dir, at_meta}
use idunn.Layout.Effects.Progress.{
  Goes, Holding, Goes-pure, Goes-lift, Goes-look, Goes-bind, Goes-quiet, Goes-given,
  Goes-write_file_atomic,
}

le→ltb-false : (a b : ℕ) → b ≤ a → ltb a b ≡ false
le→ltb-false a b h = ground arith

module _ {H : Type 0} {c : Pointer} {f : Bytes → Dir} {j : Option Document} where
  pub Goes-append :
      (records next : List Record) (r : Record)
      → next_records records r ≡ ok next
      → Goes {H = H}
          (Holding c f j)
          (append records r)
          (λ n d. Holding c f (some (document next)) d × (n ≡ next))
  unfolding append
  Goes-append records next r e =
      Goes-bind (λ n d. Holding c f j d × (n ≡ next)) (Goes-lift _ next e (λ d h. (h, refl)))
        λ n. Goes-given _ λ is_next.
          Goes-bind (λ _. Holding c f j) Goes-quiet
            λ _.
              Goes-bind (λ _. Holding c f (some (document n)))
                (Goes-write_file_atomic at_meta _ (λ d h. (h.0, h.1, refl)))
                λ _.
                  Goes-pure n
                    (λ d h. ((h.0, h.1, h.2 ∙ ap (λ x. some (document x)) is_next), is_next))

  pub Goes-open_journal :
      (records : List Record)
      → parse (document records) ≡ ok records
      → j ≡ some (document records)
      → Goes {H = H}
          (λ d. Holding c f j d × (d.journal_len ≤ max_journal_len))
          open_journal
          (λ n d. Holding c f j d × (n ≡ records))
  unfolding open_journal read_document
  Goes-open_journal records e at_j =
      Goes-bind
        (λ x d.
          Holding c f j d × ((x.0 ≡ some (document records)) × (ltb max_journal_len x.1 ≡ false)))
        (Goes-look _ (λ d h. (h.0, (h.0.2 ∙ at_j, le→ltb-false _ _ h.1))))
        λ x. Goes-given _ λ is_doc.
          subst
            (λ o.
              Goes {H = H} (Holding c f j) (read_document o x.1)
                (λ n d. Holding c f j d × (n ≡ records)))
            (sym is_doc.0)
            (Goes-bind (λ _. Holding c f j) (Goes-lift _ tt (rw (is_doc.1) refl) (λ d h. h))
              λ _. Goes-lift _ records e (λ d h. (h, refl)))
