-- ===== src/Txn/Log/Region.antt =====
-- What Open and Append do to a region.
use idunn.Prelude.{
  ℕ, ap, sym, ◌∙◌, ◌≡◌, refl, Option, none, some, List, [], ok, Bytes, last?, last?-snoc, arith,
}
use idunn.Txn.Journal.Known.{IsKnown, parse-IsKnown}
use idunn.Txn.Journal.{Record, Document, parse, next_records, extend}
use idunn.Layout.Disk.{Pointer, Dir, at_meta}
use idunn.Layout.Effects.Region.{
  Region, ◌⊑◌, Safe, Safe-pure, Safe-lift, Safe-look, Safe-bind, Safe-quiet, Safe-write_file_atomic,
}
use idunn.Txn.Invariant.{last_of}
use idunn.Txn.Log.{read_document, open_journal, append}

extend-last :
    (l : Option Record) (records next : List Record) (r : Record)
    → extend l records r ≡ ok next
    → last? next ≡ some r
unfolding extend last?
extend-last none records next r h = ground arith
extend-last (some l) records next r h = ground (arith, last?-snoc records r)

pub next_records-last :
    (records : List Record) (r : Record) {next : List Record}
    → next_records records r ≡ ok next
    → last? next ≡ some r
unfolding next_records
next_records-last records r {next} h = ground (arith, extend-last (last? records) records next r)

parse-eq-ok :
    (doc : Document) (records : List Record)
    → parse doc ≡ ok records
    → last? records ≡ last? doc.records
unfolding parse
parse-eq-ok doc records h = ground arith

-- The records in hand end as the journal on disk does, with a state that the journal knows.
abbrev pub Holds : Region → List Record → Region
Holds p records c f j =
    p c f j
    × (last? records ≡ last_of j)
    × ((last : Record) → last? records ≡ some last → IsKnown last.state)

module _ {H : Type 0} {p e : Region} (bad : p ⊑ e) where
  Safe-read_document :
      (doc : Option Document) (len : ℕ)
      → Safe {H = H} (λ c f j. p c f j × (j ≡ doc)) (read_document doc len) (Holds p) e
  unfolding read_document last?
  Safe-read_document none len = Safe-pure [] (λ c f j h. (h.0, sym (ap last_of h.1), λ last e. cc))
  Safe-read_document (some doc) len =
      Safe-bind (λ _ c f j. p c f j × (j ≡ some doc))
        (Safe-lift _ (λ t small c f j h. h) (λ c f j h. bad c f j h.0))
        λ _.
          Safe-lift _
            (λ records parsed c f j h. (
              h.0,
              parse-eq-ok doc records parsed ∙ sym (ap last_of h.1),
              λ last. parse-IsKnown doc records last parsed,
            ))
            (λ c f j h. bad c f j h.0)

  pub Safe-open_journal : Safe {H = H} p open_journal (Holds p) e
  unfolding open_journal
  Safe-open_journal =
      Safe-bind (λ x c f j. p c f j × (j ≡ x.0)) (Safe-look _ (λ d h. (h, refl)) bad)
        λ x. Safe-read_document x.0 x.1

-- Append writes a journal that ends with its record, or leaves the old one.
module _ {H : Type 0} {p q e : Region} (bad : p ⊑ e) (bad' : q ⊑ e) where
  pub Safe-append :
      (records : List Record) (r : Record)
      → ((c : Pointer) (f : Bytes → Dir) (j j' : Option Document)
          → p c f j
          → last_of j' ≡ some r
          → q c f j')
      → Safe {H = H} p (append records r) (λ _. q) e
  unfolding append
  Safe-append records r g = record {
    triple =
        (Safe-bind (λ next c f j. p c f j × (last? next ≡ some r))
          (Safe-lift _ (λ next made c f j h. (h, next_records-last records r made)) bad)
          (λ next.
            Safe-bind (λ _ c f j. p c f j × (last? next ≡ some r))
              (Safe-quiet (λ c f j h. bad c f j h.0))
              (λ _.
                Safe-bind (λ _. q)
                  (Safe-write_file_atomic at_meta _ (λ d h. g _ _ _ _ h.0 h.1)
                    (λ c f j h. bad c f j h.0) bad')
                  (λ _. Safe-pure next (λ c f j h. h))))).triple;
  }
