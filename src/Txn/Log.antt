-- ===== src/Txn/Log.antt =====
-- core/txn/journal.go: Open, Append and Last against the install root. The handle `*Journal` is its
-- list of records, which Append returns anew; the filesystem and the root are there by type.
pub mod Region
pub mod Progress
pub mod Reopen
use idunn.Prelude.{ℕ, ltb, refuse_if, Option, none, some, List, []}
use idunn.Txn.Journal.{
  Record, Document, document, parse, next_records, max_journal_len, journal_too_large,
}
use idunn.Layout.Disk.{at_meta}
use idunn.Layout.Effects.{Action, pure, lift, look, quiet, write_file_atomic, ◌>>=◌, ◌>>◌}

module _ {H : Type 0} where
  -- ReadFile of at most MaxJournalLen bytes, and parse.
  unfoldable pub read_document : Option Document → ℕ → Action H (List Record)
  read_document none len = pure []
  read_document (some doc) len = do
    lift (refuse_if (ltb max_journal_len len) journal_too_large)
    lift (parse doc)

  -- Open: no journal is an empty one, and one that is too long or does not parse is an error.
  unfoldable pub open_journal : Action H (List Record)
  unfolding read_document
  open_journal = do (doc, len) ← look (λ d. (d.journal, d.journal_len)); read_document doc len

  -- Append: the checks, the directory, and the durable write of the whole document.
  unfoldable pub append : List Record → Record → Action H (List Record)
  append records r = do
    next ← lift (next_records records r)
    quiet
    write_file_atomic at_meta
        (λ d. record d { journal = some (document next); journal_len = d.encoded_len next })
    pure next
