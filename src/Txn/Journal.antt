-- ===== src/Txn/Journal.antt =====
-- core/txn/journal.go: which records may follow one another, and what Append and Open accept. The
-- durable write of Append is in Txn/Log.antt.
pub mod Histories
pub mod Ranks
pub mod Closing
pub mod Known
use idunn.Prelude.{
  ℕ, Bool, true, false, ◌&&◌, not, Option, none, some, List, [], ◌∷◌, ◌++◌, Bytes, Result, ok, err,
  ◌>>=◌, ◌>>◌, refuse_if, length, last?, same, ltb, ◌==◌, if◌then◌else◌,
}

-- hook.Phase, of core/hook/hook.go.
pub data Phase : Type 0 where
  check download verify quiesce stage migrate apply commit gc rollback : Phase

-- A State is a text; `other` is one that is not among the eight that the journal knows.
pub data State : Type 0 where
  begin staged migrated swapped committed rolled_back deferred uninstalling : State
  other : Bytes → State

pub record Record : Type 0 where
  pub state : State
  pub name : Bytes
  pub from_version : Bytes
  pub to_version : Bytes
  pub phase : Phase

pub record Document : Type 0 where
  pub schema_version : ℕ
  pub records : List Record

abbrev pub journal_schema : ℕ
journal_schema = 1

abbrev pub document : List Record → Document
document records = record { schema_version = journal_schema; records = records }

abbrev pub max_records : ℕ
max_records = 32

abbrev pub max_journal_len : ℕ
max_journal_len = 65536

-- What a call here or below refuses: ErrJournal, ErrUninstalling, ErrLayout and ErrStage by cause.
pub data Error : Type 0 where
  io_failed no_filesystem : Error
  bad_document journal_too_large no_state unknown_state no_target no_name : Error
  bad_start bad_transition changed_transaction too_many_records : Error
  being_uninstalled bad_version foreign_pointer inconsistent_swap missing_version : Error
  hook_failed no_swap in_use already_exists bad_install retain_too_small : Error
  bad_probation bad_outcome too_many_outcomes no_install_state stale no_resolver : Error
  bad_clock not_applicable blocked_version check_failed declined : Error

-- The map `allowed`; none for a state that is no key of it.
unfoldable pub allowed : State → Option (List State)
allowed begin = some (staged ∷ rolled_back ∷ [])
allowed staged = some (migrated ∷ rolled_back ∷ deferred ∷ [])
allowed migrated = some (swapped ∷ rolled_back ∷ [])
allowed swapped = some (committed ∷ rolled_back ∷ [])
allowed committed = some (begin ∷ uninstalling ∷ [])
allowed deferred = some (migrated ∷ rolled_back ∷ begin ∷ uninstalling ∷ [])
allowed rolled_back = some (begin ∷ uninstalling ∷ [])
allowed uninstalling = some []
allowed (other s) = none

-- Equality of states, where one of the two is among the eight.
code_of : State → ℕ
code_of begin = 0
code_of staged = 1
code_of migrated = 2
code_of swapped = 3
code_of committed = 4
code_of rolled_back = 5
code_of deferred = 6
code_of uninstalling = 7
code_of (other s) = 8

unfoldable pub state_eq : State → State → Bool
unfolding code_of
state_eq a b = code_of a == code_of b

unfoldable pub listed : State → List State → Bool
unfolding state_eq
listed s [] = false
listed s (t ∷ ts) = let rest = listed s ts in if state_eq t s then true else rest

unfoldable pub may_follow : State → State → Bool
unfolding allowed listed
may_follow prev next = elim (allowed prev) [ none ↦ false | some states ↦ listed next states ]

unfoldable pub same_transaction : Record → Record → Bool
same_transaction prev next =
    same next.from_version prev.from_version
    && same next.to_version prev.to_version
    && same next.name prev.name

unfoldable pub check_transition : Record → Record → Result Error (Unit {0})
unfolding may_follow same_transaction state_eq
check_transition prev next =
    if may_follow prev.state next.state
    then refuse_if (not (state_eq next.state begin) && not (same_transaction prev next))
        changed_transaction
    else err bad_transition

-- The loop of parse over neighbouring records.
unfoldable pub check_history : Record → List Record → Result Error (Unit {0})
unfolding check_transition
check_history prev [] = ok tt
check_history prev (next ∷ rest) = do
  let following = check_history next rest
  check_transition prev next
  following

abbrev opens : State → Bool
opens begin = true
opens uninstalling = true
opens _ = false

unfoldable pub check_records : List Record → Result Error (Unit {0})
unfolding check_history
check_records [] = err bad_document
check_records (first ∷ rest) = do
  let following = check_history first rest
  refuse_if (ltb max_records (length (first ∷ rest))) too_many_records
  refuse_if (not (opens first.state)) bad_start
  following

-- parse, after encoding/json has decoded the document.
unfoldable pub parse : Document → Result Error (List Record)
parse doc = do
  refuse_if (not (doc.schema_version == journal_schema)) bad_document
  check_records doc.records
  ok doc.records

unfoldable pub is_known : State → Bool
unfolding allowed
is_known s = elim (allowed s) [ none ↦ false | some states ↦ true ]

abbrev is_empty : Bytes → Bool
is_empty [] = true
is_empty (c ∷ s) = false

abbrev is_empty_state : State → Bool
is_empty_state (other []) = true
is_empty_state _ = false

unfoldable pub check_record : Record → Result Error (Unit {0})
unfolding is_known
check_record r = do
  refuse_if (is_empty_state r.state) no_state
  refuse_if (not (is_known r.state)) unknown_state
  refuse_if (is_empty r.to_version) no_target
  refuse_if (is_empty r.name) no_name

-- The switch of Append: the history that a record leads to.
unfoldable pub extend : Option Record → List Record → Record → Result Error (List Record)
unfolding check_transition
extend none records r = do refuse_if (not (opens r.state)) bad_start; ok (r ∷ [])
extend (some last) records r = do
  check_transition last r
  ok (if state_eq r.state begin then r ∷ [] else records ++ r ∷ [])

-- Append, up to its write.
unfoldable pub next_records : List Record → Record → Result Error (List Record)
next_records records r = do
  check_record r
  next ← extend (last? records) records r
  refuse_if (ltb max_records (length next)) too_many_records
  ok next
