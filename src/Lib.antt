-- ===== src/Lib.antt =====
-- A verification development for idunn, a library that updates an application in place: it
-- installs a release beside the running one, swaps a pointer, and survives a crash at any point.
--
-- The parts of the program and the modules that hold them:
--   Prelude     what the modules share: tests, lists, byte texts, results, the integers.
--   Release     core/release: Release.Version is ValidVersion (parse.go) as the automaton of its
--               regular expression, and the comparison of semver.go; Release.Sorting is the sort;
--               Release.Chain is Between and Chain of chain.go;
--               Release.Paths is the target paths of channel.go and policy.go; Release.Descriptor
--               and Release.Documents are the descriptors, pointers and policies of descriptor.go,
--               parse.go and policy.go, from what encoding/json has read.
--   Safepath    internal/safepath: Clean and CleanTarget, with path.Clean as far as they use it.
--   Txn         core/txn: Txn.Journal is the transition table, Open and Append of journal.go;
--               Txn.Log is the journal on disk; Txn.Recover is RecoverResult and what it calls, of
--               recover.go; Txn.Undo is Rollback and ResumeDeferred; Txn.Invariant is what holds of
--               an install root between two calls.
--   Layout      core/fsx and internal/layout: Layout.Disk is the install root as far as a
--               transaction depends on it, Layout.Effects the calls that change it and
--               WriteFileAtomic, Layout.Pointer is `current`, the install state and the promotion
--               of a launcher.
--   Stage       core/stage: Stage.Staging is Stage, Stage.Swap is Swap, Stage.Collect is GC;
--               Stage.Route is collapse and cheapest of route.go, where an int64 wraps around.
--   Updater     core/updater: Updater.Apply is the transaction of apply.go from its BEGIN record on;
--               Updater.Reach is every sequence of the operations; Updater.Policy is applicable of
--               updater.go; Updater.Steps is steps and furthestReachable of apply.go;
--               Updater.Install is plan, the loop of Apply and apply up to the BEGIN record.
--   Probation   internal/layout/probation.go and probation_outcome.go: the record, the outcomes and
--               the text of a reason (Probation.Record, Outcomes, Reason); core/launch/probation.go:
--               Probation.Launcher is the marks of the application, Probation.Start the start of a
--               launcher; core/updater/probation.go: Probation.Allowance and Probation.Arming.
--   Timefloor   core/timefloor: the known-good time.
--
-- A text is the list of its bytes, since Go's strings are; an `int` result of a comparison is an
-- Ordering; a numeric field that does not fit 64 bits is the largest value, as in the source.
--
-- An operation that touches the filesystem is an Action: it takes the disk and the outcomes of its
-- calls, and gives a result and a new disk. Each call either takes effect, is refused and changes
-- nothing, or fails after it took effect; the removal of a tree may fail with a part of it gone.
-- Theorems are about every list of outcomes, which covers every failure. A crash is a run
-- whose remaining calls are refused, since those leave the disk as it was. The hooks of the host
-- are arbitrary functions on a state of the host. Layout.Effects.Region has the rules for every list
-- of outcomes, on the part of the disk that decides which version runs, and Layout.Effects.Progress
-- those for a run in which no call fails; the modules Safe and Progress below the operations use
-- them.
--
-- The files of probation are not part of the disk of a transaction: they stand, with the state of
-- the host, in the place of that state (Probation.Files), since no operation of core/txn reads
-- them. Events and the reports to the host are left out. A reason is the list of its runes, and a
-- byte that starts none is `none`. The lock of the install root, the clock and what the host
-- answers are arguments.
--
-- A version directory is missing, partial or whole. Whole means that staging renamed its finished
-- tree there; which bytes the files hold is decided by the trust client and its signed hashes,
-- which are outside the development. A rename and the creation of a symbolic link are atomic, which
-- is what the source relies on. encoding/json and the operating system's filesystem are outside;
-- the length of the journal file that encoding/json makes of a history is a part of the disk that
-- no operation changes.
--
-- Loops over lists are structural recursions. The loop of steps recurs on the number of releases
-- that may still be added, which the source bounds by maxWalk, so its end is the source's own error.
--
-- Not modelled: the trust client (core/trust) calls go-tuf; core/fetch is HTTP; core/elevate is
-- services and sockets; core/integrate is the registry of the operating system; internal/packer
-- and cmd build and sign repositories; internal/delta is the byte format of patches, whose results
-- are checked against signed hashes; internal/anchor and internal/launcherfile embed bytes and
-- replace one file; core/launch starts processes; core/fsx/os.go and mem.go are filesystems.
-- core/uninstall, core/installer and CheckForUpdate of core/updater are the
-- next to model.
pub mod Prelude
pub mod Release
pub mod Txn
pub mod Layout
pub mod Stage
pub mod Updater
pub mod Timefloor
pub mod Safepath
pub mod Probation
