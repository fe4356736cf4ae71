-- ===== src/Txn.antt =====
-- core/txn: the transaction journal, recovery, rollback and the end of a deferred transaction.
pub mod Journal
pub mod Invariant
pub mod Log
pub mod Recover
pub mod Undo
mod Tests
