-- ===== src/Txn/Log/Reopen.antt =====
-- Open after Append.
use idunn.Layout.Disk.{Disk}
