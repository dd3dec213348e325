-- ===== src/Players.antt =====
-- The player store, src/player_store.c: the rules for names and passwords, the record format and
-- the operations on the records.
pub mod Disk
pub mod Names
pub mod Record
pub mod Store
