-- ===== src/KeySchedule.antt =====
-- key-schedule.go: the hash ratchets, the base key sources and the epoch's secrets.
-- Byte slices that the code shares and overwrites stand in an explicit memory.
pub mod Memory
pub mod Ratchet
pub mod Source
pub mod Epoch
pub mod Material
pub mod Agreement
