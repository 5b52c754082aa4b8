-- ===== src/KeySchedule/Memory.antt =====
-- The byte slices of key-schedule.go behind their addresses, so that two structures may share one.
use go_mls.Base.{ℕ, suc, ◌==◌, if◌then◌else◌, length, replicate, Bytes}

pub record Memory : Type 0 where
  pub cells : ℕ → Bytes
  pub used : ℕ

abbrev pub write : (ℕ → Bytes) → ℕ → Bytes → ℕ → Bytes
write c a v b = if b == a then v else c b

-- A new slice; its address is `m.used`.
abbrev pub alloc : Bytes → Memory → Memory
alloc b m = record { cells = write m.cells m.used b; used = suc m.used }

-- `zeroize` overwrites in place.
abbrev pub zeros : Bytes → Bytes
zeros b = replicate (length b) 0

abbrev pub zeroize : ℕ → Memory → Memory
zeroize a m = record m { cells = write m.cells a (zeros (m.cells a)) }

-- `dup`
abbrev pub dup : ℕ → Memory → Memory
dup a m = alloc (m.cells a) m
