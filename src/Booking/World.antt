-- ===== src/Booking/World.antt =====
-- hw1_csiebooking-lala-ju/server.c: the state of the two servers at work on one file of records,
-- `bookingRecord`, whose 16 bytes from (i - 1) * 16 on are record i.
use system_programming_homew.Prelude.{ℕ, List}
use system_programming_homew.Prelude.Int.{ℤ}
use system_programming_homew.Booking.Command.{Booking}
use system_programming_homew.Booking.Locks.{FileLocks}
use system_programming_homew.Booking.Clients.{Client}

-- `readers` and `readlc` are the read server's, `writers` and `samewr` the write server's.
pub record World (locks : FileLocks) : Type 0 where
  pub table : locks.Table
  pub file : ℕ → Booking
  pub readers : List Client
  pub readlc : ℕ → ℤ
  pub writers : List Client
  pub samewr : ℕ → ℕ
