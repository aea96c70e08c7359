-- ===== src/Booking/System.antt =====
-- hw1_csiebooking-lala-ju/server.c: the read server and the write server side by side. A step is one
-- ready descriptor of one server; which comes next, and what arrives, is left open.
pub mod Invariant
pub mod Readers
pub mod Writers
pub mod ReaderSteps
pub mod WriterSteps
pub mod Safety
pub mod Haunted
pub mod Leak
mod Tests
use system_programming_homew.Prelude.{ℕ, ◌≡◌, true, false, List, Option, some, get_elem?}
use system_programming_homew.Booking.Request.{Read}
use system_programming_homew.Booking.Locks.{FileLocks}
use system_programming_homew.Booking.Clients.{Client, Message}
use system_programming_homew.Booking.World.{World}
use system_programming_homew.Booking.ReadServer.{reader_accept, reader_read}
use system_programming_homew.Booking.WriteServer.{writer_accept, writer_read}

-- `accept` returns a descriptor that is not in use, and only one that is in `master` is served.
pub data Step (locks : FileLocks) (w w' : World locks) : Type 0 where
  reader_joins :
      (fd : ℕ) (c : Client)
      → get_elem? w.readers fd ≡ some c
      → c.is_open ≡ false
      → w' ≡ (reader_accept locks w fd c).0
      → Step locks w w'
  reader_served :
      (fd : ℕ) (c : Client) (r : Read)
      → get_elem? w.readers fd ≡ some c
      → c.is_open ≡ true
      → w' ≡ (reader_read locks w fd c r).0
      → Step locks w w'
  writer_joins :
      (fd : ℕ) (c : Client)
      → get_elem? w.writers fd ≡ some c
      → c.is_open ≡ false
      → w' ≡ (writer_accept locks w fd c).0
      → Step locks w w'
  writer_served :
      (fd : ℕ) (c : Client) (r : Read) (ms : List Message)
      → get_elem? w.writers fd ≡ some c
      → c.is_open ≡ true
      → writer_read locks w fd c r ≡ some (w', ms)
      → Step locks w w'

pub data Reach (locks : FileLocks) (w : World locks) : World locks → Type 0 where
  here : Reach locks w w
  next : {u v : World locks} → Reach locks w u → Step locks u v → Reach locks w v
