-- ===== src/Booking/System/Invariant.antt =====
-- hw1_csiebooking-lala-ju/server.c: an invariant of both servers, per record.
use system_programming_homew.Prelude.{
  ℕ, ◌≤◌, ◌<◌, ◌≡◌, true, arith, inl, inr, ◌&&◌, ◌==◌, if◌then◌else◌, ℕ_discrete, Bool-cases,
}
use system_programming_homew.Prelude.Int.{ℤ, pos}
use system_programming_homew.Booking.Command.Bounds.{IsStored}
use system_programming_homew.Booking.Locks.{
  FileLocks, Process, reader, writer, Lock, shared, exclusive, unlocked, compatible, other,
}
use system_programming_homew.Booking.Clients.{exit, command, users}
use system_programming_homew.Booking.World.{World}

-- The read server's part, for one record: the counter covers its clients, and the lock is held as
-- long as the counter is not 0.
pub record ReaderInv (lock : Lock) (lc : ℤ) (clients : ℕ) : Type 0 where
  pub count : ℕ
  pub counted : lc ≡ pos count
  pub covers : clients ≤ count
  pub locked : 0 < count → lock ≡ shared
  pub free : count ≡ 0 → lock ≡ unlocked

-- The write server's part: at most one client, and the lock is held while `samewr` is set.
pub record WriterInv (lock : Lock) (same clients : ℕ) : Type 0 where
  pub flag : same ≤ 1
  pub covers : clients ≤ same
  pub locked : 0 < same → lock ≡ exclusive
  pub free : same ≡ 0 → lock ≡ unlocked

pub record Inv (locks : FileLocks) (w : World locks) : Type 0 where
  pub reading :
      (r : ℕ) → ReaderInv (locks.held w.table reader r) (w.readlc r) (users exit r w.readers)
  pub writing :
      (r : ℕ) → WriterInv (locks.held w.table writer r) (w.samewr r) (users command r w.writers)
  pub apart :
      (r : ℕ) → compatible (locks.held w.table writer r) (locks.held w.table reader r) ≡ true
  pub only_readers : (r : ℕ) → users command r w.readers ≡ 0
  pub only_writers : (r : ℕ) → users exit r w.writers ≡ 0
  pub within : (r : ℕ) → IsStored (w.file r)

-- A request leaves the other process's locks alone.
module _ (locks : FileLocks) where
  open locks use {Table, held, set_lock, answer, granted, refused, elsewhere}

  pub held-other :
      (t : Table) (p : Process) (r : ℕ) (l : Lock) (k : ℕ)
      → held (set_lock t p r l).0 (other p) k ≡ held t (other p) k
  held-other t reader r l k = elsewhere t reader r l writer k (inl (λ e. cc))
  held-other t writer r l k = elsewhere t writer r l reader k (inl (λ e. cc))

  -- What the asking process holds afterwards, at every record.
  pub held-set_lock :
      (t : Table) (p : Process) (r : ℕ) (l : Lock) (k : ℕ)
      → held (set_lock t p r l).0 p k
        ≡ (if (k == r) && compatible l (held t (other p) r) then l else held t p k)
  held-set_lock t p r l k = elim (ℕ_discrete k r) [
    | yes e ↦ elim (Bool-cases (compatible l (held t (other p) r))) [
      | inl ok ↦ ground (arith, granted t p r l, answer t p r l)
      | inr ko ↦ ground (arith, refused t p r l p k, answer t p r l)
    ]
    | no n ↦ ground (arith, elsewhere t p r l p k (inr n))
  ]
