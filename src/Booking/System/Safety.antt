-- ===== src/Booking/System/Safety.antt =====
-- hw1_csiebooking-lala-ju/server.c: the two servers together, from their start on.
use system_programming_homew.Prelude.{
  ℕ, ◌≡◌, refl, some, get_elem?, arith, sym, subst, ℕ_discrete, replicate,
}
use system_programming_homew.Prelude.Int.{pos}
use system_programming_homew.Booking.Command.{Booking}
use system_programming_homew.Booking.Command.Bounds.{IsWithin, IsStored, IsWithin-IsStored}
use system_programming_homew.Booking.Locks.{FileLocks, Process, reader, writer, unlocked}
use system_programming_homew.Booking.Clients.{
  Client, exit, command, uses-two-le-users, IsUsing, no_client, users-replicate,
}
use system_programming_homew.Booking.World.{World}
use system_programming_homew.Booking.System.{
  Step, reader_joins, reader_served, writer_joins, writer_served, Reach, here, next,
}
use system_programming_homew.Booking.System.Invariant.{Inv}
use system_programming_homew.Booking.System.ReaderSteps.{reader_accept-Inv, reader_read-Inv}
use system_programming_homew.Booking.System.WriterSteps.{writer_accept-Inv, writer_read-Inv}

module _ (locks : FileLocks) where
  -- Both servers just started: no client, no lock.
  abbrev pub start : locks.Table → (ℕ → Booking) → ℕ → World locks
  start t file maxfd = record {
    table = t;
    file = file;
    readers = replicate maxfd no_client;
    readlc = λ _. pos 0;
    writers = replicate maxfd no_client;
    samewr = λ _. 0;
  }

  pub record IsStart (t : locks.Table) (file : ℕ → Booking) : Type 0 where
    pub no_locks : (p : Process) (r : ℕ) → locks.held t p r ≡ unlocked
    pub good_file : (r : ℕ) → IsWithin (file r)

  pub start-Inv :
      (t : locks.Table) (file : ℕ → Booking) (maxfd : ℕ)
      → IsStart t file
      → Inv locks (start t file maxfd)
  start-Inv t file maxfd h = record {
    reading = λ r. record {
      count = 0;
      counted = refl;
      covers = omega (arith, users-replicate exit r maxfd);
      locked = λ k. absurd (omega arith);
      free = λ _. h.no_locks reader r;
    };
    writing = λ r. record {
      flag = omega arith;
      covers = omega (arith, users-replicate command r maxfd);
      locked = λ k. absurd (omega arith);
      free = λ _. h.no_locks writer r;
    };
    apart = λ r. rw (h.no_locks writer r);
    only_readers = λ r. users-replicate command r maxfd;
    only_writers = λ r. users-replicate exit r maxfd;
    within = λ r. IsWithin-IsStored (file r) (h.good_file r);
  }

  pub Step-Inv : {w w' : World locks} → Inv locks w → Step locks w w' → Inv locks w'
  Step-Inv {w} inv (reader_joins fd c e o q) =
      subst (Inv locks) (sym q) (reader_accept-Inv locks w inv fd c e)
  Step-Inv {w} inv (reader_served fd c r e o q) =
      subst (Inv locks) (sym q) (reader_read-Inv locks w inv fd c r e o)
  Step-Inv {w} inv (writer_joins fd c e o q) =
      subst (Inv locks) (sym q) (writer_accept-Inv locks w inv fd c e)
  Step-Inv {w} inv (writer_served fd c r ms e o q) = writer_read-Inv locks w inv fd c r e o q

  pub Reach-Inv : {w w' : World locks} → Inv locks w → Reach locks w w' → Inv locks w'
  Reach-Inv inv here = inv
  Reach-Inv inv (next path step) = Step-Inv (Reach-Inv inv path) step

  module _ (t : locks.Table) (file : ℕ → Booking) (maxfd : ℕ) (fresh : IsStart t file)
      (w : World locks) (path : Reach locks (start t file maxfd) w) where
    reached : Inv locks w
    reached = Reach-Inv (start-Inv t file maxfd fresh) path

    -- In every state that the two servers reach from a start with no locks and records within the
    -- limits, two descriptors of the write server whose clients are about to change the same record
    -- are the same descriptor.
    pub one_writer :
        (r fd fd' : ℕ) (c c' : Client)
        → get_elem? w.writers fd ≡ some c
        → get_elem? w.writers fd' ≡ some c'
        → IsUsing command r c
        → IsUsing command r c'
        → fd ≡ fd'
    one_writer r fd fd' c c' e e' u u' = elim (ℕ_discrete fd fd') [
      | yes same ↦ same
      | no different ↦ absurd (
          ground (
            arith,
            uses-two-le-users command r w.writers fd fd' c c' e e' different,
            (reached.writing r).covers,
            (reached.writing r).flag,
          ))
    ]

    -- In every state that the two servers reach from a start with no locks and records within the
    -- limits, whatever commands arrive, every record has no negative amount, and at most 15 objects
    -- in all unless they are 2^31 or more, a sum that an int does not hold.
    pub file-IsStored : (r : ℕ) → IsStored (w.file r)
    file-IsStored r = reached.within r
