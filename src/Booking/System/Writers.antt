-- ===== src/Booking/System/Writers.antt =====
-- hw1_csiebooking-lala-ju/server.c: a client of the write server leaves, and the invariant.
use system_programming_homew.Prelude.{
  ℕ, ◌%◌, ◌≤◌, ◌≡◌, refl, true, List, some, get_elem?, set, arith, ◌≢◌,
}
use system_programming_homew.Booking.Command.{Booking}
use system_programming_homew.Booking.Command.Bounds.{IsStored}
use system_programming_homew.Booking.Locks.{FileLocks, writer, unlocked}
use system_programming_homew.Booking.Clients.{
  Client, exit, command, users, uses, users-set, uses-le-users, shut,
}
use system_programming_homew.Booking.World.{World}
use system_programming_homew.Booking.WriteServer.{release}
use system_programming_homew.Booking.System.Invariant.{Inv, held-other, held-set_lock}

module _ (locks : FileLocks) (w : World locks) (inv : Inv locks w) where
  open locks use {held, set_lock, answer, refused}

  -- A new list of clients, in which no record has more clients in COMMAND, and none in EXIT.
  pub record Fewer (cs : List Client) : Type 0 where
    pub commands : (k : ℕ) → users command k cs ≤ users command k w.writers
    pub exits : (k : ℕ) → users exit k cs ≡ 0

  pub set-Fewer :
      (fd : ℕ) (c c' : Client)
      → get_elem? w.writers fd ≡ some c
      → ((k : ℕ) → uses command k c' ≡ 0)
      → ((k : ℕ) → uses exit k c' ≡ 0)
      → Fewer (set w.writers fd c')
  set-Fewer fd c c' e no_command no_exit = record {
    commands = λ k. omega (arith, users-set command k w.writers fd c c' e, no_command k);
    exits = λ k. omega (arith, users-set exit k w.writers fd c c' e, no_exit k, inv.only_writers k);
  }

  pub put-Inv : (cs : List Client) → Fewer cs → Inv locks (record w { writers = cs })
  put-Inv cs f = record {
    reading = inv.reading;
    writing = λ k. record {
      flag = (inv.writing k).flag;
      covers = omega (arith, f.commands k, (inv.writing k).covers);
      locked = (inv.writing k).locked;
      free = (inv.writing k).free;
    };
    apart = inv.apart;
    only_readers = inv.only_readers;
    only_writers = f.exits;
    within = inv.within;
  }

  -- The record is free, and no client is left in COMMAND on it.
  pub release-Inv :
      (r : ℕ) (cs : List Client) (file : ℕ → Booking)
      → Fewer cs
      → users command r cs ≡ 0
      → ((k : ℕ) → IsStored (file k))
      → Inv locks (record (release locks w r) { writers = cs; file = file })
  unfolding release
  release-Inv r cs file f none_left ok_file = record {
    reading = λ k. rw (held-other locks w.table writer r unlocked k) (inv.reading k);
    writing = λ k. record {
      flag = ground (arith, (inv.writing k).flag);
      covers = ground (arith, (inv.writing k).covers, f.commands k);
      locked =
          ground (arith, (inv.writing k).locked, held-set_lock locks w.table writer r unlocked k);
      free = ground (arith, (inv.writing k).free, held-set_lock locks w.table writer r unlocked k);
    };
    apart = λ k. ground (
      arith,
      inv.apart k,
      held-other locks w.table writer r unlocked k,
      held-set_lock locks w.table writer r unlocked k,
    );
    only_readers = inv.only_readers;
    only_writers = f.exits;
    within = ok_file;
  }

  -- The client that was in COMMAND was the only one.
  pub leaving :
      (fd : ℕ) (c c' : Client)
      → get_elem? w.writers fd ≡ some c
      → c.is_open ≡ true
      → c.state ≡ command
      → uses command (c.id % 100) c' ≡ 0
      → users command (c.id % 100) (set w.writers fd c') ≡ 0
  leaving fd c c' e o st z =
      let i = inv.writing (c.id % 100) in
      ground (arith, users-set command (c.id % 100) w.writers fd c c' e, i.covers, i.flag)

  pub shut-Fewer :
      (fd : ℕ) (c : Client) → get_elem? w.writers fd ≡ some c → Fewer (set w.writers fd (shut c))
  shut-Fewer fd c e = set-Fewer fd c (shut c) e (λ k. refl) (λ k. refl)

  pub no_exit :
      (fd : ℕ) (c : Client) → get_elem? w.writers fd ≡ some c → c.is_open ≡ true → c.state ≢ exit
  no_exit fd c e o st =
      ground
        (arith, uses-le-users exit (c.id % 100) w.writers fd c e, inv.only_writers (c.id % 100))
