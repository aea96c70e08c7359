-- ===== src/Booking/System/Readers.antt =====
-- hw1_csiebooking-lala-ju/server.c: a client of the read server leaves, and the invariant.
use system_programming_homew.Prelude.{
  ℕ, ◌+◌, ◌-◌, ◌%◌, ◌≤◌, ◌<◌, ◌≡◌, refl, true, List, some, get_elem?, set, arith, inl, inr, ◌≢◌,
  ◌==◌, if◌then◌else◌, Bool-cases,
}
use system_programming_homew.Prelude.Int.{pos, negsuc, ◌+ℤ◌}
use system_programming_homew.Booking.Locks.{FileLocks, reader, writer, unlocked, compatible}
use system_programming_homew.Booking.Clients.{
  Client, exit, command, users, uses, users-set, uses-le-users, shut,
}
use system_programming_homew.Booking.World.{World}
use system_programming_homew.Booking.ReadServer.{leave, is_zero}
use system_programming_homew.Booking.System.Invariant.{
  ReaderInv, WriterInv, Inv, held-other, held-set_lock,
}

pos_pred : (n : ℕ) → 0 < n → pos n +ℤ negsuc 0 ≡ pos (n - 1)
unfolding ◌+ℤ◌
pos_pred n h = ground arith

module _ (locks : FileLocks) (w : World locks) (inv : Inv locks w) where
  open locks use {held, set_lock, answer, refused}

  -- `leave`, seen from record `k`: one fewer of `r`, and the lock goes with the last.
  leave-reading :
      (r k before after : ℕ)
      → ReaderInv (held w.table reader k) (w.readlc k) before
      → (k ≡ r → after + 1 ≤ before)
      → (k ≢ r → after ≤ before)
      → ReaderInv (held (leave locks w r).table reader k) ((leave locks w r).readlc k) after
  unfolding leave
  leave-reading r k before after i here there = record {
    count = if k == r then i.count - 1 else i.count;
    counted = ground (arith, pos_pred i.count);
    covers = ground arith;
    locked = ground (arith, pos_pred i.count, held-set_lock locks w.table reader r unlocked k);
    free = ground (arith, pos_pred i.count, held-set_lock locks w.table reader r unlocked k);
  }

  -- A new list of clients, in which no record has more clients that look at it, and none in COMMAND.
  pub record Fewer (cs : List Client) : Type 0 where
    pub exits : (k : ℕ) → users exit k cs ≤ users exit k w.readers
    pub commands : (k : ℕ) → users command k cs ≡ 0

  pub set-Fewer :
      (fd : ℕ) (c c' : Client)
      → get_elem? w.readers fd ≡ some c
      → ((k : ℕ) → uses exit k c' ≡ 0)
      → ((k : ℕ) → uses command k c' ≡ 0)
      → Fewer (set w.readers fd c')
  set-Fewer fd c c' e no_exit no_command = record {
    exits = λ k. omega (arith, users-set exit k w.readers fd c c' e, no_exit k);
    commands = λ k.
        omega (arith, users-set command k w.readers fd c c' e, no_command k, inv.only_readers k);
  }

  pub put-Inv : (cs : List Client) → Fewer cs → Inv locks (record w { readers = cs })
  put-Inv cs f = record {
    reading = λ k. record {
      count = (inv.reading k).count;
      counted = (inv.reading k).counted;
      covers = omega (arith, f.exits k, (inv.reading k).covers);
      locked = (inv.reading k).locked;
      free = (inv.reading k).free;
    };
    writing = inv.writing;
    apart = inv.apart;
    only_readers = f.commands;
    only_writers = inv.only_writers;
    within = inv.within;
  }

  leave-writers : (r : ℕ) → (leave locks w r).writers ≡ w.writers
  unfolding leave
  leave-writers r = ground arith

  pub leave-readers : (r : ℕ) → (leave locks w r).readers ≡ w.readers
  unfolding leave
  leave-readers r = ground arith

  leave-file : (r : ℕ) → (leave locks w r).file ≡ w.file
  unfolding leave
  leave-file r = ground arith

  leave-writing :
      (r k : ℕ)
      → WriterInv (held w.table writer k) (w.samewr k) (users command k w.writers)
      → WriterInv
          (held (leave locks w r).table writer k)
          ((leave locks w r).samewr k)
          (users command k (leave locks w r).writers)
  unfolding leave
  leave-writing r k i = elim (Bool-cases (is_zero (w.readlc r +ℤ negsuc 0))) [
    | inl e ↦ rw (e, held-other locks w.table reader r unlocked k) i
    | inr e ↦ rw e i
  ]

  leave-apart :
      (r k : ℕ)
      → compatible (held w.table writer k) (held w.table reader k) ≡ true
      → compatible (held (leave locks w r).table writer k) (held (leave locks w r).table reader k)
        ≡ true
  unfolding leave
  leave-apart r k i = ground (
    arith,
    held-other locks w.table reader r unlocked k,
    held-set_lock locks w.table reader r unlocked k,
  )

  pub leave-Inv :
      (r : ℕ) (cs : List Client)
      → Fewer cs
      → users exit r cs + 1 ≤ users exit r w.readers
      → Inv locks (record (leave locks w r) { readers = cs })
  unfolding leave
  leave-Inv r cs f less = record {
    reading = λ k.
        leave-reading r k _ (users exit k cs) (inv.reading k) (λ e. rw e less) (λ n. f.exits k);
    writing = λ k. leave-writing r k (inv.writing k);
    apart = λ k. leave-apart r k (inv.apart k);
    only_readers = f.commands;
    only_writers = λ k. rw (leave-writers r) (inv.only_writers k);
    within = λ k. rw (leave-file r) (inv.within k);
  }

  -- A client that is shut, or waits, counts nowhere.
  pub shut-Fewer :
      (fd : ℕ) (c : Client) → get_elem? w.readers fd ≡ some c → Fewer (set w.readers fd (shut c))
  shut-Fewer fd c e = set-Fewer fd c (shut c) e (λ k. refl) (λ k. refl)

  -- One that looks at a record is one of its clients.
  pub leaving :
      (fd : ℕ) (c c' : Client)
      → get_elem? w.readers fd ≡ some c
      → c.is_open ≡ true
      → c.state ≡ exit
      → uses exit (c.id % 100) c' ≡ 0
      → users exit (c.id % 100) (set w.readers fd c') + 1 ≤ users exit (c.id % 100) w.readers
  leaving fd c c' e o st z = ground (arith, users-set exit (c.id % 100) w.readers fd c c' e)

  pub no_command :
      (fd : ℕ) (c : Client) → get_elem? w.readers fd ≡ some c → c.is_open ≡ true → c.state ≢ command
  no_command fd c e o st =
      ground
        (arith, uses-le-users command (c.id % 100) w.readers fd c e, inv.only_readers (c.id % 100))
