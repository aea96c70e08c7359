-- ===== src/Booking/System/ReaderSteps.antt =====
-- hw1_csiebooking-lala-ju/server.c: the read server's handlers and the invariant.
use system_programming_homew.Prelude.{
  ℕ, ◌+◌, ◌%◌, ◌≤◌, ◌≡◌, refl, true, false, List, some, get_elem?, arith, inl, inr, ◌==◌,
  if◌then◌else◌, Bool-cases,
}
use system_programming_homew.Prelude.Int.{pos, ◌+ℤ◌, pos_part}
use system_programming_homew.CString.{atoi, c_str, strcmp}
use system_programming_homew.Booking.Request.{checkid, record_of, Read, failed, closed, line}
use system_programming_homew.Booking.Locks.{FileLocks, reader, writer, shared}
use system_programming_homew.Booking.Clients.{
  Client, Phase, hi, ident, exit, command, users, users-set, shut, update,
}
use system_programming_homew.Booking.World.{World}
use system_programming_homew.Booking.ReadServer.{
  reader_accept, reader_closed, reader_ident, reader_exit, reader_line, reader_read, is_waiting,
  is_same, exit_word,
}
use system_programming_homew.Booking.System.Invariant.{Inv, held-other, held-set_lock}
use system_programming_homew.Booking.System.Readers.{
  put-Inv, set-Fewer, shut-Fewer, leave-Inv, leave-readers, leaving, no_command, Fewer,
}

pos_succ : (n : ℕ) → pos n +ℤ pos 1 ≡ pos (n + 1)
unfolding ◌+ℤ◌
pos_succ n = ground arith

module _ (locks : FileLocks) (w : World locks) (inv : Inv locks w) where
  open locks use {held, set_lock, answer, refused}

  pub reader_accept-Inv :
      (fd : ℕ) (c : Client)
      → get_elem? w.readers fd ≡ some c
      → Inv locks (reader_accept locks w fd c).0
  unfolding reader_accept
  reader_accept-Inv fd c e =
      put-Inv locks w inv _ (set-Fewer locks w inv fd c _ e (λ k. refl) (λ k. refl))

  reader_closed-Inv :
      (fd : ℕ) (c : Client)
      → get_elem? w.readers fd ≡ some c
      → c.is_open ≡ true
      → Inv locks (reader_closed locks w fd c).0
  unfolding reader_closed
  reader_closed-Inv fd c e o = elim (Bool-cases (is_waiting c.state)) [
    | inl waits ↦ rw waits (put-Inv locks w inv _ (shut-Fewer locks w inv fd c e))
    | inr looks ↦
        let st : c.state ≡ exit = ground (arith, no_command locks w inv fd c e o) in
        rw (looks, leave-readers locks w inv (c.id % 100))
          (leave-Inv locks w inv (c.id % 100) _ (shut-Fewer locks w inv fd c e)
            (leaving locks w inv fd c (shut c) e o st refl))
  ]

  reader_exit-Inv :
      (fd : ℕ) (c : Client) (buf : List ℕ)
      → get_elem? w.readers fd ≡ some c
      → c.is_open ≡ true
      → c.state ≡ exit
      → Inv locks (reader_exit locks w fd c buf).0
  unfolding reader_exit
  reader_exit-Inv fd c buf e o st = elim (Bool-cases (is_same (strcmp (c_str buf) exit_word))) [
    | inl leaves ↦
        rw (leaves, leave-readers locks w inv (c.id % 100))
          (leave-Inv locks w inv (c.id % 100) _
            (set-Fewer locks w inv fd c _ e (λ k. refl) (λ k. refl))
            (leaving locks w inv fd c (record (shut c) { state = hi }) e o st refl))
    | inr stays ↦ rw stays inv
  ]

  -- A refused request changes no lock.
  refused-Inv :
      (r : ℕ) (cs : List Client)
      → (set_lock w.table reader r shared).1 ≡ false
      → Fewer locks w inv cs
      → Inv locks (record w { table = (set_lock w.table reader r shared).0; readers = cs })
  refused-Inv r cs no_lock f = record {
    reading = λ k. rw (refused w.table reader r shared reader k no_lock) (rest.reading k);
    writing = λ k. rw (refused w.table reader r shared writer k no_lock) (rest.writing k);
    apart = λ k.
        rw
          (
            refused w.table reader r shared reader k no_lock,
            refused w.table reader r shared writer k no_lock,
          )
          (inv.apart k);
    only_readers = rest.only_readers;
    only_writers = rest.only_writers;
    within = rest.within;
  }
    where
      rest : Inv locks (record w { readers = cs })
      rest = put-Inv locks w inv cs f

  -- A granted one: one more client looks at record `r`.
  granted-Inv :
      (r : ℕ) (cs : List Client)
      → (set_lock w.table reader r shared).1 ≡ true
      → ((k : ℕ) → users exit k cs ≤ users exit k w.readers + (if k == r then 1 else 0))
      → ((k : ℕ) → users command k cs ≡ 0)
      → Inv locks (record w {
        table = (set_lock w.table reader r shared).0;
        readers = cs;
        readlc = update w.readlc r (w.readlc r +ℤ pos 1);
      })
  granted-Inv r cs has_lock more none_commands = record {
    reading = λ k. record {
      count = (inv.reading k).count + (if k == r then 1 else 0);
      counted = ground (arith, (inv.reading k).counted, pos_succ (inv.reading k).count);
      covers = omega (arith, more k, (inv.reading k).covers);
      locked = ground (
        arith,
        (inv.reading k).locked,
        held-set_lock locks w.table reader r shared k,
        answer w.table reader r shared,
      );
      free = ground (arith, (inv.reading k).free, held-set_lock locks w.table reader r shared k);
    };
    writing = λ k. rw (held-other locks w.table reader r shared k) (inv.writing k);
    apart = λ k. ground (
      arith,
      inv.apart k,
      held-other locks w.table reader r shared k,
      held-set_lock locks w.table reader r shared k,
      answer w.table reader r shared,
    );
    only_readers = none_commands;
    only_writers = inv.only_writers;
    within = inv.within;
  }

  reader_ident-Inv :
      (fd : ℕ) (c : Client) (buf : List ℕ)
      → get_elem? w.readers fd ≡ some c
      → c.state ≡ ident
      → Inv locks (reader_ident locks w fd c buf).0
  unfolding reader_ident
  reader_ident-Inv fd c buf e st = elim (Bool-cases (checkid buf)) [
    | inl good ↦ elim (Bool-cases (set_lock w.table reader (record_of buf) shared).1) [
      | inl has_lock ↦
          rw (good, has_lock)
            (granted-Inv _ _ has_lock
              (λ k. ground (
                arith,
                users-set exit k w.readers fd c
                    (record c { state = exit; id = pos_part (atoi buf) }) e,
              ))
              (λ k. ground (
                arith,
                users-set command k w.readers fd c
                    (record c { state = exit; id = pos_part (atoi buf) }) e,
                inv.only_readers k,
              )))
      | inr no_lock ↦
          rw (good, no_lock)
            (refused-Inv _ _ no_lock (set-Fewer locks w inv fd c _ e (λ k. refl) (λ k. refl)))
    ]
    | inr bad ↦ rw bad (put-Inv locks w inv _ (shut-Fewer locks w inv fd c e))
  ]

  -- What the read server does keeps the invariant, whatever arrives.
  pub reader_read-Inv :
      (fd : ℕ) (c : Client) (r : Read)
      → get_elem? w.readers fd ≡ some c
      → c.is_open ≡ true
      → Inv locks (reader_read locks w fd c r).0
  unfolding reader_read
  reader_read-Inv fd c failed e o = put-Inv locks w inv _ (shut-Fewer locks w inv fd c e)
  reader_read-Inv fd c closed e o = reader_closed-Inv fd c e o
  reader_read-Inv fd c (line buf) e o = by_phase c.state refl
    where
      by_phase : (p : Phase) → c.state ≡ p → Inv locks (reader_line locks w fd c p buf).0
      by_phase hi st = inv
      by_phase ident st = reader_ident-Inv fd c buf e st
      by_phase exit st = reader_exit-Inv fd c buf e o st
      by_phase command st = inv
