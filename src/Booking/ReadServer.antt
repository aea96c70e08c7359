-- ===== src/Booking/ReadServer.antt =====
-- hw1_csiebooking-lala-ju/server.c, `main` built with READ_SERVER: what it does for a new connection
-- and for each return value of `handle_read`.
use system_programming_homew.Prelude.{
  ℕ, ◌+◌, ◌%◌, Bool, true, false, List, [], ◌∷◌, ◌==◌, if◌then◌else◌, set,
}
use system_programming_homew.Prelude.Int.{ℤ, pos, negsuc, ◌+ℤ◌, pos_part, neg_part}
use system_programming_homew.CString.{c_str, atoi, Sign, strcmp}
use system_programming_homew.Booking.Request.{Read, failed, closed, line, checkid, record_of}
use system_programming_homew.Booking.Locks.{FileLocks, reader, shared, unlocked}
use system_programming_homew.Booking.Clients.{
  Client, Phase, hi, ident, exit, command, shut, Message, enter_id, locked, bookings_exit, update,
}
use system_programming_homew.Booking.World.{World}

abbrev pub exit_word : List ℕ
exit_word = b'E' ∷ b'x' ∷ b'i' ∷ b't' ∷ []

abbrev pub is_zero : ℤ → Bool
is_zero z = pos_part z + neg_part z == 0

abbrev pub is_same : Sign → Bool
is_same Sign.same = true
is_same Sign.less = false
is_same Sign.more = false

-- The text of the two branches that a client meets before it has given its id.
abbrev pub is_waiting : Phase → Bool
is_waiting hi = true
is_waiting ident = true
is_waiting exit = false
is_waiting command = false

module _ (locks : FileLocks) where
  -- `clients[fd]` becomes `c`.
  abbrev put_reader : World locks → ℕ → Client → World locks
  put_reader w fd c = record w { readers = set w.readers fd c }

  -- A connection that `accept` returns; the id is the one of the client before.
  unfoldable pub reader_accept : World locks → ℕ → Client → World locks × List Message
  reader_accept w fd c =
      (put_reader w fd (record c { is_open = true; state = ident }), enter_id ∷ [])

  -- One client fewer looks at record `r`; the last one gives the lock back.
  unfoldable pub leave : World locks → ℕ → World locks
  leave w r =
      let n = w.readlc r +ℤ negsuc 0 in
      let w' : World locks = record w { readlc = update w.readlc r n } in
      if is_zero n then record w' { table = (locks.set_lock w.table reader r unlocked).0 } else w'

  unfoldable pub reader_closed : World locks → ℕ → Client → World locks × List Message
  unfolding leave
  reader_closed w fd c =
      let w' = if is_waiting c.state then w else leave w (c.id % 100) in
      (put_reader w' fd (shut c), [])

  unfoldable pub reader_ident : World locks → ℕ → Client → List ℕ → World locks × List Message
  reader_ident w fd c buf =
      if checkid buf
      then (let r = record_of buf in
          let asked = locks.set_lock w.table reader r shared in
          let w' : World locks = record w { table = asked.0 } in
          if asked.1
          then (
            record w' {
              readlc = update w.readlc r (w.readlc r +ℤ pos 1);
              readers = set w.readers fd (record c { state = exit; id = pos_part (atoi buf) });
            },
            bookings_exit (w.file r).food (w.file r).concert (w.file r).elecs ∷ [],
          )
          else (put_reader w' fd (record (shut c) { state = hi }), locked ∷ []))
      else (put_reader w fd (shut c), Message.failed ∷ [])

  unfoldable pub reader_exit : World locks → ℕ → Client → List ℕ → World locks × List Message
  unfolding leave
  reader_exit w fd c buf =
      if is_same (strcmp (c_str buf) exit_word)
      then (put_reader (leave w (c.id % 100)) fd (record (shut c) { state = hi }), [])
      else (w, [])

  unfoldable pub reader_line :
      World locks → ℕ → Client → Phase → List ℕ → World locks × List Message
  unfolding reader_ident reader_exit
  reader_line w fd c ident buf = reader_ident w fd c buf
  reader_line w fd c exit buf = reader_exit w fd c buf
  reader_line w fd c hi buf = (w, [])
  reader_line w fd c command buf = (w, [])

  -- The branches on what `handle_read` returned; a failed read gives nothing back.
  unfoldable pub reader_read : World locks → ℕ → Client → Read → World locks × List Message
  unfolding reader_closed reader_line
  reader_read w fd c failed = (put_reader w fd (shut c), [])
  reader_read w fd c closed = reader_closed w fd c
  reader_read w fd c (line buf) = reader_line w fd c c.state buf
