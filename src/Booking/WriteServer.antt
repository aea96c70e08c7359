-- ===== src/Booking/WriteServer.antt =====
-- hw1_csiebooking-lala-ju/server.c, `main` built with WRITE_SERVER: what it does for a new connection
-- and for each return value of `handle_read`.
use system_programming_homew.Prelude.{
  ℕ, ◌%◌, true, ◌||◌, List, [], ◌∷◌, Option, some, ◌==◌, if◌then◌else◌, set,
}
use mathlib.Core.Bool.{not}
use system_programming_homew.Prelude.Int.{pos_part}
use system_programming_homew.CString.{atoi}
use system_programming_homew.Booking.Command.{
  Booking, Result, ok, err, malformed, over_limit, below_zero, checkcommand,
}
use system_programming_homew.Booking.Request.{Read, failed, closed, line, checkid, record_of}
use system_programming_homew.Booking.Locks.{FileLocks, writer, exclusive, unlocked}
use system_programming_homew.Booking.Clients.{
  Client, Phase, hi, ident, exit, command, shut, Message, enter_id, locked, too_many, too_few,
  bookings_command, updated, update,
}
use system_programming_homew.Booking.World.{World}
use system_programming_homew.Booking.ReadServer.{is_waiting}

module _ (locks : FileLocks) where
  abbrev put_writer : World locks → ℕ → Client → World locks
  put_writer w fd c = record w { writers = set w.writers fd c }

  unfoldable pub writer_accept : World locks → ℕ → Client → World locks × List Message
  writer_accept w fd c =
      (put_writer w fd (record c { is_open = true; state = ident }), enter_id ∷ [])

  -- The record is free again: `samewr[id] = 0` and F_UNLCK.
  unfoldable pub release : World locks → ℕ → World locks
  release w r = record w {
    samewr = update w.samewr r 0;
    table = (locks.set_lock w.table writer r unlocked).0;
  }

  unfoldable pub writer_closed : World locks → ℕ → Client → World locks × List Message
  unfolding release
  writer_closed w fd c =
      let w' = if is_waiting c.state then w else release w (c.id % 100) in
      (put_writer w' fd (shut c), [])

  unfoldable pub writer_ident : World locks → ℕ → Client → List ℕ → World locks × List Message
  writer_ident w fd c buf =
      if checkid buf
      then (let r = record_of buf in
          let asked = locks.set_lock w.table writer r exclusive in
          let w' : World locks = record w { table = asked.0 } in
          if not asked.1 || (w.samewr r == 1)
          then (put_writer w' fd (record (shut c) { state = hi }), locked ∷ [])
          else (
            record w' {
              samewr = update w.samewr r 1;
              writers = set w.writers fd (record c { state = command; id = pos_part (atoi buf) });
            },
            bookings_command (w.file r).food (w.file r).concert (w.file r).elecs ∷ [],
          ))
      else (put_writer w fd (shut c), Message.failed ∷ [])

  -- The answers to a command; all of them end the connection and free the record.
  unfoldable pub writer_answer :
      World locks → ℕ → Client → ℕ → Result Booking → Option (World locks × List Message)
  unfolding release
  writer_answer w fd c r (ok b) = some (
    release
        (record w {
          file = update w.file r b;
          writers = set w.writers fd (record (shut c) { state = hi });
        })
        r,
    updated r b.food b.concert b.elecs ∷ [],
  )
  writer_answer w fd c r (err over_limit) =
      some (release (put_writer w fd (shut c)) r, too_many ∷ [])
  writer_answer w fd c r (err below_zero) =
      some (release (put_writer w fd (shut c)) r, too_few ∷ [])
  writer_answer w fd c r (err malformed) =
      some (release (put_writer w fd (shut c)) r, Message.failed ∷ [])

  unfoldable pub writer_line :
      World locks → ℕ → Client → Phase → List ℕ → Option (World locks × List Message)
  unfolding writer_ident writer_answer
  writer_line w fd c ident buf = some (writer_ident w fd c buf)
  writer_line w fd c command buf =
      let r = c.id % 100 in writer_answer w fd c r (checkcommand buf (w.file r))
  writer_line w fd c hi buf = some (w, [])
  writer_line w fd c exit buf = some (w, [])

  unfoldable pub writer_read : World locks → ℕ → Client → Read → Option (World locks × List Message)
  unfolding writer_closed writer_line
  writer_read w fd c failed = some (put_writer w fd (shut c), [])
  writer_read w fd c closed = some (writer_closed w fd c)
  writer_read w fd c (line buf) = writer_line w fd c c.state buf
