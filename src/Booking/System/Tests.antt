-- ===== src/Booking/System/Tests.antt =====
-- Concrete runs of hw1_csiebooking-lala-ju/server.c: clients of both servers on record 1.
use system_programming_homew.Prelude.{
  ℕ, ◌≡◌, refl, true, [], ◌∷◌, some, get_elem?, if◌then◌else◌, ◌==◌,
}
use system_programming_homew.Prelude.Int.{◌+ℤ◌, ◌*ℤ◌}
use system_programming_homew.CString.{atoi, signed_decimal}
use system_programming_homew.Booking.Command.{
  Booking, checkcommand, add_digit, end_number, first_byte, later_byte, scan, apply, int,
}
use system_programming_homew.Booking.Command.Bounds.{IsStored}
use system_programming_homew.Booking.Request.{failed, line, checkid}
use system_programming_homew.Booking.Locks.{lock_table, is_process, Process, Lock, unlocked}
use system_programming_homew.Booking.Clients.{Client, Phase, no_client}
use system_programming_homew.Booking.World.{World}
use system_programming_homew.Booking.ReadServer.{
  reader_accept, reader_read, reader_line, reader_ident,
}
use system_programming_homew.Booking.WriteServer.{
  writer_accept, writer_read, writer_line, writer_ident, writer_answer, release,
}
use system_programming_homew.Booking.System.{Step, Reach}
use system_programming_homew.Booking.System.Safety.{IsStart, one_writer, file-IsStored}
use system_programming_homew.Booking.System.Safety
use system_programming_homew.Booking.Tests.{id_line, five, six, five-IsWithin, add_one}

-- One place for a client at each server, all records at five.
abbrev empty : Process → ℕ → Lock
empty p r = unlocked

abbrev files : ℕ → Booking
files r = five

fresh : IsStart lock_table empty files
fresh = record { no_locks = λ p r. refl; good_file = λ r. five-IsWithin }

abbrev first : World lock_table
first = Safety.start lock_table empty files 1

abbrev joined : Client
joined = record { is_open = true; state = Phase.ident; id = 0 }

abbrev viewing : World lock_table
viewing =
    (reader_read lock_table (reader_accept lock_table first 0 no_client).0 0 joined
      (line id_line)).0

abbrev viewer : Client
viewer = record { is_open = true; state = Phase.exit; id = 902001 }

viewer_there : get_elem? viewing.readers 0 ≡ some viewer
unfolding reader_accept reader_read reader_line reader_ident checkid atoi signed_decimal is_process
viewer_there = refl

-- Its read fails; a client of the write server joins.
abbrev broken : World lock_table
broken = (reader_read lock_table viewing 0 viewer failed).0

-- A client of the write server asks for the record meanwhile, and is turned away.
abbrev knocking : World lock_table
knocking = (writer_accept lock_table viewing 0 no_client).0

abbrev turned_away : World lock_table
turned_away = (writer_ident lock_table knocking 0 joined id_line).0

-- A client of the write server alone, which then changes the record.
abbrev asking : World lock_table
asking = (writer_accept lock_table first 0 no_client).0

abbrev changing : World lock_table
changing = (writer_ident lock_table asking 0 joined id_line).0

abbrev changer : Client
changer = record { is_open = true; state = Phase.command; id = 902001 }

to_changing : Reach lock_table first changing
unfolding writer_accept writer_read writer_line
to_changing =
    Reach.next (Reach.next Reach.here (Step.writer_joins 0 no_client refl refl refl))
      (Step.writer_served 0 joined (line id_line) _ refl refl refl)

one_writer_example : ◌≡◌ {A = ℕ} 0 0
unfolding writer_accept writer_ident checkid atoi signed_decimal is_process
one_writer_example =
    one_writer lock_table empty files 1 fresh changing to_changing 1 0 0 changer changer refl refl
      (record { is_open_ok = refl; state_ok = refl; id_ok = refl })
      (record { is_open_ok = refl; state_ok = refl; id_ok = refl })

abbrev changed : World lock_table
changed = record (release lock_table changing 1) {
  file = λ r. if r == 1 then six else five;
  writers = no_client ∷ [];
}

to_changed : Reach lock_table first changed
unfolding writer_accept writer_read writer_line writer_answer writer_ident checkid atoi
    signed_decimal is_process release checkcommand int scan first_byte later_byte add_digit
    end_number apply ◌+ℤ◌ ◌*ℤ◌
to_changed = Reach.next to_changing (Step.writer_served 0 changer (line add_one) _ refl refl refl)

file-IsStored_example : IsStored six
file-IsStored_example = file-IsStored lock_table empty files 1 fresh changed to_changed 1
