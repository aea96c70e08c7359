-- ===== src/Booking/Tests.antt =====
-- Concrete runs of hw1_csiebooking-lala-ju/server.c: commands, and two clients on record 1.
use system_programming_homew.Prelude.{
  ℕ, ◌≤◌, ◌≡◌, ◌≢◌, refl, true, false, List, [], ◌∷◌, some, arith,
}
use system_programming_homew.Prelude.Int.{pos, ◌+ℤ◌, ◌*ℤ◌}
use system_programming_homew.CString.{atoi, signed_decimal}
use system_programming_homew.Booking.Command.{
  Booking, ok, checkcommand, add_digit, negate, end_number, first_byte, later_byte, scan, apply,
  int, weight,
}
use system_programming_homew.Booking.Command.Bounds.{
  IsWithin, IsStored, checkcommand-IsStored, checkcommand-foreign,
}
use system_programming_homew.Booking.Command.Scanned.{Numeral, command, value}
use system_programming_homew.Booking.Command.Format.{book, decide, checkcommand-command}
use system_programming_homew.Booking.Request.{line, checkid, handle_read, bytes, record_of}
use system_programming_homew.Booking.Request.Lines.{handle_read-text, checkid-record_of}

abbrev pub five : Booking
five = record { id = pos 902001; food = pos 5; concert = pos 0; elecs = pos 0 }

abbrev pub six : Booking
six = record { id = pos 902001; food = pos 5; concert = pos 1; elecs = pos 0 }

pub five-IsWithin : IsWithin five
unfolding ◌+ℤ◌
five-IsWithin = record {
  food_ok = omega arith;
  concert_ok = omega arith;
  elecs_ok = omega arith;
  total_ok = omega arith;
}

abbrev pub add_one : List ℕ
add_one = b'0' ∷ b' ' ∷ b'1' ∷ b' ' ∷ b'0' ∷ []

accepted : checkcommand add_one five ≡ ok six
unfolding checkcommand int scan first_byte later_byte add_digit end_number apply ◌+ℤ◌ ◌*ℤ◌
accepted = refl

-- The sum 6 + 2147483640 + 2147483640 + 20 is 10 in an `int`, so the command is accepted.
test_overflow :
    checkcommand
      (b'2' ∷ b'1' ∷ b'4' ∷ b'7' ∷ b'4' ∷ b'8' ∷ b'3' ∷ b'6' ∷ b'4' ∷ b'0' ∷ b' ' ∷ b'2' ∷ b'1'
        ∷ b'4' ∷ b'7' ∷ b'4' ∷ b'8' ∷ b'3' ∷ b'6' ∷ b'4' ∷ b'0' ∷ b' ' ∷ b'2' ∷ b'0' ∷ [])
      (record { id = pos 902001; food = pos 3; concert = pos 0; elecs = pos 3 })
    ≡ ok (record {
      id = pos 902001;
      food = pos 2147483643;
      concert = pos 2147483640;
      elecs = pos 23;
    })
unfolding checkcommand int weight scan first_byte later_byte add_digit end_number apply ◌+ℤ◌ ◌*ℤ◌
test_overflow = refl

checkcommand-IsStored_example : IsStored six × (pos 902001 ≡ pos 902001)
checkcommand-IsStored_example = checkcommand-IsStored add_one five six accepted

checkcommand-foreign_example : checkcommand (b'0' ∷ b'x' ∷ b' ' ∷ b'1' ∷ []) five ≢ ok six
checkcommand-foreign_example =
    checkcommand-foreign (b'0' ∷ []) (b' ' ∷ b'1' ∷ []) b'x' five six
      (refl, ground arith, ground arith)

abbrev digit : ℕ → Numeral
digit d = record { negative = false; last = d; others = [] }

abbrev minus_five : Numeral
minus_five = record { negative = true; last = 5; others = [] }

checkcommand-command_example :
    checkcommand (command minus_five (digit 1) (digit 0)) five
    ≡ decide (book five (value minus_five) (value (digit 1)) (value (digit 0)))
checkcommand-command_example =
    checkcommand-command minus_five (digit 1) (digit 0) five
      (record { are_digits = (omega arith, tt); short = omega arith })
      (record { are_digits = (omega arith, tt); short = omega arith })
      (record { are_digits = (omega arith, tt); short = omega arith }) five-IsWithin

test_command :
    decide (book five (value minus_five) (value (digit 1)) (value (digit 0)))
    ≡ ok (record { id = pos 902001; food = pos 0; concert = pos 1; elecs = pos 0 })
unfolding ◌+ℤ◌
test_command = refl

handle_read-text_example :
    handle_read [] (bytes (b'h' ∷ b'i' ∷ 13 ∷ 10 ∷ b'x' ∷ [])) ≡ some (line (b'h' ∷ b'i' ∷ []))
handle_read-text_example =
    handle_read-text (b'h' ∷ b'i' ∷ []) (b'x' ∷ []) []
      (ground arith, ground arith, ground arith, (ground arith, ground arith, ground arith, tt))
      (omega arith)

abbrev pub id_line : List ℕ
id_line = b'9' ∷ b'0' ∷ b'2' ∷ b'0' ∷ b'0' ∷ b'1' ∷ []

id_ok : checkid id_line ≡ true
unfolding checkid atoi signed_decimal
id_ok = refl

checkid-record_of_example : (1 ≤ record_of id_line) × (record_of id_line ≤ 20)
checkid-record_of_example = checkid-record_of id_line id_ok

-- A minus sign behind the first byte is not refused: `0-2 0 0` counts as -2.
test_minus :
    checkcommand (b'0' ∷ b'-' ∷ b'2' ∷ b' ' ∷ b'0' ∷ b' ' ∷ b'0' ∷ []) five
    ≡ ok (record five { food = pos 3 })
unfolding checkcommand int scan first_byte later_byte add_digit end_number negate apply ◌+ℤ◌ ◌*ℤ◌
test_minus = refl
