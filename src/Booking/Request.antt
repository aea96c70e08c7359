-- ===== src/Booking/Request.antt =====
-- hw1_csiebooking-lala-ju/server.c: `handle_read`, which takes a line from a client, and `checkid`.
pub mod Lines
use system_programming_homew.Prelude.{
  ℕ, ◌+◌, ◌-◌, ◌%◌, ◌≡◌, refl, Bool, true, false, ◌&&◌, ◌||◌, List, [], ◌∷◌, ◌++◌, Option, none,
  some, ltb, if◌then◌else◌, length, take, replicate,
}
use system_programming_homew.Prelude.Int.{pos, ltb_ℤ, pos_part}
use system_programming_homew.CString.{c_str, starts_with, strstr, is_digit, atoi}

abbrev pub buf_size : ℕ
buf_size = 512

-- What is there for `read` on the socket: an error, or the bytes that have arrived (none at the end of
-- input), of which it takes the first `buf_size` at most.
pub data Arrival : Type 0 where
  failure : Arrival
  bytes : List ℕ → Arrival

-- The return values -1, 0 and 1; the last comes with the request's new `buf`.
pub data Read : Type 0 where
  failed closed : Read
  line : List ℕ → Read

-- The local array with the bytes read, as `strstr` sees it: it is filled with the digit '0', not with NUL, so the search
-- runs on into `beyond`, the memory behind the array.
unfoldable pub local_buf : List ℕ → List ℕ → List ℕ
local_buf bs beyond = c_str (bs ++ (replicate (buf_size - length bs) b'0' ++ beyond))

-- The line in front of place `p`; a copy past the end of the request's `buf` is no behaviour at all.
abbrev pub copy_line : List ℕ → ℕ → Option Read
copy_line buf p = if ltb buf_size (p + 1) then none else some (line (take p buf))

unfoldable pub find_line : List ℕ → Option Read
find_line buf = elim (strstr buf (13 ∷ 10 ∷ [])) [
  | some p ↦ copy_line buf p
  | none ↦ elim (strstr buf (10 ∷ [])) [
    | some p ↦ copy_line buf p
    | none ↦ if starts_with (0xff ∷ 0xf4 ∷ []) buf then some closed else none
  ]
]

-- `none`: the process ends by `ERR_EXIT`, or has written out of bounds.
unfoldable pub handle_read : List ℕ → Arrival → Option Read
unfolding find_line local_buf
handle_read beyond failure = some failed
handle_read beyond (bytes []) = some closed
handle_read beyond (bytes (c ∷ cs)) = find_line (local_buf (take buf_size (c ∷ cs)) beyond)

abbrev pub all_digits : List ℕ → Bool
all_digits [] = true
all_digits (c ∷ cs) = is_digit c && all_digits cs

unfoldable pub checkid : List ℕ → Bool
checkid buf =
    if all_digits buf
    then (let idnum = atoi buf in
        if ltb_ℤ idnum (pos 902001) || ltb_ℤ (pos 902020) idnum then false else true)
    else false

-- `id % 100`, the index of the record.
abbrev pub record_of : List ℕ → ℕ
record_of buf = pos_part (atoi buf) % 100

test_read : handle_read [] (bytes (b'h' ∷ b'i' ∷ 13 ∷ 10 ∷ [])) ≡ some (line (b'h' ∷ b'i' ∷ []))
unfolding handle_read c_str strstr starts_with
test_read = refl
