-- ===== src/Booking/Request/Lines.antt =====
-- hw1_csiebooking-lala-ju/server.c: `handle_read` and `checkid` on lines of text.
use mathlib.Core.List.{append_assoc}
use system_programming_homew.Prelude.{
  ℕ, ◌+◌, ◌-◌, ◌%◌, ◌<◌, ◌≤◌, ◌≡◌, ◌≢◌, refl, ap, ◌∙◌, Bool, true, false, List, [], ◌∷◌, ◌++◌, some,
  ltb, ◌==◌, length, take-append, take, zero, suc, replicate, arith, if◌then◌else◌, ◌||◌,
}
use system_programming_homew.Prelude.Int.{ℤ, pos, negsuc, pos_part, ltb_ℤ}
use system_programming_homew.CString.{c_str, strstr, starts_with, atoi}
use system_programming_homew.Booking.Request.{
  line, bytes, buf_size, find_line, local_buf, handle_read, checkid, record_of, all_digits,
}

-- A byte that is no NUL, no carriage return and no line feed.
abbrev pub IsText : List ℕ → Type 0
IsText [] = Unit {0}
IsText (c ∷ cs) = (c ≢ 0) × (c ≢ 13) × (c ≢ 10) × IsText cs

c_str-text :
    (body : List ℕ) (rest : List ℕ) → IsText body → c_str (body ++ rest) ≡ body ++ c_str rest
unfolding c_str
c_str-text [] rest h = refl
c_str-text (c ∷ body) rest (h, _, _, t) =
    let no_end : (c == 0) ≡ false = ground arith in rw (no_end, c_str-text body rest t)

strstr-text :
    (body rest : List ℕ)
    → IsText body
    → strstr (body ++ 13 ∷ 10 ∷ rest) (13 ∷ 10 ∷ []) ≡ some (length body)
unfolding strstr starts_with
strstr-text [] rest h = refl
strstr-text (c ∷ body) rest (_, h, _, t) =
    let other : (13 == c) ≡ false = ground arith in rw (other, strstr-text body rest t)

-- What `strstr` sees of an array that begins with a line.
seen : List ℕ → List ℕ → List ℕ → List ℕ
seen body rest beyond =
    c_str (rest ++ (replicate (buf_size - length (body ++ 13 ∷ 10 ∷ rest)) b'0' ++ beyond))

local_buf-text :
    (body rest beyond : List ℕ)
    → IsText body
    → local_buf (body ++ 13 ∷ 10 ∷ rest) beyond ≡ body ++ 13 ∷ 10 ∷ seen body rest beyond
unfolding local_buf c_str seen
local_buf-text body rest beyond h =
    let fill : List ℕ = replicate (buf_size - length (body ++ 13 ∷ 10 ∷ rest)) b'0' ++ beyond in
    ap c_str (append_assoc body (13 ∷ 10 ∷ rest) fill)
    ∙ c_str-text body (13 ∷ 10 ∷ (rest ++ fill)) h

find_line-text :
    (body rest : List ℕ)
    → IsText body
    → length body < buf_size
    → find_line (body ++ 13 ∷ 10 ∷ rest) ≡ some (line body)
unfolding find_line
find_line-text body rest h fits =
    let room : ltb buf_size (length body + 1) ≡ false = ground arith in
    rw (
      strstr-text body rest h,
      room,
      take-append body (13 ∷ 10 ∷ rest) (length body) refl,
      find_line,
    )

-- `read` takes the whole line.
take-line :
    (n : ℕ) (body rest : List ℕ)
    → length body + 2 ≤ n
    → (rest' : List ℕ) × (take n (body ++ 13 ∷ 10 ∷ rest) ≡ body ++ 13 ∷ 10 ∷ rest')
take-line zero body rest fits = absurd (omega arith)
take-line (suc zero) body rest fits = absurd (omega arith)
take-line (suc (suc n)) [] rest fits = (take n rest, refl)
take-line (suc (suc n)) (c ∷ body) rest fits =
    let (rest', same) = take-line (suc n) body rest (omega (arith, fits)) in
    (rest', ap (◌∷◌ c) same)

-- If the bytes that have arrived begin with at most 510 bytes without NUL, carriage return and line
-- feed, and a carriage return with a line feed behind them, then handle_read returns exactly those
-- bytes as the line, whatever comes behind them and whatever the memory behind the array holds.
pub handle_read-text :
    (body rest beyond : List ℕ)
    → IsText body
    → length body + 2 ≤ buf_size
    → handle_read beyond (bytes (body ++ 13 ∷ 10 ∷ rest)) ≡ some (line body)
unfolding handle_read
handle_read-text [] rest beyond h fits =
    let (rest', whole) = take-line buf_size [] rest fits in
    ap (λ bs. find_line (local_buf bs beyond)) whole
    ∙ ap find_line (local_buf-text [] rest' beyond h)
    ∙ find_line-text [] (seen [] rest' beyond) h (omega arith)
handle_read-text (c ∷ body) rest beyond h fits =
    let (rest', whole) = take-line buf_size (c ∷ body) rest fits in
    ap (λ bs. find_line (local_buf bs beyond)) whole
    ∙ ap find_line (local_buf-text (c ∷ body) rest' beyond h)
    ∙ find_line-text (c ∷ body) (seen (c ∷ body) rest' beyond) h (omega (arith, fits))

in_range :
    (z : ℤ)
    → ltb_ℤ z (pos 902_001) ≡ false
    → ltb_ℤ (pos 902_020) z ≡ false
    → (1 ≤ pos_part z % 100) × (pos_part z % 100 ≤ 20)
in_range (pos n) h k = (ground arith, ground arith)
in_range (negsuc n) h k = absurd (ground arith)

-- If checkid accepts a line, then the index that main takes from it, the id modulo 100, is between 1
-- and 20, a place of the array book.
pub checkid-record_of :
    (buf : List ℕ) → checkid buf ≡ true → (1 ≤ record_of buf) × (record_of buf ≤ 20)
unfolding checkid
checkid-record_of buf h =
    in_range (atoi buf) (below (ltb_ℤ (atoi buf) (pos 902_001)) _ (all_digits buf) h)
      (above _ (ltb_ℤ (pos 902_020) (atoi buf)) (all_digits buf) h)
  where
    below :
        (a b d : Bool) → (if d then (if a || b then false else true) else false) ≡ true → a ≡ false
    below a b d e = ground arith

    above :
        (a b d : Bool) → (if d then (if a || b then false else true) else false) ≡ true → b ≡ false
    above a b d e = ground arith
