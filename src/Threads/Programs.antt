-- ===== src/Threads/Programs.antt =====
-- hw3_thread-library-lala-ju/threads.c: what a thread does from one `thread_yield` to the next, on its
-- own control block; `none` is an `int` operation that overflows.
pub mod Checked
pub mod Kadane
pub mod Fibonacci
pub mod Collatz
use system_programming_homew.Prelude.{
  ℕ, zero, suc, Bool, true, false, List, [], ◌∷◌, ◌++◌, Option, none, some, if◌then◌else◌, length,
  drop, ◌+◌, ◌/◌, ◌%◌, ◌==◌,
}
use system_programming_homew.Prelude.Int.{
  ℤ, pos, sub_ℕ, ◌+ℤ◌, ◌*ℤ◌, ltb_ℤ, leb_ℤ, fits_int, pos_part, neg_part,
}
use system_programming_homew.CString.{atoi}
use system_programming_homew.Threads.Tcb.{Tcb}
use system_programming_homew.Threads.Scheduler.{◌>>=◌}

-- The value of an `int` expression.
unfoldable pub checked : ℤ → Option ℤ
checked z = if fits_int z then some z else none

-- `RUNNING->i == RUNNING->arg`.
abbrev pub is_last : Tcb → Bool
is_last t = pos_part t.i + neg_part t.arg == pos_part t.arg + neg_part t.i

-- The body of the loop of `fibonacci`, and whether the thread then ends.
unfoldable pub fibonacci_body : Tcb → Option (Tcb × Bool)
fibonacci_body t = do
  t' ←
      (if leb_ℤ t.i (pos 2)
        then some (record t { x = pos 1; y = pos 1 })
        else (do y ← checked (t.x +ℤ t.y); some (record t { y = y; x = t.y })))
  some (t', is_last t')

-- What `fibonacci` prints, from some `i` on; `none` also when the fuel runs out.
unfoldable pub fibonacci : ℕ → Tcb → Option (List ℤ)
unfolding fibonacci_body
fibonacci zero t = none
fibonacci (suc fuel) t = do
  done ← fibonacci_body t
  rest ← elim (done.1) [
    | true ↦ some []
    | false ↦ (do i ← checked (done.0.i +ℤ pos 1); fibonacci fuel (record (done.0) { i = i }))
  ]
  some (done.0.y ∷ rest)

-- `== 1`, `% 2 == 0`, and `/ 2`, which rounds towards 0.
abbrev pub is_one : ℤ → Bool
is_one z = pos_part z == neg_part z + 1

abbrev pub is_even : ℤ → Bool
is_even z = (pos_part z + neg_part z) % 2 == 0

abbrev pub halved : ℤ → ℤ
halved z = sub_ℕ (pos_part z / 2) (neg_part z / 2)

-- The next `x`.
unfoldable pub collatz_value : ℤ → Option ℤ
unfolding checked
collatz_value from =
    if is_even from
    then some (halved from)
    else (do tripled ← checked (from *ℤ pos 3); checked (tripled +ℤ pos 1))

-- The body of the loop of `collatz`, and whether the thread then ends.
unfoldable pub collatz_body : Tcb → Option (Tcb × Bool)
unfolding collatz_value
collatz_body t = do
  x ← collatz_value (if is_one t.i then t.arg else t.x)
  some (record t { x = x }, is_one x)

-- What `collatz` prints, from some `i` on; `none` also when the fuel runs out.
unfoldable pub collatz : ℕ → Tcb → Option (List ℤ)
unfolding collatz_body
collatz zero t = none
collatz (suc fuel) t = do
  done ← collatz_body t
  rest ← elim (done.1) [
    | true ↦ some []
    | false ↦ (do i ← checked (done.0.i +ℤ pos 1); collatz fuel (record (done.0) { i = i }))
  ]
  some (done.0.x ∷ rest)

-- `async_read`, when the scheduler comes back to it: the bytes lie over the old ones.
abbrev pub async_read : List ℕ → Tcb → Tcb
async_read bytes t = record t { buf = bytes ++ drop (length bytes) t.buf }

-- The body of the loop of `max_subarray` once its bytes are there.
unfoldable pub max_subarray_body : Tcb → Option Tcb
max_subarray_body t = do
  let x = atoi t.buf
  both ← checked (x +ℤ t.y)
  let y = if ltb_ℤ x both then both else x
  some (record t { x = x; y = y; sum = if ltb_ℤ t.sum y then y else t.sum })

-- `max_subarray` on the bytes of its reads, one after the other.
unfoldable pub max_subarray : List (List ℕ) → Tcb → Option Tcb
unfolding max_subarray_body
max_subarray [] t = some t
max_subarray (bytes ∷ reads) t = do
  t' ← max_subarray_body (async_read bytes t)
  max_subarray reads t'
