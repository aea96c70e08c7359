-- ===== src/Threads/Programs/Checked.antt =====
-- hw3_thread-library-lala-ju/threads.c: an `int` that is not negative and fits.
use system_programming_homew.Prelude.{ℕ, ◌<◌, ◌≡◌, some, arith}
use system_programming_homew.Prelude.Int.{pos, int_max}
use system_programming_homew.Threads.Programs.{checked}

pub checked-pos : (n : ℕ) → n < int_max → checked (pos n) ≡ some (pos n)
unfolding checked
checked-pos n h = ground arith
