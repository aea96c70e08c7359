-- ===== src/Threads/Tests.antt =====
-- Concrete runs of hw3_thread-library-lala-ju/scheduler.c on three threads.
use mathlib.Core.List.{Perm}
use system_programming_homew.Prelude.{
  ◌+◌, take, drop, ℕ, ◌≡◌, refl, Bool, true, false, List, [], ◌∷◌, ◌++◌, some, arith,
}
use system_programming_homew.Prelude.Int.{pos, negsuc, ◌≤ℤ◌}
use system_programming_homew.Threads.Tcb.{Tcb, Queues, Environment, Program}
use system_programming_homew.CString.{atoi, signed_decimal}
use system_programming_homew.Threads.Setup.{new_tcb, init_threads, init_threads-Represents}
use system_programming_homew.Threads.Programs.{fibonacci, max_subarray}
use system_programming_homew.Threads.Programs.Fibonacci.{fib, fibonacci-prints}
use system_programming_homew.Threads.Programs.Kadane.{AreSmall, total, numbers, max_subarray_lem}
use system_programming_homew.Threads.Scheduler.{interrupted, blocked, exited, reorderwaiting}
use system_programming_homew.Threads.Scheduler.Arrays.{represent}
use system_programming_homew.Threads.Scheduler.Reorder.{reorderwaiting-split}
use system_programming_homew.Threads.Scheduler.Schedule.{
  Schedule, threads, Represents, IsRunning, wake, turn, interrupted-turn,
}
use system_programming_homew.Threads.Scheduler.Rows.{go_on}
use system_programming_homew.Threads.Scheduler.Switch.{blocked-go_on, exited-go_on, exited-last}

-- Thread `n`, which reads from descriptor `n`.
abbrev thread : ℕ → Tcb
thread n = record {
  id = n;
  program = Program.max_subarray;
  environment = Environment.set_up;
  arg = pos 2;
  fd = n;
  buf = [];
  i = pos 0;
  x = pos 0;
  y = pos 0;
  sum = pos 0;
}

-- Threads 0 and 1 are ready, 1 runs, and 2 waits.
abbrev ready_two : List Tcb
ready_two = thread 0 ∷ thread 1 ∷ []

abbrev three : Queues
three = represent ready_two 14 1 (thread 2 ∷ []) 15

abbrev plan : Schedule
plan = record { ready = ready_two; current = 1; waiting = thread 2 ∷ [] }

three-Represents : Represents three plan
three-Represents = record {
  pad = 14;
  wpad = 15;
  arrays = refl;
  ready_places = refl;
  wait_places = refl;
  few = omega arith;
}

abbrev every : ℕ → Bool
every fd = true

abbrev no_one : ℕ → Bool
no_one fd = false

reorderwaiting-split_example :
    reorderwaiting every three ≡ some (represent (ready_two ++ thread 2 ∷ []) 13 1 [] 16)
reorderwaiting-split_example =
    reorderwaiting-split every ready_two (thread 2 ∷ []) 14 1 15 (omega arith)

interrupted-turn_example :
    (q' : Queues) × (interrupted every three ≡ some q')
    × Represents q' (turn (wake every plan))
    × IsRunning (turn (wake every plan))
    × Perm (threads (turn (wake every plan))) (threads plan)
interrupted-turn_example = interrupted-turn every three plan three-Represents (omega arith)

blocked-go_on_example :
    (q' : Queues) × (blocked no_one every three ≡ some q')
    × (let s' : Schedule = go_on every (thread 0 ∷ []) [] (thread 2 ∷ thread 1 ∷ []) in
        Represents q' s' × IsRunning s' × Perm (threads s') (threads plan))
blocked-go_on_example =
    blocked-go_on no_one every (thread 0 ∷ []) [] (thread 2 ∷ []) (thread 1) three three-Represents
      (λ e. omega arith)

exited-go_on_example :
    (q' : Queues) × (exited no_one every three ≡ some (q', false))
    × (let s' : Schedule = go_on every (thread 0 ∷ []) [] (thread 2 ∷ []) in
        Represents q' s' × IsRunning s' × Perm (threads s') (thread 0 ∷ thread 2 ∷ []))
exited-go_on_example =
    exited-go_on no_one every (thread 0 ∷ []) [] (thread 2 ∷ []) (thread 1) three three-Represents
      (omega arith) (λ e. omega arith)

abbrev only : Queues
only = represent (thread 2 ∷ []) 15 0 [] 16

test_exited_last : (q' : Queues) × (exited every every only ≡ some (q', true))
test_exited_last = exited-last every every (thread 2) only (record {
  pad = 15;
  wpad = 16;
  arrays = refl;
  ready_places = refl;
  wait_places = refl;
  few = omega arith;
})

-- Thread 0 as `fibonacci` of 5 at its first pass.
abbrev counting : Tcb
counting = record (thread 0) { i = pos 1; arg = pos 5 }

fibonacci-prints_example : fibonacci 5 counting ≡ some (pos 1 ∷ pos 1 ∷ pos 2 ∷ pos 3 ∷ pos 5 ∷ [])
unfolding fib
fibonacci-prints_example = fibonacci-prints 4 counting refl refl (omega arith) (omega arith)

-- The numbers 3, -4 and 5.
abbrev reads : List (List ℕ)
reads = (b'3' ∷ 10 ∷ []) ∷ (b'-' ∷ b'4' ∷ []) ∷ (b'5' ∷ 10 ∷ []) ∷ []

reads-AreSmall : AreSmall reads []
unfolding atoi signed_decimal
reads-AreSmall =
    ((omega arith, omega arith), ((omega arith, omega arith), ((omega arith, omega arith), tt)))

max_subarray_lem_example :
    (t' : Tcb) × (max_subarray reads (thread 0) ≡ some t')
    × ((m k : ℕ) → total (take k (drop m (numbers reads [] []))) ≤ℤ t'.sum)
    × ((m : ℕ) × (k : ℕ) × (t'.sum ≡ total (take k (drop m (numbers reads [] [])))))
max_subarray_lem_example = max_subarray_lem reads (thread 0) refl refl (omega arith) reads-AreSmall

-- Threads for fibonacci and max_subarray, and none for collatz.
init_threads-Represents_example :
    (q' : Queues) × (init_threads
        (λ n. n + 3)
        (λ n. [])
        (pos 5)
        (negsuc 0)
        (pos 2)
        (represent [] 16 0 [] 16)
      ≡ some q')
    × Represents q' (record {
      ready =
          new_tcb 0 Program.fibonacci (pos 5) 3 []
          ∷ new_tcb 2 Program.max_subarray (pos 2) 5 []
          ∷ [];
      current = 0;
      waiting = [];
    })
init_threads-Represents_example =
    init_threads-Represents (λ n. n + 3) (λ n. []) (pos 5) (negsuc 0) (pos 2)
      (represent [] 16 0 [] 16)
      (record {
        pad = 16;
        wpad = 16;
        arrays = refl;
        ready_places = refl;
        wait_places = refl;
        few = omega arith;
      })
