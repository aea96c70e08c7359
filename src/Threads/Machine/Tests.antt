-- ===== src/Threads/Machine/Tests.antt =====
-- Concrete turns of the threads of hw3_thread-library-lala-ju.
use system_programming_homew.Prelude.{
  ℕ, ◌+◌, ◌≡◌, ◌≤◌, refl, true, false, [], ◌∷◌, ◌++◌, Option, none, some, length, replicate,
  ℕ_discrete, arith,
}
use system_programming_homew.Prelude.Int.{pos, negsuc, ◌+ℤ◌}
use system_programming_homew.CString.{atoi, signed_decimal, decimal, to_int}
use system_programming_homew.Threads.Tcb.{Tcb, Queues, Environment, Program}
use system_programming_homew.Threads.Scheduler.{deref}
use system_programming_homew.Threads.Scheduler.Arrays.{represent}
use system_programming_homew.Threads.Scheduler.Schedule.{Schedule, threads, Represents, IsRunning}
use system_programming_homew.Threads.Scheduler.Running.{running}
use system_programming_homew.Threads.Setup.{new_tcb}
use system_programming_homew.Threads.Programs.{collatz, collatz_body, checked}
use system_programming_homew.Threads.Programs.Collatz.{
  value, orbit, Falls, collatz_next, collatz-prints, collatz-zero,
}
use system_programming_homew.Threads.Machine.{Pass, Stop, Event, step, resume, run}
use system_programming_homew.Threads.Machine.Steps.{GoesOn, step-GoesOn}
use system_programming_homew.Threads.Machine.Reach.{Turns, here, more, main-IsRunning}
use system_programming_homew.Threads.Machine.Lines.{lines_of}
use system_programming_homew.Threads.Machine.Alone.{Alone}
use system_programming_homew.Threads.Machine.Mine.{mine}
use system_programming_homew.Threads.Machine.Apart.{lines, Turns-Alone}
use system_programming_homew.Threads.Machine.Whole.{main-fibs, main-orbit}
use system_programming_homew.Threads.Programs.Fibonacci.{fib, fibs}
use system_programming_homew.Threads.Setup.{init_threads}

-- fibonacci of 2 runs, and max_subarray of 1 is ready.
abbrev fib_two : Tcb
fib_two = new_tcb 0 Program.fibonacci (pos 2) 3 []

abbrev sub : Tcb
sub = new_tcb 2 Program.max_subarray (pos 1) 5 []

abbrev two : Queues
two = represent (fib_two ∷ sub ∷ []) 14 0 [] 16

two-Represents : Represents two (running [] fib_two (sub ∷ []) [])
two-Represents = record {
  pad = 14;
  wpad = 16;
  arrays = refl;
  ready_places = refl;
  wait_places = refl;
  few = omega arith;
}

-- A signal is pending, and every descriptor can be read.
abbrev alarm : Event
alarm = record { bytes = b'7' ∷ 10 ∷ []; signalled = true; is_set = λ fd. true; later = λ fd. true }

abbrev first_pass : Pass
first_pass = record {
  thread = record fib_two { environment = Environment.yielded; i = pos 1; x = pos 1; y = pos 1 };
  printed = (0, pos 1) ∷ [];
  stop = Stop.yields;
}

fib-resumes : resume [] fib_two ≡ some first_pass
unfolding resume
fib-resumes = refl

step-GoesOn_example :
    (next : Option Queues) × (step alarm two ≡ some ((0, pos 1) ∷ [], next))
    × GoesOn ((first_pass.thread ∷ sub ∷ []) ++ []) next
unfolding resume
step-GoesOn_example =
    step-GoesOn alarm [] (sub ∷ []) [] fib_two first_pass two two-Represents refl tt

-- The same queues after a turn.
abbrev two' : Queues
two' = represent (first_pass.thread ∷ sub ∷ []) 14 1 [] 16

first_turn : step alarm two ≡ some (first_pass.printed, some two')
unfolding step
first_turn = refl

two-Turns : Turns two two'
unfolding resume
two-Turns = more alarm fib_two first_pass here refl refl tt first_turn

-- `main` with the arguments 2, -1 and 1.
abbrev empty : Queues
empty = represent [] 16 0 [] 16

empty-Represents : Represents empty (record { ready = []; current = 0; waiting = [] })
empty-Represents = record {
  pad = 16;
  wpad = 16;
  arrays = refl;
  ready_places = refl;
  wait_places = refl;
  few = omega arith;
}

made_two : init_threads (λ n. n + 3) (λ n. []) (pos 2) (negsuc 0) (pos 1) empty ≡ some two
unfolding init_threads
made_two = refl

main-IsRunning_example :
    (s : Schedule) × (t : Tcb) × Represents two' s
    × IsRunning s
    × (deref two'.ready_queue two'.rq_current ≡ some t)
    × (length (threads s) ≤ 3)
main-IsRunning_example =
    main-IsRunning (λ n. n + 3) (λ n. []) (pos 2) (negsuc 0) (pos 1) empty two two' empty-Represents
      refl made_two two-Turns

-- Four turns: fibonacci, max_subarray waits, fibonacci ends, max_subarray reads 7 and ends.
test_run : run (replicate 4 alarm) two ≡ some ((0, pos 1) ∷ (0, pos 1) ∷ (2, pos 7) ∷ [], none)
unfolding run checked ◌+ℤ◌ atoi signed_decimal decimal to_int
test_run = refl

-- `main` with the arguments 1, -1 and 1: fibonacci ends, max_subarray waits, reads 7 and ends.
abbrev fib_one : Tcb
fib_one = new_tcb 0 Program.fibonacci (pos 1) 3 []

abbrev started : Queues
started = represent (fib_one ∷ sub ∷ []) 14 0 [] 16

abbrev fib_pass : Pass
fib_pass = record {
  thread = record fib_one { i = pos 1; x = pos 1; y = pos 1 };
  printed = (0, pos 1) ∷ [];
  stop = Stop.ends;
}

abbrev wait_pass : Pass
wait_pass = record {
  thread = record sub { environment = Environment.reading; i = pos 1 };
  printed = [];
  stop = Stop.reads;
}

abbrev read_pass : Pass
read_pass = record {
  thread = record wait_pass.thread { buf = b'7' ∷ 10 ∷ []; x = pos 7; y = pos 7; sum = pos 7 };
  printed = (2, pos 7) ∷ [];
  stop = Stop.ends;
}

abbrev fib_gone : Queues
fib_gone = represent (sub ∷ []) 15 0 [] 16

abbrev sub_reads : Queues
sub_reads = represent (wait_pass.thread ∷ []) 15 0 [] 16

three_turns : Turns started sub_reads
unfolding resume step
three_turns =
    more alarm sub wait_pass (more alarm fib_one fib_pass here refl refl (λ h. omega arith) refl)
      refl refl (λ h. omega arith) refl

last_turn : resume alarm.bytes wait_pass.thread ≡ some read_pass
unfolding resume checked ◌+ℤ◌ atoi signed_decimal decimal to_int
last_turn = refl

all_over : step alarm sub_reads ≡ some (read_pass.printed, none)
unfolding step resume checked ◌+ℤ◌ atoi signed_decimal decimal to_int
all_over = refl

only_sub : mine 2 (threads (running [] fib_one (sub ∷ []) [])) ≡ sub ∷ []
unfolding ℕ_discrete
only_sub = refl

Turns-Alone_example :
    (thread : Tcb) × Alone sub (lines_of 2 (lines three_turns ++ (2, pos 7) ∷ [])) thread false
Turns-Alone_example =
    Turns-Alone sub started sub_reads (running [] fib_one (sub ∷ []) []) three_turns alarm
      wait_pass.thread read_pass
      (record {
        pad = 14;
        wpad = 16;
        arrays = refl;
        ready_places = refl;
        wait_places = refl;
        few = omega arith;
      })
      (omega arith) only_sub refl last_turn (λ h none_waits. omega arith) all_over

started_by_main :
    init_threads (λ n. n + 3) (λ n. []) (pos 1) (negsuc 0) (pos 1) empty ≡ some started
unfolding init_threads
started_by_main = refl

main-fibs_example : lines_of 0 (lines three_turns ++ (2, pos 7) ∷ []) ≡ fibs 1 1
unfolding fib
main-fibs_example =
    main-fibs (λ n. n + 3) (λ n. []) (pos 1) (negsuc 0) (pos 1) empty started sub_reads three_turns
      alarm wait_pass.thread read_pass empty-Represents started_by_main refl last_turn
      (λ h none_waits. omega arith) all_over 0 refl (omega arith) (omega arith)

-- `main` with the arguments -1, 4 and -1: collatz shows 2, then 1, and ends.
abbrev col_four : Tcb
col_four = new_tcb 1 Program.collatz (pos 4) 4 []

abbrev halved_pass : Pass
halved_pass = record {
  thread = record col_four { environment = Environment.yielded; i = pos 1; x = pos 2 };
  printed = (1, pos 2) ∷ [];
  stop = Stop.yields;
}

abbrev end_pass : Pass
end_pass = record {
  thread = record halved_pass.thread { i = pos 2; x = pos 1 };
  printed = (1, pos 1) ∷ [];
  stop = Stop.ends;
}

abbrev col_starts : Queues
col_starts = represent (col_four ∷ []) 15 0 [] 16

abbrev col_yielded : Queues
col_yielded = represent (halved_pass.thread ∷ []) 15 0 [] 16

col_started :
    init_threads (λ n. n + 3) (λ n. []) (negsuc 0) (pos 4) (negsuc 0) empty ≡ some col_starts
unfolding init_threads
col_started = refl

one_turn : Turns col_starts col_yielded
unfolding resume step
one_turn = more alarm col_four halved_pass here refl refl tt refl

second_turn : resume alarm.bytes halved_pass.thread ≡ some end_pass
unfolding resume checked ◌+ℤ◌
second_turn = refl

col_over : step alarm col_yielded ≡ some (end_pass.printed, none)
unfolding step resume checked ◌+ℤ◌
col_over = refl

four-Falls : Falls 1 4
unfolding Falls collatz_next
four-Falls = (omega arith, omega arith, refl)

main-orbit_example : lines_of 1 (lines one_turn ++ (1, pos 1) ∷ []) ≡ orbit 2 4
main-orbit_example =
    main-orbit (λ n. n + 3) (λ n. []) (negsuc 0) (pos 4) (negsuc 0) empty col_starts col_yielded
      one_turn alarm halved_pass.thread end_pass empty-Represents col_started refl second_turn
      (λ h none_waits. omega arith) col_over 1 4 refl (omega arith) four-Falls

-- collatz of 8: 4, 2, 1.
abbrev col : ℕ → Tcb
col n = record (new_tcb 1 Program.collatz (pos n) 4 []) { i = pos 1 }

test_collatz_prints : collatz 3 (col 8) ≡ some (pos 4 ∷ pos 2 ∷ pos 1 ∷ [])
unfolding orbit Falls collatz_next
test_collatz_prints =
    collatz-prints 2 8 (col 8) refl refl (omega arith)
      (omega arith, omega arith, (omega arith, omega arith, refl))

collatz-zero_example :
    (collatz_body (col 0) ≡ some (col 0, false))
    × (value (record (col 0) { i = pos 2 }) ≡ pos 0)
    × (collatz 9 (col 0) ≡ none)
collatz-zero_example = collatz-zero 9 (col 0) (pos 2) refl refl
