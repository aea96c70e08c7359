-- ===== src/Threads/Machine.antt =====
-- hw3_thread-library-lala-ju at work: a thread of threads.c runs from the place in its `environment` to the
-- next call of thread_yield, async_read or thread_exit of threadtools.h, which leads to `scheduler`.
pub mod Steps
pub mod Reach
pub mod Fair
pub mod Lines
pub mod Mine
pub mod Alone
pub mod Apart
pub mod Passes
pub mod Outcome
pub mod Falling
pub mod Whole
mod Tests
use system_programming_homew.Prelude.{
  ℕ, zero, suc, ◌+◌, Bool, true, false, List, [], ◌∷◌, ◌++◌, Option, none, some, if◌then◌else◌, set,
  take,
}
use system_programming_homew.Prelude.Int.{ℤ, pos, ◌+ℤ◌}
use system_programming_homew.Threads.Tcb.{Tcb, Queues, Environment, Program}
use system_programming_homew.Threads.Scheduler.{◌>>=◌, deref, interrupted, blocked, exited}
use system_programming_homew.Threads.Programs.{
  checked, is_last, fibonacci_body, collatz_body, max_subarray_body, async_read,
}
use system_programming_homew.Threads.Setup.{init_threads}

-- Where a thread leaves the processor.
pub data Stop : Type 0 where
  yields reads ends : Stop

-- What one turn of a thread does: its control block afterwards, the lines printed, and how it stops.
pub record Pass : Type 0 where
  pub thread : Tcb
  pub printed : List (ℕ × ℤ)
  pub stop : Stop

-- The start of a loop, and its `RUNNING->i++`.
unfoldable pub next_i : Tcb → Option Tcb
next_i t = elim t.environment [
  | Environment.set_up ↦ some (record t { i = pos 1 })
  | _ ↦ (do i ← checked (t.i +ℤ pos 1); some (record t { i = i }))
]

-- The end of a loop's body, after the line with `n`.
abbrev pub end_body : ℤ → Bool → Tcb → Pass
end_body n last t = record {
  thread = if last then t else record t { environment = Environment.yielded };
  printed = (t.id, n) ∷ [];
  stop = if last then Stop.ends else Stop.yields;
}

-- One turn of `fibonacci` or `collatz`, which show `y` or `x`.
unfoldable pub loop_turn : (Tcb → Option (Tcb × Bool)) → (Tcb → ℤ) → Tcb → Option Pass
unfolding next_i
loop_turn body shown t = do
  t' ← next_i t
  done ← body t'
  some (end_body (shown done.0) (done.1) (done.0))

-- One turn of `max_subarray`; `bytes` is what `read` finds, of which it takes 5.
unfoldable pub read_turn : List ℕ → Tcb → Option Pass
unfolding next_i max_subarray_body
read_turn bytes t = elim t.environment [
  | Environment.reading ↦ (do
    t' ← max_subarray_body (async_read (take 5 bytes) t)
    some (end_body t'.sum (is_last t') t'))
  | _ ↦ (do
    t' ← next_i t
    some (record {
      thread = record t' { environment = Environment.reading };
      printed = [];
      stop = Stop.reads;
    }))
]

-- One turn of any thread.
unfoldable pub resume : List ℕ → Tcb → Option Pass
unfolding loop_turn read_turn fibonacci_body collatz_body
resume bytes t = elim t.program [
  | Program.fibonacci ↦ loop_turn fibonacci_body (λ t. t.y) t
  | Program.collatz ↦ loop_turn collatz_body (λ t. t.x) t
  | Program.max_subarray ↦ read_turn bytes t
]

-- What the system does meanwhile: the bytes for the thread, whether a signal is pending at thread_yield,
-- and the answers of both calls of `select`.
pub record Event : Type 0 where
  pub bytes : List ℕ
  pub signalled : Bool
  pub is_set : ℕ → Bool
  pub later : ℕ → Bool

-- `RUNNING` is written back.
abbrev pub put : Tcb → Queues → Queues
put t q = record q { ready_queue = set q.ready_queue q.rq_current (some t) }

-- Behind a turn; `none` among the results is the return to `main`.
unfoldable pub switch : Event → Stop → Queues → Option (Option Queues)
unfolding interrupted blocked exited
switch e Stop.yields q =
    if e.signalled then (do q' ← interrupted e.is_set q; some (some q')) else some (some q)
switch e Stop.reads q = do q' ← blocked e.is_set e.later q; some (some q')
switch e Stop.ends q = do x ← exited e.is_set e.later q; some (if x.1 then none else some (x.0))

-- The running thread's turn, and the scheduler's.
unfoldable pub step : Event → Queues → Option (List (ℕ × ℤ) × Option Queues)
unfolding resume switch
step e q = do
  t ← deref q.ready_queue q.rq_current
  p ← resume e.bytes t
  next ← switch e p.stop (put p.thread q)
  some (p.printed, next)

-- `start_threading`: all lines, and the queues unless the threads have ended.
unfoldable pub run : List Event → Queues → Option (List (ℕ × ℤ) × Option Queues)
unfolding step
run [] q = some ([], some q)
run (e ∷ es) q = do
  now ← step e q
  elim now.1 [
    | none ↦ some (now.0, none)
    | some q' ↦ (do rest ← run es q'; some (now.0 ++ rest.0, rest.1))
  ]
