-- ===== src/Threads/Scheduler.antt =====
-- hw3_thread-library-lala-ju/scheduler.c: `reorderwaiting` and the cases of `scheduler`. `none` is no
-- behaviour: a NULL pointer is followed, or an array is left.
pub mod Arrays
pub mod Gaps
pub mod Reorder
pub mod Schedule
pub mod Rows
pub mod Leave
pub mod Running
pub mod Switch
use system_programming_homew.Prelude.{
  ℕ, zero, suc, ◌+◌, ◌-◌, Bool, true, false, ◌&&◌, List, [], ◌∷◌, Option, none, some, ◌==◌,
  if◌then◌else◌, ltb, length, get_elem?, set,
}
use system_programming_homew.Threads.Tcb.{Tcb, Slot, Queues}

infixl 5 ◌>>=◌
abbrev pub ◌>>=◌ {ℓ κ} : {A : Type ℓ} {B : Type κ} → Option A → (A → Option B) → Option B
none >>= f = none
some a >>= f = f a

-- A read through the pointer at place `i`, and a write to the array.
abbrev pub deref : List Slot → ℕ → Option Tcb
deref slots i = elim (get_elem? slots i) [ none ↦ none | some s ↦ s ]

abbrev pub store : List Slot → ℕ → Slot → Option (List Slot)
store slots i s = if ltb i (length slots) then some (set slots i s) else none

-- The first loop after `select`, with `k` places to go: threads that can read become ready.
unfoldable pub move_ready : (ℕ → Bool) → ℕ → ℕ → Queues → Option Queues
move_ready is_set zero i q = some q
move_ready is_set (suc k) i q = do
  t ← deref q.waiting_queue i
  q' ←
      (if is_set t.fd
        then (do
          ready ← store q.ready_queue q.rq_size (some t)
          some (record q {
            ready_queue = ready;
            rq_size = q.rq_size + 1;
            waiting_queue = set q.waiting_queue i none;
          }))
        else some q)
  move_ready is_set k (i + 1) q'

-- The second loop: the threads that still wait move up, over the places that are NULL.
unfoldable pub close_gaps : ℕ → ℕ → ℕ → List Slot → List Slot × ℕ
close_gaps zero i cur waiting = (waiting, cur)
close_gaps (suc k) i cur waiting = elim (deref waiting i) [
  | none ↦ close_gaps k (i + 1) cur waiting
  | some t ↦
      close_gaps k (i + 1) (cur + 1)
        (if cur == i then set waiting cur (some t) else set (set waiting cur (some t)) i none)
]

-- `reorderwaiting`; `is_set` is what `select` leaves in `read_fds`.
unfoldable pub reorderwaiting : (ℕ → Bool) → Queues → Option Queues
unfolding move_ready close_gaps
reorderwaiting is_set q = do
  q' ← move_ready is_set q.wq_size 0 q
  let closed = close_gaps q.wq_size 0 0 q'.waiting_queue
  some (record q' { waiting_queue = closed.0; wq_size = closed.1 })

abbrev pub poll : (ℕ → Bool) → Queues → Option Queues
poll is_set q = if ltb 0 q.wq_size then reorderwaiting is_set q else some q

-- `sch == 1`, from `sighandler`: the next thread in the circle runs.
unfoldable pub interrupted : (ℕ → Bool) → Queues → Option Queues
unfolding reorderwaiting
interrupted is_set q = do
  q' ← poll is_set q
  some (record q' { rq_current = if q'.rq_current == q'.rq_size - 1 then 0 else q'.rq_current + 1 })

-- The last ready thread takes the place of the one that is gone; `rq_size` is the new size.
unfoldable pub close_ready : Queues → Queues
close_ready q = if q.rq_current == q.rq_size then record q { rq_current = 0 } else record q {
  ready_queue =
      set
        (set q.ready_queue q.rq_current
          (elim (get_elem? q.ready_queue q.rq_size) [ none ↦ none | some s ↦ s ]))
        q.rq_size none;
}

-- `sch == 2`, from `async_read`: the running thread waits. If no other is ready the process sleeps in
-- `select`, which then returns `later`.
unfoldable pub blocked : (ℕ → Bool) → (ℕ → Bool) → Queues → Option Queues
unfolding reorderwaiting close_ready
blocked is_set later q = do
  q' ← poll is_set q
  t ← deref q'.ready_queue q'.rq_current
  waiting ← store q'.waiting_queue q'.wq_size (some t)
  let q'' : Queues = record q' {
    waiting_queue = waiting;
    wq_size = q'.wq_size + 1;
    ready_queue = set q'.ready_queue q'.rq_current none;
    rq_size = q'.rq_size - 1;
  }
  if q''.rq_size == 0
      then reorderwaiting later (record q'' { rq_current = 0 })
      else some (close_ready q'')

-- `sch == 3`, from `thread_exit`: the running thread is freed. `true` comes with the return to `main`.
unfoldable pub exited : (ℕ → Bool) → (ℕ → Bool) → Queues → Option (Queues × Bool)
unfolding reorderwaiting close_ready
exited is_set later q = do
  q' ← poll is_set q
  let q'' : Queues = record q' {
    ready_queue = set q'.ready_queue q'.rq_current none;
    rq_size = q'.rq_size - 1;
  }
  if q''.rq_size == 0 && q''.wq_size == 0
      then some (q'', true)
      else if q''.rq_size == 0
      then (do q₃ ← reorderwaiting later (record q'' { rq_current = 0 }); some (q₃, false))
      else some (close_ready q'', false)
