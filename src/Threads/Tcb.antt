-- ===== src/Threads/Tcb.antt =====
-- hw3_thread-library-lala-ju/threadtools.h: the thread control block, the queues as arrays of
-- pointers, and the sizes that go with them.
use system_programming_homew.Prelude.{ℕ, List, Option}
use system_programming_homew.Prelude.Int.{ℤ}

abbrev pub thread_max : ℕ
thread_max = 16

-- Where `longjmp` to the thread's `environment` goes on: at the end of `thread_setup`, in `async_read`
-- or in `thread_yield`.
pub data Environment : Type 0 where
  set_up reading yielded : Environment

-- The function that a thread runs.
pub data Program : Type 0 where
  fibonacci collatz max_subarray : Program

pub record Tcb : Type 0 where
  pub id : ℕ
  pub program : Program
  pub environment : Environment
  pub arg : ℤ
  pub fd : ℕ
  pub buf : List ℕ
  pub i : ℤ
  pub x : ℤ
  pub y : ℤ
  pub sum : ℤ

-- A pointer to a thread control block; `none` is NULL.
abbrev pub Slot : Type 0
Slot = Option Tcb

pub record Queues : Type 0 where
  pub ready_queue : List Slot
  pub rq_size : ℕ
  pub rq_current : ℕ
  pub waiting_queue : List Slot
  pub wq_size : ℕ
