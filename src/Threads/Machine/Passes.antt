-- ===== src/Threads/Machine/Passes.antt =====
-- hw3_thread-library-lala-ju at work: a turn of fibonacci or collatz is one pass of its loop.
use system_programming_homew.Prelude.{
  ℕ, suc, ◌<◌, ◌≡◌, ◌⊎◌, inl, inr, refl, ap, Bool, true, List, [], ◌∷◌, Option, some, ◌==◌, arith,
}
use system_programming_homew.Prelude.Int.{ℤ, pos, ◌+ℤ◌, int_max, pos-+ℤ}
use system_programming_homew.Threads.Tcb.{Tcb, Environment, Program}
use system_programming_homew.Threads.Programs.{fibonacci_body, collatz_body}
use system_programming_homew.Threads.Programs.Checked.{checked-pos}
use system_programming_homew.Threads.Machine.{end_body, next_i, loop_turn, read_turn, resume}
use system_programming_homew.Threads.Machine.Lines.{lines_of}

pub lines_of-own : (i j : ℕ) (z : ℤ) → j ≡ i → lines_of i ((j, z) ∷ []) ≡ z ∷ []
unfolding lines_of
lines_of-own i j z h = let same : (j == i) ≡ true = ground (arith, h) in rw same refl

-- Where the thread is after `k` passes of its loop.
abbrev pub Place : ℕ → Tcb → Type 0
Place k t =
    ((k ≡ 0) × (t.environment ≡ Environment.set_up))
    ⊎ ((t.i ≡ pos k) × (t.environment ≡ Environment.yielded))

pub next_i-Place :
    (k : ℕ) (t : Tcb) → Place k t → suc k < int_max → next_i t ≡ some (record t { i = pos (suc k) })
unfolding next_i
next_i-Place k t h small = elim h [
  | inl (none_yet, e) ↦ rw (e, none_yet)
  | inr (hi, e) ↦
      let next : t.i +ℤ pos 1 ≡ pos (suc k) = rw (hi, pos-+ℤ) (ap pos (omega arith)) in
      rw (e, next, checked-pos (suc k) small)
]

-- A turn of a loop is one pass.
pub loop_turn-Place :
    (body : Tcb → Option (Tcb × Bool)) (shown : Tcb → ℤ) (k : ℕ) (t t' : Tcb) (last : Bool)
    → Place k t
    → suc k < int_max
    → body (record t { i = pos (suc k) }) ≡ some (t', last)
    → loop_turn body shown t ≡ some (end_body (shown t') last t')
unfolding loop_turn
loop_turn-Place body shown k t t' last h small done = rw (next_i-Place k t h small, done)

pub resume-fibonacci :
    (bytes : List ℕ) (t : Tcb)
    → t.program ≡ Program.fibonacci
    → resume bytes t ≡ loop_turn fibonacci_body (λ t. t.y) t
unfolding resume
resume-fibonacci bytes t h =
    ap
      (λ p. elim p [
        | Program.fibonacci ↦ loop_turn fibonacci_body (λ t. t.y) t
        | Program.collatz ↦ loop_turn collatz_body (λ t. t.x) t
        | Program.max_subarray ↦ read_turn bytes t
      ])
      h

pub resume-collatz :
    (bytes : List ℕ) (t : Tcb)
    → t.program ≡ Program.collatz
    → resume bytes t ≡ loop_turn collatz_body (λ t. t.x) t
unfolding resume
resume-collatz bytes t h =
    ap
      (λ p. elim p [
        | Program.fibonacci ↦ loop_turn fibonacci_body (λ t. t.y) t
        | Program.collatz ↦ loop_turn collatz_body (λ t. t.x) t
        | Program.max_subarray ↦ read_turn bytes t
      ])
      h
