-- ===== src/Threads/Scheduler/Arrays.antt =====
-- The arrays of pointers of hw3_thread-library-lala-ju/scheduler.c that hold a list of threads and are
-- NULL behind it.
use mathlib.Core.List.{map, map-append}
use system_programming_homew.Prelude.{
  ℕ, zero, suc, ◌+◌, ◌≡◌, sym, ap, ap₂, ◌∙◌, true, List, [], ◌∷◌, ◌++◌, none, some, length,
  length-append, length-map, length-replicate, replicate, set, ltb, set-middle, shift, arith,
}
use system_programming_homew.Threads.Tcb.{Tcb, Slot, Queues}
use system_programming_homew.Threads.Scheduler.{store}

-- An array that begins with these threads and is NULL behind them.
abbrev pub filled : List Tcb → ℕ → List Slot
filled ts pad = map some ts ++ replicate pad none

length-filled : (ts : List Tcb) (pad : ℕ) → length (filled ts pad) ≡ length ts + pad
length-filled ts pad =
    length-append (map some ts) (replicate pad none)
    ∙ ap₂ ◌+◌ (length-map ts (λ t. some t)) (length-replicate {A = Slot} pad none)

-- A thread goes to the first free place.
pub store-filled :
    (ts : List Tcb) (pad i : ℕ) (t : Tcb)
    → i ≡ length ts
    → store (filled ts (suc pad)) i (some t) ≡ some (filled (ts ++ t ∷ []) pad)
store-filled ts pad i t h = rw (room, placed)
  where
    room : ltb i (length (filled ts (suc pad))) ≡ true
    room = ground (arith, length-filled ts (suc pad))

    placed : set (filled ts (suc pad)) i (some t) ≡ filled (ts ++ t ∷ []) pad
    placed =
        set-middle (map some ts) none (some t) (replicate pad none) i
          (omega (arith, length-map ts (λ t. some t)))
        ∙ shift (map some ts) (some t) (replicate pad none)
        ∙ ap (λ w. w ++ replicate pad none) (sym (map-append some ts (t ∷ [])))

pub replicate-add :
    (m n : ℕ) → replicate {A = Slot} m none ++ replicate n none ≡ replicate (n + m) none
replicate-add zero n = ap (λ k. replicate k none) (zero_right n)
  where
    zero_right : (n : ℕ) → n ≡ n + 0
    zero_right n = omega arith
replicate-add (suc m) n = ap (◌∷◌ none) (replicate-add m n) ∙ ap (λ k. replicate k none) (next m n)
  where
    next : (m n : ℕ) → suc (n + m) ≡ n + suc m
    next m n = omega arith

-- The arrays that hold these ready and these waiting threads.
abbrev pub represent : List Tcb → ℕ → ℕ → List Tcb → ℕ → Queues
represent rs pad cur ws wpad = record {
  ready_queue = filled rs pad;
  rq_size = length rs;
  rq_current = cur;
  waiting_queue = filled ws wpad;
  wq_size = length ws;
}
