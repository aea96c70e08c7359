-- ===== src/Threads/Scheduler/Running.antt =====
-- hw3_thread-library-lala-ju/scheduler.c: the place of the running thread in the ready queue.
use mathlib.Core.List.{append_assoc, map, map-append}
use system_programming_homew.Prelude.{
  ℕ, ◌+◌, ◌-◌, ◌≡◌, sym, ap, ◌∙◌, List, ◌∷◌, ◌++◌, none, some, length, length-append, length-map,
  arith, replicate, set, set-middle, get_elem?-middle,
}
use system_programming_homew.Threads.Tcb.{Tcb}
use system_programming_homew.Threads.Scheduler.{deref}
use system_programming_homew.Threads.Scheduler.Arrays.{filled}
use system_programming_homew.Threads.Scheduler.Schedule.{Schedule}

pub filled-middle :
    (before after : List Tcb) (t : Tcb) (pad : ℕ)
    → filled (before ++ t ∷ after) pad ≡ map some before ++ some t ∷ filled after pad
filled-middle before after t pad =
    ap (λ w. w ++ replicate pad none) (map-append some before (t ∷ after))
    ∙ append_assoc (map some before) (map some (t ∷ after)) (replicate pad none)

pub deref-running :
    (before after : List Tcb) (t : Tcb) (pad : ℕ)
    → deref (filled (before ++ t ∷ after) pad) (length before) ≡ some t
deref-running before after t pad =
    ap (λ w. deref w (length before)) (filled-middle before after t pad)
    ∙ ap (λ o. elim o [ none ↦ none | some s ↦ s ])
        (get_elem?-middle (map some before) (some t) (filled after pad) (length before)
          (sym (length-map before (λ t. some t))))

pub clear-running :
    (before after : List Tcb) (t : Tcb) (pad : ℕ)
    → set (filled (before ++ t ∷ after) pad) (length before) none
      ≡ map some before ++ none ∷ filled after pad
clear-running before after t pad =
    ap (λ w. set w (length before) none) (filled-middle before after t pad)
    ∙ set-middle (map some before) (some t) none (filled after pad) (length before)
        (sym (length-map before (λ t. some t)))

pub one_less :
    (before after : List Tcb) (t : Tcb)
    → length (before ++ t ∷ after) - 1 ≡ length before + length after
one_less before after t = omega (arith, length-append before (t ∷ after))

-- A schedule in which `t` is the running thread.
abbrev pub running : List Tcb → Tcb → List Tcb → List Tcb → Schedule
running before t after ws = record {
  ready = before ++ t ∷ after;
  current = length before;
  waiting = ws;
}
