-- ===== src/Threads/Scheduler/Rows.antt =====
-- hw3_thread-library-lala-ju/scheduler.c: the ready queue without the running thread, and the loop that closes its gap.
use mathlib.Core.List.{Perm, perm_append_singleton, append_assoc, append-nil, map, map-append}
use mathlib.Core.List.Perm
use system_programming_homew.Prelude.{
  ℕ, suc, ◌+◌, ◌≡◌, ◌⊎◌, refl, sym, ap, ap₂, ◌∙◌, Bool, true, false, inl, inr, List, [], ◌∷◌, ◌++◌,
  none, some, ◌==◌, length, length-append, length-map, arith, replicate, get_elem?, set, set-middle,
  get_elem?-middle,
}
use system_programming_homew.Threads.Tcb.{Tcb, Slot, Queues}
use system_programming_homew.Threads.Scheduler.{close_ready}
use system_programming_homew.Threads.Scheduler.Arrays.{filled, represent}
use system_programming_homew.Threads.Scheduler.Schedule.{Schedule, wake}

-- The last thread comes to the front.
abbrev pub last_first : List Tcb → List Tcb
last_first [] = []
last_first (t ∷ ts) = elim (last_first ts) [ [] ↦ t ∷ [] | l ∷ init ↦ l ∷ t ∷ init ]

last_first-snoc : (ts : List Tcb) (l : Tcb) → last_first (ts ++ l ∷ []) ≡ l ∷ ts
last_first-snoc [] l = refl
last_first-snoc (t ∷ ts) l = rw (last_first-snoc ts l)

Snoc-cases : (ts : List Tcb) → (ts ≡ []) ⊎ ((init : List Tcb) × (l : Tcb) × (ts ≡ init ++ l ∷ []))
Snoc-cases [] = inl refl
Snoc-cases (t ∷ ts) = elim (Snoc-cases ts) [
  | inl e ↦ inr ([], t, ap (◌∷◌ t) e)
  | inr (init, l, e) ↦ inr (t ∷ init, l, ap (◌∷◌ t) e)
]

pub last_first-perm : (ts : List Tcb) → Perm (last_first ts) ts
last_first-perm ts = elim (Snoc-cases ts) [
  | inl e ↦ rw e Perm.rfl
  | inr (init, l, e) ↦ rw (e, last_first-snoc init l) (Perm.symm (perm_append_singleton l init))
]

pub length-last_first : (ts : List Tcb) → length (last_first ts) ≡ length ts
length-last_first ts = elim (Snoc-cases ts) [
  | inl e ↦ rw e
  | inr (init, l, e) ↦ rw (e, last_first-snoc init l) (omega (arith, length-append init (l ∷ [])))
]

-- The ready threads around the place of one that left: the last of them fills the place and runs, or
-- the first one runs if the place was the last.
abbrev pub close_up : List Tcb → List Tcb → List Tcb → Schedule
close_up before after waiting = record {
  ready = before ++ last_first after;
  current = elim after [ [] ↦ 0 | t ∷ ts ↦ length before ];
  waiting = waiting;
}

-- If no thread is ready the process sleeps until threads can read, which then are ready.
abbrev pub go_on : (ℕ → Bool) → List Tcb → List Tcb → List Tcb → Schedule
go_on later before after waiting = elim (before ++ after) [
  | [] ↦ wake later (record { ready = []; current = 0; waiting = waiting })
  | t ∷ ts ↦ close_up before after waiting
]

-- The queues with a NULL at the current place.
abbrev pub gap : List Tcb → List Tcb → ℕ → List Tcb → ℕ → Queues
gap before after pad ws wpad = record {
  ready_queue = map some before ++ none ∷ filled after pad;
  rq_size = length before + length after;
  rq_current = length before;
  waiting_queue = filled ws wpad;
  wq_size = length ws;
}

close_ready-last :
    (before : List Tcb) (pad : ℕ) (ws : List Tcb) (wpad : ℕ)
    → close_ready (gap before [] pad ws wpad) ≡ represent before (suc pad) 0 ws wpad
unfolding close_ready
close_ready-last before pad ws wpad =
    let here : (length before == length before + 0) ≡ true = ground arith in
    let size : length before + 0 ≡ length before = omega arith in rw (here, size)

-- The row of threads with a place `s` in it, split before the last thread.
split_row :
    (before init : List Tcb) (s : Slot) (l : Tcb) (pad : ℕ)
    → map some before ++ s ∷ filled (init ++ l ∷ []) pad
      ≡ (map some before ++ s ∷ map some init) ++ some l ∷ replicate pad none
split_row before init s l pad =
    ap (λ w. map some before ++ s ∷ (w ++ replicate pad none)) (map-append some init (l ∷ []))
    ∙ ap (λ w. map some before ++ s ∷ w)
        (append_assoc (map some init) (some l ∷ []) (replicate pad none))
    ∙ sym (append_assoc (map some before) (s ∷ map some init) (some l ∷ replicate pad none))

length-row :
    (before init : List Tcb) (s : Slot) (l : Tcb)
    → length before + length (init ++ l ∷ []) ≡ length (map some before ++ s ∷ map some init)
length-row before init s l = omega (
  arith,
  length-append init (l ∷ []),
  length-append (map some before) (s ∷ map some init),
  length-map before (λ t. some t),
  length-map init (λ t. some t),
)

move_last :
    (before init : List Tcb) (l : Tcb) (pad n : ℕ)
    → n ≡ length before + length (init ++ l ∷ [])
    → (let w : List Slot = map some before ++ none ∷ filled (init ++ l ∷ []) pad in
        set (set w (length before) (elim (get_elem? w n) [ none ↦ none | some s ↦ s ])) n none)
      ≡ filled (before ++ l ∷ init) (suc pad)
move_last before init l pad n h = rw last_place (
    ap (λ w. set w n none)
      (set-middle (map some before) none (some l) (filled (init ++ l ∷ []) pad) (length before)
          (sym (length-map before (λ t. some t)))
        ∙ split_row before init (some l) l pad)
    ∙ set-middle (map some before ++ some l ∷ map some init) (some l) none (replicate pad none) n
        (h ∙ length-row before init (some l) l)
    ∙ ap (λ w. w ++ none ∷ replicate pad none) (sym (map-append some before (l ∷ init))))
  where
    last_place : get_elem? (map some before ++ none ∷ filled (init ++ l ∷ []) pad) n ≡ some (some l)
    last_place =
        ap (λ w. get_elem? w n) (split_row before init none l pad)
        ∙ get_elem?-middle (map some before ++ none ∷ map some init) (some l) (replicate pad none) n
            (h ∙ length-row before init none l)

close_ready-moved :
    (before init : List Tcb) (l : Tcb) (pad : ℕ) (ws : List Tcb) (wpad : ℕ)
    → close_ready (gap before (init ++ l ∷ []) pad ws wpad)
      ≡ represent (before ++ l ∷ init) (suc pad) (length before) ws wpad
unfolding close_ready
close_ready-moved before init l pad ws wpad =
    let inner : (length before == length before + length (init ++ l ∷ [])) ≡ false =
      ground (arith, length-append init (l ∷ [])) in
    let size : length before + length (init ++ l ∷ []) ≡ length (before ++ l ∷ init) =
      omega (arith, length-append init (l ∷ []), length-append before (l ∷ init)) in
    rw inner (
      ap₂
        (λ w n. record {
          ready_queue = w;
          rq_size = n;
          rq_current = length before;
          waiting_queue = filled ws wpad;
          wq_size = length ws;
        })
        (move_last before init l pad (length before + length (init ++ l ∷ [])) refl) size)

pub close_ready-close_up :
    (before after : List Tcb) (pad : ℕ) (ws : List Tcb) (wpad : ℕ)
    → close_ready (gap before after pad ws wpad)
      ≡ represent
          (close_up before after ws).ready
          (suc pad)
          (close_up before after ws).current
          ws
          wpad
close_ready-close_up before after pad ws wpad = elim (Snoc-cases after) [
  | inl e ↦ rw (e, append-nil before) (close_ready-last before pad ws wpad)
  | inr (init, l, e) ↦
      rw (e, last_first-snoc init l)
        (close_ready-moved before init l pad ws wpad
          ∙ ap (λ c. represent (before ++ l ∷ init) (suc pad) c ws wpad)
              (not_empty init l (length before)))
]
  where
    not_empty :
        (init : List Tcb) (l : Tcb) (k : ℕ) → k ≡ elim (init ++ l ∷ []) [ [] ↦ 0 | t ∷ ts ↦ k ]
    not_empty [] l k = refl
    not_empty (t ∷ init) l k = refl
