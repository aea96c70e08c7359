-- ===== src/Threads/Scheduler/Reorder.antt =====
-- hw3_thread-library-lala-ju/scheduler.c: `reorderwaiting` and the list of waiting threads.
use mathlib.Core.List.{map, append_assoc, append-nil}
use system_programming_homew.Prelude.{
  ℕ, zero, suc, ◌+◌, ◌-◌, ◌≤◌, ◌≡◌, refl, sym, ap, ap₂, ◌∙◌, Bool, true, false, Bool-cases, inl,
  inr, List, [], ◌∷◌, ◌++◌, none, some, length, length-append, replicate, set, set-middle, shift,
  arith,
}
use system_programming_homew.Threads.Tcb.{Tcb, Slot, Queues}
use system_programming_homew.Threads.Scheduler.{deref, store, move_ready, reorderwaiting}
use system_programming_homew.Threads.Scheduler.Arrays.{
  filled, store-filled, replicate-add, represent,
}
use system_programming_homew.Threads.Scheduler.Gaps.{
  readies, waits, kept, deref-middle, close_gaps-waits,
}

module _ (is_set : ℕ → Bool) where
  abbrev queues : List Tcb → ℕ → ℕ → List Slot → ℕ → Queues
  queues rs pad cur waiting n = record {
    ready_queue = filled rs pad;
    rq_size = length rs;
    rq_current = cur;
    waiting_queue = waiting;
    wq_size = n;
  }

  abbrev Moves : List Tcb → Type 0
  Moves ts =
      (rs : List Tcb) (pad cur n i : ℕ) (pre post : List Slot)
      → i ≡ length pre
      → length (readies is_set ts) ≤ pad
      → move_ready is_set (length ts) i (queues rs pad cur (pre ++ (map some ts ++ post)) n)
        ≡ some (
            queues (rs ++ readies is_set ts) (pad - length (readies is_set ts)) cur
              (pre ++ (map (kept is_set) ts ++ post)) n)

  move_ready-stays :
      (k i : ℕ) (q : Queues) (t : Tcb)
      → deref q.waiting_queue i ≡ some t
      → is_set t.fd ≡ false
      → move_ready is_set (suc k) i q ≡ move_ready is_set k (i + 1) q
  unfolding move_ready
  move_ready-stays k i q t d e = rw (d, e, move_ready)

  move_ready-goes :
      (k i : ℕ) (q : Queues) (t : Tcb) (ready : List Slot)
      → deref q.waiting_queue i ≡ some t
      → is_set t.fd ≡ true
      → store q.ready_queue q.rq_size (some t) ≡ some ready
      → move_ready is_set (suc k) i q
        ≡ move_ready is_set k (i + 1) (record q {
          ready_queue = ready;
          rq_size = q.rq_size + 1;
          waiting_queue = set q.waiting_queue i none;
        })
  unfolding move_ready
  move_ready-goes k i q t ready d e st = rw (d, e, st, move_ready)

  Moves-stays : (t : Tcb) (ts : List Tcb) → is_set t.fd ≡ false → Moves ts → Moves (t ∷ ts)
  Moves-stays t ts e ih rs pad cur n i pre post hi room =
      move_ready-stays (length ts) i _ t (deref-middle pre (some t) (map some ts ++ post) i hi) e
      ∙ ap (λ w. move_ready is_set (length ts) (i + 1) (queues rs pad cur w n))
          (shift pre (some t) (map some ts ++ post))
      ∙ ih rs pad cur n (i + 1) (pre ++ some t ∷ []) post
          (omega (arith, length-append pre (some t ∷ []))) (rw e at room)
      ∙ rw e (
          ap
            (λ w.
              some (queues (rs ++ readies is_set ts) (pad - length (readies is_set ts)) cur w n))
            (sym (shift pre (some t) (map (kept is_set) ts ++ post))))

  Moves-goes : (t : Tcb) (ts : List Tcb) → is_set t.fd ≡ true → Moves ts → Moves (t ∷ ts)
  Moves-goes t ts e ih rs zero cur n i pre post hi room =
      let none_free : suc (length (readies is_set ts)) ≤ 0 = rw e at room in absurd (omega arith)
  Moves-goes t ts e ih rs (suc pad) cur n i pre post hi room =
      let gone : List Slot = none ∷ [] in
      let fits : suc (length (readies is_set ts)) ≤ suc pad = rw e at room in
      let size : length rs + 1 ≡ length (rs ++ t ∷ []) = omega (arith, length-append rs (t ∷ [])) in
      let left : pad - length (readies is_set ts) ≡ suc pad - suc (length (readies is_set ts)) =
        omega arith in
      move_ready-goes (length ts) i _ t _ (deref-middle pre (some t) (map some ts ++ post) i hi) e
        (store-filled rs pad (length rs) t refl)
      ∙ ap₂
          (λ m w. move_ready is_set (length ts) (i + 1) (record {
            ready_queue = filled (rs ++ t ∷ []) pad;
            rq_size = m;
            rq_current = cur;
            waiting_queue = w;
            wq_size = n;
          }))
          size
          (set-middle pre (some t) none (map some ts ++ post) i hi
            ∙ shift pre none (map some ts ++ post))
      ∙ ih (rs ++ t ∷ []) pad cur n (i + 1) (pre ++ none ∷ []) post
          (omega (arith, length-append pre gone)) (omega arith)
      ∙ rw e (
          ap₂ (λ xs w. some (queues xs (pad - length (readies is_set ts)) cur w n))
            (append_assoc rs (t ∷ []) (readies is_set ts))
            (sym (shift pre none (map (kept is_set) ts ++ post)))
          ∙ ap
              (λ m. some (
                queues (rs ++ t ∷ readies is_set ts) m cur
                  (pre ++ none ∷ (map (kept is_set) ts ++ post)) n))
              left)

  move_ready-Moves : (ts : List Tcb) → Moves ts
  unfolding move_ready
  move_ready-Moves [] = λ rs pad cur n i pre post hi room.
      let same : pad - 0 ≡ pad = omega arith in rw (append-nil rs, same)
  move_ready-Moves (t ∷ ts) = elim (Bool-cases (is_set t.fd)) [
    | inl e ↦ Moves-goes t ts e (move_ready-Moves ts)
    | inr e ↦ Moves-stays t ts e (move_ready-Moves ts)
  ]

  -- On arrays that begin with their threads and are NULL behind them, if the ready queue has room
  -- for the waiting threads that can read, reorderwaiting moves those behind the ready ones, in
  -- their order, and leaves the others, in their order, with no gap.
  pub reorderwaiting-split :
      (rs ws : List Tcb) (pad cur wpad : ℕ)
      → length (readies is_set ws) ≤ pad
      → reorderwaiting is_set (represent rs pad cur ws wpad)
        ≡ some (
            represent
              (rs ++ readies is_set ws)
              (pad - length (readies is_set ws))
              cur
              (waits is_set ws)
              (wpad + length (readies is_set ws)))
  unfolding reorderwaiting
  reorderwaiting-split rs ws pad cur wpad room =
      let same : 0 + length (readies is_set ws) ≡ length (readies is_set ws) = omega arith in
      rw (move_ready-Moves ws rs pad cur (length ws) 0 [] (replicate wpad none) refl room) (
        ap
          (λ (r : List Slot × ℕ). some (record {
            ready_queue = filled (rs ++ readies is_set ws) (pad - length (readies is_set ws));
            rq_size = length (rs ++ readies is_set ws);
            rq_current = cur;
            waiting_queue = r.0;
            wq_size = r.1;
          }))
          (close_gaps-waits is_set ws [] 0 0 0 (replicate wpad none) refl refl)
        ∙ ap
            (λ w. some (record {
              ready_queue = filled (rs ++ readies is_set ws) (pad - length (readies is_set ws));
              rq_size = length (rs ++ readies is_set ws);
              rq_current = cur;
              waiting_queue = map some (waits is_set ws) ++ w;
              wq_size = length (waits is_set ws);
            }))
            (ap (λ n. replicate {A = Slot} n none ++ replicate wpad none) same
              ∙ replicate-add (length (readies is_set ws)) wpad))
