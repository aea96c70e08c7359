-- ===== src/Threads/Scheduler/Leave.antt =====
-- hw3_thread-library-lala-ju/scheduler.c: the running thread leaves the ready queue, to wait
-- (`blocked`) or for good (`exited`).
use mathlib.Core.List.{Perm, append_assoc}
use mathlib.Core.List.Perm
use system_programming_homew.Prelude.{
  ℕ, suc, ◌+◌, ◌≤◌, ◌<◌, ◌≡◌, refl, ap, Bool, false, List, [], ◌∷◌, ◌++◌, Option, some, ◌==◌,
  if◌then◌else◌, length, length-append, arith,
}
use system_programming_homew.Threads.Tcb.{Tcb, Queues, thread_max}
use system_programming_homew.Threads.Scheduler.{reorderwaiting, close_ready}
use system_programming_homew.Threads.Scheduler.Gaps.{readies}
use system_programming_homew.Threads.Scheduler.Schedule.{
  threads, Represents, IsRunning, wake-perm, reorderwaiting-wake,
}
use system_programming_homew.Threads.Scheduler.Rows.{
  last_first, last_first-perm, length-last_first, close_up, go_on, gap, close_ready-close_up,
}

module _ (later : ℕ → Bool) where
  -- What `scheduler` does once the place of the running thread is NULL.
  abbrev pub go_on_code : Queues → Option Queues
  go_on_code q =
      if q.rq_size == 0
      then reorderwaiting later (record q { rq_current = 0 })
      else some (close_ready q)

  go_on-others :
      (before after ws : List Tcb) (pad wpad : ℕ)
      → 0 < length before + length after
      → length before + length after + suc pad ≡ thread_max
      → length ws + wpad ≡ thread_max
      → length before + length after + length ws ≤ thread_max
      → (q' : Queues) × (go_on_code (gap before after pad ws wpad) ≡ some q')
        × Represents q' (close_up before after ws)
  go_on-others before after ws pad wpad some_left hp hw few =
      let more : (length before + length after == 0) ≡ false = ground arith in
      let size : length (before ++ last_first after) ≡ length before + length after =
        omega (arith, length-append before (last_first after), length-last_first after) in
      (
        _,
        rw more (ap some (close_ready-close_up before after pad ws wpad)),
        record {
          pad = suc pad;
          wpad = wpad;
          arrays = refl;
          ready_places = omega (arith, size);
          wait_places = hw;
          few = omega (arith, size);
        },
      )

  pub go_on-Represents :
      (before after ws : List Tcb) (pad wpad : ℕ)
      → length before + length after + suc pad ≡ thread_max
      → length ws + wpad ≡ thread_max
      → length before + length after + length ws ≤ thread_max
      → (q' : Queues) × (go_on_code (gap before after pad ws wpad) ≡ some q')
        × Represents q' (go_on later before after ws)
  go_on-Represents [] [] ws pad wpad hp hw few =
      reorderwaiting-wake later (gap [] [] pad ws wpad)
        (record { ready = []; current = 0; waiting = ws })
        (record {
          pad = suc pad;
          wpad = wpad;
          arrays = refl;
          ready_places = omega arith;
          wait_places = hw;
          few = omega arith;
        })
  go_on-Represents [] (t ∷ after) ws pad wpad hp hw few =
      go_on-others [] (t ∷ after) ws pad wpad (omega arith) hp hw few
  go_on-Represents (b ∷ before) after ws pad wpad hp hw few =
      go_on-others (b ∷ before) after ws pad wpad (omega arith) hp hw few

  -- `select` without a timeout returns only when a descriptor can be read.
  abbrev pub Returns : List Tcb → List Tcb → List Tcb → Type 0
  Returns before after ws = before ++ after ≡ [] → 0 < length (readies later ws)

  close_up-IsRunning :
      (before after ws : List Tcb)
      → 0 < length before + length after
      → IsRunning (close_up before after ws)
  close_up-IsRunning before [] ws h = omega (arith, length-append before [])
  close_up-IsRunning before (t ∷ after) ws h =
      omega (arith, length-append before (last_first (t ∷ after)), length-last_first (t ∷ after))

  pub go_on-IsRunning :
      (before after ws : List Tcb)
      → Returns before after ws
      → IsRunning (go_on later before after ws)
  go_on-IsRunning [] [] ws h = h refl
  go_on-IsRunning [] (t ∷ after) ws h = close_up-IsRunning [] (t ∷ after) ws (omega arith)
  go_on-IsRunning (b ∷ before) after ws h = close_up-IsRunning (b ∷ before) after ws (omega arith)

  close_up-perm :
      (before after ws : List Tcb)
      → Perm (threads (close_up before after ws)) (before ++ (after ++ ws))
  close_up-perm before after ws =
      rw (append_assoc before (last_first after) ws)
        (Perm.append_left before (Perm.append_right ws (last_first-perm after)))

  pub go_on-perm :
      (before after ws : List Tcb)
      → Perm (threads (go_on later before after ws)) (before ++ (after ++ ws))
  go_on-perm [] [] ws = wake-perm later (record { ready = []; current = 0; waiting = ws })
  go_on-perm [] (t ∷ after) ws = close_up-perm [] (t ∷ after) ws
  go_on-perm (b ∷ before) after ws = close_up-perm (b ∷ before) after ws
