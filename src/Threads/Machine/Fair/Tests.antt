-- ===== src/Threads/Machine/Fair/Tests.antt =====
-- Concrete turns of two threads of hw3_thread-library-lala-ju that go on for ever.
use system_programming_homew.Prelude.{
  zero, suc, ◌*◌, ◌<◌, inr, ◌∙◌, ℕ, ◌+◌, ◌≡◌, refl, true, false, [], ◌∷◌, some, arith,
}
use system_programming_homew.Prelude.Int.{pos}
use system_programming_homew.Threads.Tcb.{Tcb, Queues, Environment, Program}
use system_programming_homew.Threads.Scheduler.Arrays.{represent}
use system_programming_homew.Threads.Scheduler.Running.{running}
use system_programming_homew.Threads.Setup.{new_tcb}
use system_programming_homew.Threads.Programs.{collatz_body, is_one}
use system_programming_homew.Threads.Programs.Collatz.{collatz-zero}
use system_programming_homew.Threads.Machine.{Pass, Stop, Event, step, switch, resume}
use system_programming_homew.Threads.Machine.Fair.{
  Yields, none_yet, one_yields, ReachedIn, Yields-reach,
}
use system_programming_homew.Threads.Machine.Passes.{loop_turn-Place, resume-collatz}

-- A signal is pending, and every descriptor can be read.
abbrev alarm : Event
alarm = record { bytes = b'7' ∷ 10 ∷ []; signalled = true; is_set = λ fd. true; later = λ fd. true }

-- Two threads of collatz with the argument 0, which yield for ever.
abbrev idle : ℕ → ℕ → Tcb
idle id k = record (new_tcb id Program.collatz (pos 0) 4 []) {
  environment = Environment.yielded;
  i = pos (suc k);
}

abbrev idle_pass : ℕ → ℕ → Pass
idle_pass id k = record { thread = idle id (suc k); printed = (id, pos 0) ∷ []; stop = Stop.yields }

idle-resumes : (id k : ℕ) → k < 100 → resume alarm.bytes (idle id k) ≡ some (idle_pass id k)
idle-resumes id k small =
    resume-collatz alarm.bytes (idle id k) refl
    ∙ loop_turn-Place collatz_body (λ t. t.x) (suc k) (idle id k) (idle id (suc k)) false
        (inr (refl, refl)) (omega (arith, small)) at_nought
  where
    at_nought : collatz_body (idle id (suc k)) ≡ some (idle id (suc k), false)
    at_nought =
        let second : is_one (pos (suc (suc k))) ≡ false = ground arith in
        (collatz-zero 1 (idle id (suc k)) (pos 0) refl (rw second refl)).0

abbrev idlers : ℕ → ℕ → ℕ → Queues
idlers j k current = represent (idle 0 j ∷ idle 1 k ∷ []) 14 current [] 16

first_idles :
    (j k : ℕ)
    → j < 100
    → step alarm (idlers j k 0) ≡ some ((0, pos 0) ∷ [], some (idlers (suc j) k 1))
unfolding step switch
first_idles j k small = rw (idle-resumes 0 j small) refl

second_idles :
    (j k : ℕ)
    → k < 100
    → step alarm (idlers j k 1) ≡ some ((1, pos 0) ∷ [], some (idlers j (suc k) 0))
unfolding step switch
second_idles j k small = rw (idle-resumes 1 k small) refl

idle_turns : (n k : ℕ) → n + k < 100 → Yields (n * 2) (idlers k k 0) (idlers (n + k) (n + k) 0)
idle_turns zero k small = let same : 0 + k ≡ k = omega arith in rw same none_yet
idle_turns (suc n) k small =
    let shift : suc n + k ≡ n + suc k = omega arith in
    let two_more : suc n * 2 ≡ suc (suc (n * 2)) = omega arith in
    rw (shift, two_more)
      (one_yields alarm (idle 0 k) (idle_pass 0 k) refl (idle-resumes 0 k (omega (arith, small)))
        refl refl (first_idles k k (omega (arith, small)))
        (one_yields alarm (idle 1 k) (idle_pass 1 k) refl (idle-resumes 1 k (omega (arith, small)))
          refl refl (second_idles (suc k) k (omega (arith, small)))
          (idle_turns n (suc k) (omega (arith, small)))))

Yields-reach_example : ReachedIn 16 (idlers 0 0 0) (idlers 8 8 0) (idle 1 0)
Yields-reach_example =
    Yields-reach (idlers 0 0 0) (idlers 8 8 0) (running [] (idle 0 0) (idle 1 0 ∷ []) []) 1
      (idle 1 0)
      (record {
        pad = 14;
        wpad = 16;
        arrays = refl;
        ready_places = refl;
        wait_places = refl;
        few = omega arith;
      })
      (omega arith) refl (idle_turns 8 0 (omega arith))
