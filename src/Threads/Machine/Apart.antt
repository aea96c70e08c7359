-- ===== src/Threads/Machine/Apart.antt =====
-- hw3_thread-library-lala-ju at work: the lines of each thread until start_threading returns.
use mathlib.Core.Option.{some-injective}
use system_programming_homew.Prelude.{
  ℕ, ◌≡◌, refl, sym, ap, subst, ◌∙◌, true, false, inl, inr, List, [], ◌∷◌, ◌++◌, Option, none, some,
  ℕ_discrete, length, arith,
}
use system_programming_homew.Prelude.Int.{ℤ}
use system_programming_homew.Threads.Tcb.{Tcb, Queues}
use system_programming_homew.Threads.Scheduler.{deref}
use system_programming_homew.Threads.Scheduler.Schedule.{Schedule, threads, Represents, IsRunning}
use system_programming_homew.Threads.Scheduler.Running.{running}
use system_programming_homew.Threads.Machine.{Pass, Event, step, resume}
use system_programming_homew.Threads.Machine.Steps.{
  GoesOn, SelectAnswers, left_over, step-GoesOn, deref-Represents,
}
use system_programming_homew.Threads.Machine.Reach.{Turns, here, more, IsRunning-split}
use system_programming_homew.Threads.Machine.Lines.{
  lines_of, lines_of-append, lines_of-foreign, resume-SameId,
}
use system_programming_homew.Threads.Machine.Mine.{mine}
use system_programming_homew.Threads.Machine.Alone.{
  Alone, fresh, Told, Told-Perm, Told-own, Told-foreign,
}

-- All lines that turns print.
unfoldable pub lines : {q q' : Queues} → Turns q q' → List (ℕ × ℤ)
lines here = []
lines (more e t p turns current resumed answers taken) = lines turns ++ p.printed

-- A turn of any thread, for the one with an id.
Told-turn :
    (i : ℕ) (t₀ : Tcb) (zs : List ℤ) (before after ws : List Tcb) (t : Tcb) (bytes : List ℕ)
    (p : Pass)
    → t₀.id ≡ i
    → resume bytes t ≡ some p
    → Told i t₀ zs ((before ++ t ∷ after) ++ ws)
    → Told i t₀ (zs ++ lines_of i p.printed) (left_over p.stop before p.thread after ws)
Told-turn i t₀ zs before after ws t bytes p h₀ resumed told =
    let (same, own) = resume-SameId bytes t p resumed in
    elim (ℕ_discrete t.id i) [
      | yes h ↦ Told-own i t₀ zs before after ws t bytes p h₀ h (same ∙ h) resumed told
      | no n ↦
          Told-foreign i t₀ zs before after ws t p n (λ h. n (sym same ∙ h))
            (lines_of-foreign i t.id p.printed n own) told
    ]

-- How a turn goes on, where the thread with the id has printed `zs`.
abbrev After : ℕ → Tcb → List ℤ → Option Queues → Type 0
After i t₀ zs none = Told i t₀ zs []
After i t₀ zs (some q) = (s : Schedule) × Represents q s × IsRunning s × Told i t₀ zs (threads s)

GoesOn-After :
    (i : ℕ) (t₀ : Tcb) (zs : List ℤ) (ts : List Tcb) (next : Option Queues)
    → GoesOn ts next
    → Told i t₀ zs ts
    → After i t₀ zs next
GoesOn-After i t₀ zs ts none over told = subst (Told i t₀ zs) over told
GoesOn-After i t₀ zs ts (some q) (s, r, runs, p) told =
    (s, r, runs, Told-Perm i t₀ zs ts (threads s) p told)

step-After :
    (t₀ : Tcb) (zs : List ℤ) (e : Event) (t : Tcb) (p : Pass) (q : Queues) (next : Option Queues)
    → After t₀.id t₀ zs (some q)
    → deref q.ready_queue q.rq_current ≡ some t
    → resume e.bytes t ≡ some p
    → SelectAnswers e.later q p.thread p.stop
    → step e q ≡ some (p.printed, next)
    → After t₀.id t₀ (zs ++ lines_of t₀.id p.printed) next
step-After t₀ zs e t p q next (s, r, runs, told) current resumed answers taken =
    let (before, t', after, split) = IsRunning-split s.current s.ready s.waiting runs in
    let r' : Represents q (running before t' after s.waiting) = subst (Represents q) split r in
    let same : t' ≡ t =
      some-injective t' t (sym (deref-Represents before after s.waiting t' q r') ∙ current) in
    let resumed' : resume e.bytes t' ≡ some p = ap (resume e.bytes) same ∙ resumed in
    let (next', done, goes_on) = step-GoesOn e before after s.waiting t' p q r' resumed' answers in
    let same_next : next' ≡ next =
      ap (λ x. x.1) (some-injective (p.printed, next') (p.printed, next) (sym done ∙ taken)) in
    subst (After t₀.id t₀ (zs ++ lines_of t₀.id p.printed)) same_next (
      GoesOn-After t₀.id t₀ _ (left_over p.stop before p.thread after s.waiting) next' goes_on (
        Told-turn t₀.id t₀ zs before after s.waiting t' e.bytes p refl resumed'
          (subst (λ s. Told t₀.id t₀ zs (threads s)) split told)))

Turns-After :
    (t₀ : Tcb) (q q' : Queues) (turns : Turns q q')
    → After t₀.id t₀ [] (some q)
    → After t₀.id t₀ (lines_of t₀.id (lines turns)) (some q')
unfolding lines lines_of
Turns-After t₀ q _ here start = start
Turns-After t₀ q q'' (more {q' = q'} e t p turns current resumed answers taken) start =
    subst (λ zs. After t₀.id t₀ zs (some q'')) (sym (lines_of-append t₀.id (lines turns) p.printed))
      (step-After t₀ (lines_of t₀.id (lines turns)) e t p q' (some q'')
        (Turns-After t₀ q q' turns start) current resumed answers taken)

Told-over :
    (t₀ : Tcb) (zs : List ℤ) → Told t₀.id t₀ zs [] → (thread : Tcb) × Alone t₀ zs thread false
Told-over t₀ zs told = elim told.only [
  | inl (nothing, ended) ↦ (told.thread, subst (Alone t₀ zs told.thread) ended told.history)
  | inr (one, left) ↦ absurd (omega (arith, ap length one))
]

-- If a thread is the only one with its id in a schedule with a running thread that the arrays
-- represent, and start_threading returns after some turns, with a select without a limit always
-- returning with some thread that it watches, then the lines printed under that id are, in order,
-- those of turns of this thread alone, each from the control block that the one before left, for
-- some bytes that a read finds, and the last of these turns ends the thread.
pub Turns-Alone :
    (t₀ : Tcb) (q q' : Queues) (s : Schedule) (turns : Turns q q') (e : Event) (t : Tcb) (p : Pass)
    → Represents q s
    → IsRunning s
    → mine t₀.id (threads s) ≡ t₀ ∷ []
    → deref q'.ready_queue q'.rq_current ≡ some t
    → resume e.bytes t ≡ some p
    → SelectAnswers e.later q' p.thread p.stop
    → step e q' ≡ some (p.printed, none)
    → (thread : Tcb) × Alone t₀ (lines_of t₀.id (lines turns ++ p.printed)) thread false
Turns-Alone t₀ q q' s turns e t p r runs one current resumed answers taken =
    let start : Told t₀.id t₀ [] (threads s) = record {
      thread = t₀;
      is_left = true;
      history = fresh;
      only = inr (one, refl);
    } in
    let over : Told t₀.id t₀ (lines_of t₀.id (lines turns) ++ lines_of t₀.id p.printed) [] =
      step-After t₀ (lines_of t₀.id (lines turns)) e t p q' none
        (Turns-After t₀ q q' turns (s, r, runs, start)) current resumed answers taken in
    Told-over t₀ (lines_of t₀.id (lines turns ++ p.printed))
      (subst (λ zs. Told t₀.id t₀ zs []) (sym (lines_of-append t₀.id (lines turns) p.printed)) over)
