-- ===== src/Threads/Machine/Fair.antt =====
-- hw3_thread-library-lala-ju at work: turns that all end in thread_yield with a signal pending.
mod Tests
use mathlib.Core.Option.{none-ne-some, some-injective}
use system_programming_homew.Prelude.{
  ℕ, zero, suc, ◌+◌, ◌-◌, ltb, ◌<◌, ◌≤◌, ◌≡◌, ◌≢◌, refl, sym, ap, subst, ◌∙◌, true, false,
  Bool-cases, inl, inr, List, [], ◌∷◌, ◌++◌, Option, some, ◌==◌, if◌then◌else◌, length,
  length-append, get_elem?, arith,
}
use system_programming_homew.Threads.Tcb.{Tcb, Queues, thread_max}
use system_programming_homew.Threads.Scheduler.{deref}
use system_programming_homew.Threads.Scheduler.Arrays.{filled}
use system_programming_homew.Threads.Scheduler.Gaps.{readies}
use system_programming_homew.Threads.Scheduler.Schedule.{
  Schedule, Represents, IsRunning, wake, turn, interrupted-turn,
}
use system_programming_homew.Threads.Scheduler.Running.{running}
use system_programming_homew.Threads.Machine.{Stop, Pass, Event, put, switch, step, resume}
use system_programming_homew.Threads.Machine.Steps.{put-Represents, deref-Represents}
use system_programming_homew.Threads.Machine.Reach.{IsRunning-split}

-- A number of turns one after the other, each of which ends in thread_yield, where a signal is pending.
pub data Yields : ℕ → Queues → Queues → Type 0 where
  none_yet : {q : Queues} → Yields 0 q q
  one_yields :
      {n : ℕ} {q q' q'' : Queues} (e : Event) (t : Tcb) (p : Pass)
      → deref q.ready_queue q.rq_current ≡ some t
      → resume e.bytes t ≡ some p
      → p.stop ≡ Stop.yields
      → e.signalled ≡ true
      → step e q ≡ some (p.printed, some q')
      → Yields n q' q''
      → Yields (suc n) q q''

-- Among `n` of these turns, the thread `t` is the running one after some, perhaps after none.
abbrev pub ReachedIn : ℕ → Queues → Queues → Tcb → Type 0
ReachedIn n q q' t =
    (k : ℕ) × (m : ℕ) × (k + m ≡ n)
    × (q₁ : Queues) × Yields k q q₁
    × Yields m q₁ q'
    × (deref q₁.ready_queue q₁.rq_current ≡ some t)

deref-filled :
    (ts : List Tcb) (pad i : ℕ) (t : Tcb)
    → get_elem? ts i ≡ some t
    → deref (filled ts pad) i ≡ some t
deref-filled [] pad i t h = absurd (none-ne-some t h)
deref-filled (u ∷ ts) pad zero t h = h
deref-filled (u ∷ ts) pad (suc i) t h = deref-filled ts pad i t h

get_elem?-more :
    (ts us : List Tcb) (i : ℕ) (t : Tcb) → get_elem? ts i ≡ some t → get_elem? (ts ++ us) i ≡ some t
get_elem?-more [] us i t h = absurd (none-ne-some t h)
get_elem?-more (u ∷ ts) us zero t h = h
get_elem?-more (u ∷ ts) us (suc i) t h = get_elem?-more ts us i t h

get_elem?-lt : (ts : List Tcb) (i : ℕ) (t : Tcb) → get_elem? ts i ≡ some t → i < length ts
get_elem?-lt [] i t h = absurd (none-ne-some t h)
get_elem?-lt (u ∷ ts) zero t h = omega arith
get_elem?-lt (u ∷ ts) (suc i) t h = omega (arith, get_elem?-lt ts i t h)

-- Another place of the ready queue.
get_elem?-other :
    (before after : List Tcb) (u u' : Tcb) (i : ℕ)
    → i ≢ length before
    → get_elem? (before ++ u ∷ after) i ≡ get_elem? (before ++ u' ∷ after) i
get_elem?-other [] after u u' zero n = absurd (n refl)
get_elem?-other [] after u u' (suc i) n = refl
get_elem?-other (b ∷ before) after u u' zero n = refl
get_elem?-other (b ∷ before) after u u' (suc i) n =
    get_elem?-other before after u u' i (λ h. n (ap suc h))

-- The schedule after such a turn: the next thread runs, and those at other places are where they were.
record Next (q' : Queues) (s : Schedule) : Type 0 where
  after_it : Schedule
  holds : Represents q' after_it
  runs : IsRunning after_it
  at_next : after_it.current ≡ (if suc s.current == length after_it.ready then 0 else suc s.current)
  others :
      (i : ℕ) (t : Tcb)
      → i ≢ s.current
      → get_elem? s.ready i ≡ some t
      → get_elem? after_it.ready i ≡ some t

step_yields :
    (e : Event) (before after ws : List Tcb) (t : Tcb) (p : Pass) (q q' : Queues)
    → Represents q (running before t after ws)
    → resume e.bytes t ≡ some p
    → p.stop ≡ Stop.yields
    → e.signalled ≡ true
    → step e q ≡ some (p.printed, some q')
    → Next q' (running before t after ws)
unfolding step switch
step_yields e before after ws t p q q' r resumed stops signalled taken =
    let s₁ : Schedule = running before p.thread after ws in
    let (q₁, done, r₁, runs, _) =
      interrupted-turn e.is_set (put p.thread q) s₁ (put-Represents before after ws t p.thread q r)
        (omega (arith, length-append before (p.thread ∷ after))) in
    let computed : step e q ≡ some (p.printed, some q₁) =
      rw (deref-Represents before after ws t q r, resumed, stops, signalled, done) in
    let same : some q₁ ≡ some q' =
      ap (λ x. x.1)
        (some-injective (p.printed, some q₁) (p.printed, some q') (sym computed ∙ taken)) in
    record {
      after_it = turn (wake e.is_set s₁);
      holds = subst (λ q. Represents q (turn (wake e.is_set s₁))) (some-injective q₁ q' same) r₁;
      runs = runs;
      at_next = refl;
      others = λ i u n h.
          get_elem?-more (before ++ p.thread ∷ after) (readies e.is_set ws) i u
            (sym (get_elem?-other before after t p.thread i n) ∙ h);
    }

turn-Next :
    (e : Event) (t : Tcb) (p : Pass) (q q' : Queues) (s : Schedule)
    → Represents q s
    → IsRunning s
    → deref q.ready_queue q.rq_current ≡ some t
    → resume e.bytes t ≡ some p
    → p.stop ≡ Stop.yields
    → e.signalled ≡ true
    → step e q ≡ some (p.printed, some q')
    → Next q' s
turn-Next e t p q q' s r runs current resumed stops signalled taken =
    let (before, t', after, split) = IsRunning-split s.current s.ready s.waiting runs in
    let r' : Represents q (running before t' after s.waiting) = subst (Represents q) split r in
    let same : t' ≡ t =
      some-injective t' t (sym (deref-Represents before after s.waiting t' q r') ∙ current) in
    subst (Next q') (sym split) (
      step_yields e before after s.waiting t' p q q' r' (ap (resume e.bytes) same ∙ resumed) stops
        signalled taken)

at_once :
    (n : ℕ) (q q' : Queues) (s : Schedule) (t : Tcb)
    → Represents q s
    → get_elem? s.ready s.current ≡ some t
    → Yields n q q'
    → ReachedIn n q q' t
at_once n q q' s t r there turns = (
  0,
  n,
  omega arith,
  q,
  none_yet,
  turns,
  ap (λ q. deref q.ready_queue q.rq_current) r.arrays
      ∙ deref-filled s.ready r.pad s.current t there,
)

-- One turn in front.
one_later :
    (n : ℕ) (e : Event) (u : Tcb) (p : Pass) (q q₁ q' : Queues) (t : Tcb)
    → deref q.ready_queue q.rq_current ≡ some u
    → resume e.bytes u ≡ some p
    → p.stop ≡ Stop.yields
    → e.signalled ≡ true
    → step e q ≡ some (p.printed, some q₁)
    → ReachedIn n q₁ q' t
    → ReachedIn (suc n) q q' t
one_later n e u p q q₁ q' t current resumed stops signalled taken
      (k, m, both, q₂, first, rest, runs) =
    (
      suc k,
      m,
      omega (arith, both),
      q₂,
      one_yields e u p current resumed stops signalled taken first,
      rest,
      runs,
    )

-- A thread `d` places behind the running one.
reached_behind :
    (d i n : ℕ) (q q' : Queues) (s : Schedule) (t : Tcb)
    → Represents q s
    → IsRunning s
    → get_elem? s.ready i ≡ some t
    → s.current + d ≡ i
    → d ≤ n
    → Yields n q q'
    → ReachedIn n q q' t
reached_behind zero i n q q' s t r runs there place enough turns =
    let here : i ≡ s.current = omega (arith, place) in
    at_once n q q' s t r (subst (λ i. get_elem? s.ready i ≡ some t) here there) turns
reached_behind (suc d) i zero q q' s t r runs there place enough turns = absurd (omega arith)
reached_behind (suc d) i (suc n) q q' s t r runs there place enough
      (one_yields {q' = q₁} e u p current resumed stops signalled taken turns) =
    let next = turn-Next e u p q q₁ s r runs current resumed stops signalled taken in
    let there' = next.others i t (omega (arith, place)) there in
    let inside = get_elem?-lt next.after_it.ready i t there' in
    let not_last : (suc s.current == length next.after_it.ready) ≡ false = ground arith in
    let at : next.after_it.current ≡ suc s.current = next.at_next ∙ rw not_last refl in
    one_later n e u p q q₁ q' t current resumed stops signalled taken (
      reached_behind d i n q₁ q' next.after_it t next.holds next.runs there'
        (omega (arith, at, place)) (omega arith) turns)

-- A thread in front of the running one; at most `m` turns lead back to the first place.
reached_round :
    (m i n : ℕ) (q q' : Queues) (s : Schedule) (t : Tcb)
    → Represents q s
    → IsRunning s
    → get_elem? s.ready i ≡ some t
    → i < s.current
    → m + s.current ≡ thread_max
    → m + i ≤ n
    → Yields n q q'
    → ReachedIn n q q' t
reached_round zero i n q q' s t r runs there front place enough turns =
    absurd (omega (arith, r.few, place))
reached_round (suc m) i zero q q' s t r runs there front place enough turns = absurd (omega arith)
reached_round (suc m) i (suc n) q q' s t r runs there front place enough
      (one_yields {q' = q₁} e u p current resumed stops signalled taken turns) =
    let next = turn-Next e u p q q₁ s r runs current resumed stops signalled taken in
    let there' = next.others i t (omega (arith, front)) there in
    one_later n e u p q q₁ q' t current resumed stops signalled taken
      (elim (Bool-cases (suc s.current == length next.after_it.ready)) [
        | inl last ↦
            let at : next.after_it.current ≡ 0 = next.at_next ∙ rw last refl in
            reached_behind i i n q₁ q' next.after_it t next.holds next.runs there'
              (omega (arith, at)) (omega (arith, enough)) turns
        | inr not_last ↦
            let at : next.after_it.current ≡ suc s.current = next.at_next ∙ rw not_last refl in
            reached_round m i n q₁ q' next.after_it t next.holds next.runs there'
              (omega (arith, at, front)) (omega (arith, at, place)) (omega (arith, enough)) turns
      ])

-- If the arrays represent a schedule with a running thread, and 16 turns follow one after the other
-- of which each ends in thread_yield while a signal is pending, then every ready thread is the
-- running one before one of these turns or after the last, whichever threads become ready meanwhile.
pub Yields-reach :
    (q q' : Queues) (s : Schedule) (i : ℕ) (t : Tcb)
    → Represents q s
    → IsRunning s
    → get_elem? s.ready i ≡ some t
    → Yields thread_max q q'
    → ReachedIn thread_max q q' t
Yields-reach q q' s i t r runs there turns =
    let inside = get_elem?-lt s.ready i t there in
    let few : length s.ready ≤ thread_max = omega (arith, r.few) in
    elim (Bool-cases (ltb i s.current)) [
      | inl front ↦
          let before : i < s.current = ground arith in
          reached_round (thread_max - s.current) i thread_max q q' s t r runs there before
            (omega arith) (omega arith) turns
      | inr behind ↦
          let after : s.current ≤ i = ground arith in
          reached_behind (i - s.current) i thread_max q q' s t r runs there (omega arith)
            (omega arith) turns
    ]
