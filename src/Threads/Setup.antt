-- ===== src/Threads/Setup.antt =====
-- hw3_thread-library-lala-ju/main.c and threadtools.h: `init_threads` and `thread_setup`, which fill the
-- ready queue before `scheduler` starts.
use mathlib.Core.List.{append-nil, append_assoc}
use system_programming_homew.Prelude.{
  ℕ, zero, suc, ◌+◌, ◌<◌, ◌≤◌, ◌≡◌, refl, ap, subst, ◌∙◌, Bool, Bool-cases, inl, inr, List, [], ◌∷◌,
  ◌++◌, Option, some, if◌then◌else◌, length, length-append, arith,
}
use system_programming_homew.Prelude.Int.{ℤ, pos, leb_ℤ}
use system_programming_homew.Threads.Tcb.{
  Tcb, Queues, Program, fibonacci, collatz, max_subarray, set_up, thread_max,
}
use system_programming_homew.Threads.Scheduler.{◌>>=◌, store}
use system_programming_homew.Threads.Scheduler.Arrays.{represent, store-filled}
use system_programming_homew.Threads.Scheduler.Schedule.{Schedule, Represents}

-- A new control block; `open` returns `fd`, and behind its first byte `buf` is what `malloc` gave.
abbrev pub new_tcb : ℕ → Program → ℤ → ℕ → List ℕ → Tcb
new_tcb id program arg fd memory = record {
  id = id;
  program = program;
  environment = set_up;
  arg = arg;
  fd = fd;
  buf = 0 ∷ memory;
  i = pos 0;
  x = pos 0;
  y = pos 0;
  sum = pos 0;
}

-- `thread_setup`, up to its `return`.
unfoldable pub thread_setup : Tcb → Queues → Option Queues
thread_setup t q = do
  ready ← store q.ready_queue q.rq_size (some t)
  some (record q { ready_queue = ready; rq_size = q.rq_size + 1 })

-- An argument below 0 makes no thread.
abbrev pub is_wanted : ℤ → Bool
is_wanted arg = leb_ℤ (pos 0) arg

abbrev pub create : Tcb → Queues → Option Queues
unfolding thread_setup
create t q = if is_wanted t.arg then thread_setup t q else some q

-- `init_threads`; `opened` is what `open` returns for each fifo, `memory` what `malloc` gave.
unfoldable pub init_threads : (ℕ → ℕ) → (ℕ → List ℕ) → ℤ → ℤ → ℤ → Queues → Option Queues
unfolding thread_setup
init_threads opened memory fib_arg col_arg sub_arg q = do
  q₁ ← create (new_tcb 0 fibonacci fib_arg (opened 0) (memory 0)) q
  q₂ ← create (new_tcb 1 collatz col_arg (opened 1) (memory 1)) q₁
  create (new_tcb 2 max_subarray sub_arg (opened 2) (memory 2)) q₂

-- The schedule with one thread more, if it is wanted.
abbrev pub wanted : Tcb → List Tcb
wanted t = if is_wanted t.arg then t ∷ [] else []

abbrev pub joined : Tcb → Schedule → Schedule
joined t s = record s { ready = s.ready ++ wanted t }

thread_setup-Represents :
    (t : Tcb) (q : Queues) (s : Schedule)
    → Represents q s
    → length s.ready + length s.waiting < thread_max
    → (q' : Queues) × (thread_setup t q ≡ some q')
      × Represents q' (record s { ready = s.ready ++ t ∷ [] })
unfolding thread_setup
thread_setup-Represents t q s r room = with_room r.pad refl
  where
    with_room :
        (n : ℕ)
        → r.pad ≡ n
        → (q' : Queues) × (thread_setup t q ≡ some q')
          × Represents q' (record s { ready = s.ready ++ t ∷ [] })
    with_room zero e = absurd (omega (arith, r.ready_places))
    with_room (suc n) e =
        let size : length s.ready + 1 ≡ length (s.ready ++ t ∷ []) =
          omega (arith, length-append s.ready (t ∷ [])) in
        (
          represent (s.ready ++ t ∷ []) n s.current s.waiting r.wpad,
          ap (thread_setup t) r.arrays
              ∙ ap (λ k. thread_setup t (represent s.ready k s.current s.waiting r.wpad)) e
              ∙ rw (store-filled s.ready n (length s.ready) t refl, size),
          record {
            pad = n;
            wpad = r.wpad;
            arrays = refl;
            ready_places = omega (arith, r.ready_places, size);
            wait_places = r.wait_places;
            few = omega (arith, size, room);
          },
        )

create-Represents :
    (t : Tcb) (q : Queues) (s : Schedule)
    → Represents q s
    → length s.ready + length s.waiting < thread_max
    → (q' : Queues) × (create t q ≡ some q') × Represents q' (joined t s)
unfolding thread_setup
create-Represents t q s r room = elim (Bool-cases (is_wanted t.arg)) [
  | inl e ↦ rw e (thread_setup-Represents t q s r room)
  | inr e ↦ (q, rw e, rw (e, append-nil s.ready) r)
]

pub length-wanted : (t : Tcb) → length (wanted t) ≤ 1
length-wanted t = elim (Bool-cases (is_wanted t.arg)) [
  | inl e ↦ rw e (omega arith)
  | inr e ↦ rw e (omega arith)
]

-- If the arrays are empty, init_threads writes outside no array, and leaves arrays that represent
-- the threads whose argument is not negative, in the order fibonacci, collatz, max_subarray, with no
-- thread waiting.
pub init_threads-Represents :
    (opened : ℕ → ℕ) (memory : ℕ → List ℕ) (fib_arg col_arg sub_arg : ℤ) (q : Queues)
    → Represents q (record { ready = []; current = 0; waiting = [] })
    → (q' : Queues) × (init_threads opened memory fib_arg col_arg sub_arg q ≡ some q')
      × Represents q' (record {
        ready =
            wanted (new_tcb 0 fibonacci fib_arg (opened 0) (memory 0))
            ++ (wanted (new_tcb 1 collatz col_arg (opened 1) (memory 1))
                ++ wanted (new_tcb 2 max_subarray sub_arg (opened 2) (memory 2)));
        current = 0;
        waiting = [];
      })
unfolding init_threads
init_threads-Represents opened memory fib_arg col_arg sub_arg q r =
    let fib : Tcb = new_tcb 0 fibonacci fib_arg (opened 0) (memory 0) in
    let col : Tcb = new_tcb 1 collatz col_arg (opened 1) (memory 1) in
    let sub : Tcb = new_tcb 2 max_subarray sub_arg (opened 2) (memory 2) in
    let empty : Schedule = record { ready = []; current = 0; waiting = [] } in
    let one : Schedule = joined fib empty in
    let two : Schedule = joined col one in
    let (q₁, made₁, r₁) = create-Represents fib q empty r (omega arith) in
    let (q₂, made₂, r₂) = create-Represents col q₁ one r₁ (omega (arith, length-wanted fib)) in
    let (q₃, made₃, r₃) = create-Represents sub q₂ two r₂ (
      omega
        (arith, length-wanted fib, length-wanted col, length-append (wanted fib) (wanted col))) in
    (
      q₃,
      rw (made₁, made₂) made₃,
      subst (λ ts. Represents q₃ (record { ready = ts; current = 0; waiting = [] }))
          (append_assoc (wanted fib) (wanted col) (wanted sub)) r₃,
    )
