-- ===== src/Threads/Machine/Lines.antt =====
-- hw3_thread-library-lala-ju at work: a thread keeps its id, and prints its lines under it.
use system_programming_homew.Prelude.{
  ℕ, ◌≡◌, ◌≢◌, inl, inr, refl, subst, ◌∙◌, Bool, true, false, Bool-cases, List, [], ◌∷◌, ◌++◌,
  Option, none, some, ◌==◌, if◌then◌else◌, take, arith,
}
use system_programming_homew.Prelude.Int.{ℤ, pos, ◌+ℤ◌, leb_ℤ, ltb_ℤ}
use system_programming_homew.CString.{atoi}
use system_programming_homew.Threads.Tcb.{Tcb, Environment, Program}
use system_programming_homew.Threads.Scheduler.{◌>>=◌}
use system_programming_homew.Threads.Programs.{
  checked, is_last, is_one, collatz_value, fibonacci_body, collatz_body, max_subarray_body,
  async_read,
}
use system_programming_homew.Threads.Machine.{
  Stop, Pass, end_body, next_i, loop_turn, read_turn, resume,
}

-- What lines with one id show.
unfoldable pub lines_of : ℕ → List (ℕ × ℤ) → List ℤ
lines_of i [] = []
lines_of i ((j, z) ∷ ls) = if j == i then z ∷ lines_of i ls else lines_of i ls

-- All results of a computation that may fail.
abbrev Results {ℓ} : {A : Type ℓ} → (A → Type 0) → Option A → Type 0
Results Q none = Unit {0}
Results Q (some a) = Q a

Results-bind {ℓ κ} :
    {A : Type ℓ} {B : Type κ} (Q : A → Type 0) (R : B → Type 0) (o : Option A) (f : A → Option B)
    → Results Q o
    → ((a : A) → Q a → Results R (f a))
    → Results R (o >>= f)
Results-bind Q R none f h k = tt
Results-bind Q R (some a) f h k = k a h

Results-some {ℓ} :
    {A : Type ℓ} (Q : A → Type 0) (o : Option A) (a : A) → o ≡ some a → Results Q o → Q a
Results-some Q o a e h = subst (Results Q) e h

Results-any {ℓ} : {A : Type ℓ} (o : Option A) → Results (λ a. Unit {0}) o
Results-any none = tt
Results-any (some a) = tt

-- The lines carry the id.
abbrev pub AllOwn : ℕ → List (ℕ × ℤ) → Type 0
AllOwn i [] = Unit {0}
AllOwn i (l ∷ ls) = (l.0 ≡ i) × AllOwn i ls

abbrev pub Keeps : Tcb → Pass → Type 0
Keeps t p = (p.thread.id ≡ t.id) × AllOwn t.id p.printed

Results-then {ℓ κ} :
    {A : Type ℓ} {B : Type κ} (R : B → Type 0) (o : Option A) (f : A → Option B)
    → ((a : A) → Results R (f a))
    → Results R (o >>= f)
Results-then R none f k = tt
Results-then R (some a) f k = k a

Results-if {ℓ} :
    {A : Type ℓ} (Q : A → Type 0) (b : Bool) (o o' : Option A)
    → Results Q o
    → Results Q o'
    → Results Q (if b then o else o')
Results-if Q true o o' h h' = h
Results-if Q false o o' h h' = h'

-- The bodies of the loops leave the id as it is.
abbrev SameId : Tcb → Tcb → Type 0
SameId t t' = t'.id ≡ t.id

next_i-SameId : (t : Tcb) → Results (SameId t) (next_i t)
unfolding next_i
next_i-SameId t = by_place t.environment
  where
    counted : Results (SameId t) (do i ← checked (t.i +ℤ pos 1); some (record t { i = i }))
    counted = Results-then (SameId t) (checked (t.i +ℤ pos 1)) _ (λ a. refl)

    by_place :
        (e : Environment)
        → Results (SameId t) (elim e [
          | Environment.set_up ↦ some (record t { i = pos 1 })
          | _ ↦ (do i ← checked (t.i +ℤ pos 1); some (record t { i = i }))
        ])
    by_place Environment.set_up = refl
    by_place Environment.reading = counted
    by_place Environment.yielded = counted

fibonacci_body-SameId : (t : Tcb) → Results (λ x. SameId t x.0) (fibonacci_body t)
unfolding fibonacci_body
fibonacci_body-SameId t =
    Results-bind (SameId t) (λ x. SameId t x.0) _ _
      (Results-if (SameId t) (leb_ℤ t.i (pos 2)) _ _ refl
        (Results-then (SameId t) (checked (t.x +ℤ t.y)) _ (λ y. refl)))
      (λ t' h. h)

collatz_body-SameId : (t : Tcb) → Results (λ x. SameId t x.0) (collatz_body t)
unfolding collatz_body
collatz_body-SameId t =
    Results-then {A = ℤ} {B = Tcb × Bool} (λ x. SameId t x.0)
      (collatz_value (if is_one t.i then t.arg else t.x)) (λ x. some (record t { x = x }, is_one x))
      (λ x. refl)

max_subarray_body-SameId : (t : Tcb) → Results (SameId t) (max_subarray_body t)
unfolding max_subarray_body
max_subarray_body-SameId t =
    Results-then (SameId t) (checked (atoi t.buf +ℤ t.y))
      (λ both.
        let x : ℤ = atoi t.buf in
        let y : ℤ = if ltb_ℤ x both then both else x in
        some (record t { x = x; y = y; sum = if ltb_ℤ t.sum y then y else t.sum }))
      (λ both. refl)

end_body-Keeps : (n : ℤ) (last : Bool) (t t' : Tcb) → SameId t t' → Keeps t (end_body n last t')
end_body-Keeps n true t t' h = (h, (h, tt))
end_body-Keeps n false t t' h = (h, (h, tt))

loop_turn-Keeps :
    (body : Tcb → Option (Tcb × Bool)) (shown : Tcb → ℤ) (t : Tcb)
    → ((t' : Tcb) → Results (λ x. SameId t' x.0) (body t'))
    → Results (Keeps t) (loop_turn body shown t)
unfolding loop_turn
loop_turn-Keeps body shown t h =
    Results-bind (SameId t) (Keeps t) (next_i t) _ (next_i-SameId t) (λ t' same.
      Results-bind (λ x. SameId t' x.0) (Keeps t) (body t') _ (h t')
        (λ x same'. end_body-Keeps (shown x.0) (x.1) t (x.0) (same' ∙ same)))

read_turn-Keeps : (bytes : List ℕ) (t : Tcb) → Results (Keeps t) (read_turn bytes t)
unfolding read_turn
read_turn-Keeps bytes t = by_place t.environment
  where
    waits : Tcb → Pass
    waits t' = record {
      thread = record t' { environment = Environment.reading };
      printed = [];
      stop = Stop.reads;
    }

    asks : Results (Keeps t) (do t' ← next_i t; some (waits t'))
    asks =
        Results-bind (SameId t) (Keeps t) (next_i t) (λ t'. some (waits t')) (next_i-SameId t)
          (λ t' same. (same, tt))

    shows : Tcb → Pass
    shows t' = end_body t'.sum (is_last t') t'

    reads_on :
        Results (Keeps t) (do t' ← max_subarray_body (async_read (take 5 bytes) t); some (shows t'))
    reads_on =
        Results-bind (SameId t) (Keeps t) (max_subarray_body (async_read (take 5 bytes) t))
          (λ t'. some (shows t')) (max_subarray_body-SameId (async_read (take 5 bytes) t))
          (λ t' same. end_body-Keeps t'.sum (is_last t') t t' same)

    by_place :
        (e : Environment)
        → Results (Keeps t) (elim e [
          | Environment.reading ↦ (do
            t' ← max_subarray_body (async_read (take 5 bytes) t)
            some (shows t'))
          | _ ↦ (do t' ← next_i t; some (waits t'))
        ])
    by_place Environment.set_up = asks
    by_place Environment.reading = reads_on
    by_place Environment.yielded = asks

-- A turn leaves the id of its thread, and prints nothing under another.
pub resume-Keeps : (bytes : List ℕ) (t : Tcb) → Results (Keeps t) (resume bytes t)
unfolding resume
resume-Keeps bytes t = by_program t.program
  where
    by_program :
        (p : Program)
        → Results (Keeps t) (elim p [
          | Program.fibonacci ↦ loop_turn fibonacci_body (λ t. t.y) t
          | Program.collatz ↦ loop_turn collatz_body (λ t. t.x) t
          | Program.max_subarray ↦ read_turn bytes t
        ])
    by_program Program.fibonacci = loop_turn-Keeps fibonacci_body (λ t. t.y) t fibonacci_body-SameId
    by_program Program.collatz = loop_turn-Keeps collatz_body (λ t. t.x) t collatz_body-SameId
    by_program Program.max_subarray = read_turn-Keeps bytes t

pub lines_of-append :
    (i : ℕ) (ls ms : List (ℕ × ℤ)) → lines_of i (ls ++ ms) ≡ lines_of i ls ++ lines_of i ms
unfolding lines_of
lines_of-append i [] ms = refl
lines_of-append i ((j, z) ∷ ls) ms = elim (Bool-cases (j == i)) [
  | inl e ↦ rw (e, lines_of-append i ls ms)
  | inr e ↦ rw (e, lines_of-append i ls ms)
]

pub lines_of-foreign : (i j : ℕ) (ls : List (ℕ × ℤ)) → j ≢ i → AllOwn j ls → lines_of i ls ≡ []
unfolding lines_of
lines_of-foreign i j [] n own = refl
lines_of-foreign i j ((k, z) ∷ ls) n own =
    let other : (k == i) ≡ false = ground (arith, n, own.0) in
    rw (other, lines_of-foreign i j ls n own.1)

pub resume-SameId :
    (bytes : List ℕ) (t : Tcb) (p : Pass)
    → resume bytes t ≡ some p
    → (p.thread.id ≡ t.id) × AllOwn t.id p.printed
resume-SameId bytes t p e = Results-some (Keeps t) (resume bytes t) p e (resume-Keeps bytes t)
