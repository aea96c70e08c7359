-- ===== src/Threads/Machine/Falling.antt =====
-- hw3_thread-library-lala-ju at work: what the thread of collatz shows among the others.
use mathlib.Core.List.{append_assoc}
use mathlib.Core.Option.{some-injective}
use system_programming_homew.Prelude.{
  ℕ, zero, suc, ◌+◌, ◌<◌, ◌≡◌, inl, inr, refl, sym, ap, subst, ◌∙◌, Bool, true, false, List, [],
  ◌∷◌, ◌++◌, some, ◌==◌, arith,
}
use system_programming_homew.Prelude.Int.{ℤ, pos, int_max}
use system_programming_homew.Threads.Tcb.{Tcb, Environment, Program}
use system_programming_homew.Threads.Programs.{is_one, collatz_body}
use system_programming_homew.Threads.Programs.Collatz.{
  collatz_next, orbit, Falls, value, collatz_body-next,
}
use system_programming_homew.Threads.Machine.{Pass, end_body, resume}
use system_programming_homew.Threads.Machine.Lines.{lines_of}
use system_programming_homew.Threads.Machine.Alone.{Alone, fresh, turn, stays}
use system_programming_homew.Threads.Machine.Passes.{
  Place, lines_of-own, loop_turn-Place, resume-collatz,
}

-- The thread of `collatz` after `j` passes, where `n` is the number that it goes on from.
record Passed (i j n : ℕ) (t : Tcb) : Type 0 where
  own_id : t.id ≡ i
  own_program : t.program ≡ Program.collatz
  from : value (record t { i = pos (suc j) }) ≡ pos n
  place : Place j t

-- With all that it is to show: before its last pass, and behind it.
abbrev Shown : ℕ → List ℤ → List ℤ → Tcb → Bool → Type 0
Shown i whole zs t true =
    (j : ℕ) × (k : ℕ) × (n : ℕ) × (zs ++ orbit (suc k) n ≡ whole)
    × (k + suc j < int_max)
    × Falls k n
    × Passed i j n t
Shown i whole zs t false = zs ≡ whole

-- The control block after pass `j`.
abbrev passed_on : Tcb → ℕ → ℕ → Tcb
passed_on t j n = record t { i = pos (suc j); x = pos (collatz_next n) }

resume-Passed :
    (i j n : ℕ) (bytes : List ℕ) (t : Tcb)
    → Passed i j n t
    → suc j < int_max
    → collatz_next n < int_max
    → resume bytes t
      ≡ some (end_body (pos (collatz_next n)) (collatz_next n == 1) (passed_on t j n))
resume-Passed i j n bytes t h small fits =
    resume-collatz bytes t h.own_program
    ∙ loop_turn-Place collatz_body (λ t. t.x) j t (passed_on t j n) (collatz_next n == 1) h.place
        small (collatz_body-next n (record t { i = pos (suc j) }) h.from fits)

shown_next :
    (i : ℕ) (zs : List ℤ) (j n : ℕ) (t : Tcb) (last : Bool)
    → t.id ≡ i
    → zs ++ lines_of i (end_body (pos (collatz_next n)) last (passed_on t j n)).printed
      ≡ zs ++ pos (collatz_next n) ∷ []
shown_next i zs j n t last h = ap (λ l. zs ++ l) (lines_of-own i t.id (pos (collatz_next n)) h)

turn-Shown :
    (i j k n : ℕ) (whole zs : List ℤ) (bytes : List ℕ) (t : Tcb) (p : Pass)
    → zs ++ orbit (suc k) n ≡ whole
    → k + suc j < int_max
    → Falls k n
    → Passed i j n t
    → resume bytes t ≡ some p
    → Shown i whole (zs ++ lines_of i p.printed) p.thread (stays p.stop)
unfolding orbit Falls
turn-Shown i j zero n whole zs bytes t p shown small falls h resumed =
    let last : (collatz_next n == 1) ≡ true = ground arith in
    let same : end_body (pos (collatz_next n)) true (passed_on t j n) ≡ p =
      some-injective _ p
        (sym (rw last at (resume-Passed i j n bytes t h (omega arith) (omega arith))) ∙ resumed) in
    subst (λ p. Shown i whole (zs ++ lines_of i p.printed) p.thread (stays p.stop)) same
      (shown_next i zs j n t true h.own_id ∙ shown)
turn-Shown i j (suc k) n whole zs bytes t p shown small falls h resumed =
    let more : (collatz_next n == 1) ≡ false = ground (arith, falls.0) in
    let same : end_body (pos (collatz_next n)) false (passed_on t j n) ≡ p =
      some-injective _ p
        (sym (rw more at (resume-Passed i j n bytes t h (omega arith) (falls.1))) ∙ resumed) in
    let second : is_one (pos (suc (suc j))) ≡ false = ground arith in
    subst (λ p. Shown i whole (zs ++ lines_of i p.printed) p.thread (stays p.stop)) same
      (
        suc j,
        k,
        collatz_next n,
        ap (λ l. l ++ orbit (suc k) (collatz_next n)) (shown_next i zs j n t false h.own_id)
            ∙ append_assoc zs (pos (collatz_next n) ∷ []) (orbit (suc k) (collatz_next n))
            ∙ shown,
        omega arith,
        falls.2,
        record {
          own_id = h.own_id;
          own_program = h.own_program;
          from = rw second refl;
          place = inr (refl, refl);
        },
      )

Alone-Shown :
    (t₀ : Tcb) (k n : ℕ) (zs : List ℤ) (t : Tcb) (is_left : Bool)
    → Passed t₀.id 0 n t₀
    → suc k < int_max
    → Falls k n
    → Alone t₀ zs t is_left
    → Shown t₀.id (orbit (suc k) n) zs t is_left
Alone-Shown t₀ k n _ _ _ start small falls fresh = (0, k, n, refl, omega arith, falls, start)
Alone-Shown t₀ k n _ _ _ start small falls (turn {zs = zs} {t = t} bytes p before resumed) =
    let (j', k', n', shown, small', falls', h) =
      Alone-Shown t₀ k n zs t true start small falls before in
    turn-Shown t₀.id j' k' n' (orbit (suc k) n) zs bytes t p shown small' falls' h resumed

pub Alone-orbit :
    (t₀ thread : Tcb) (k n : ℕ) (zs : List ℤ)
    → t₀.program ≡ Program.collatz
    → t₀.environment ≡ Environment.set_up
    → t₀.arg ≡ pos n
    → suc k < int_max
    → Falls k n
    → Alone t₀ zs thread false
    → zs ≡ orbit (suc k) n
Alone-orbit t₀ thread k n zs hp he ha small falls alone =
    Alone-Shown t₀ k n zs thread false
      (record { own_id = refl; own_program = hp; from = ha; place = inl (refl, he) }) small falls
      alone
