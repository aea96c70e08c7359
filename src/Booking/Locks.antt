-- ===== src/Booking/Locks.antt =====
-- The record locks of the operating system, which hw1_csiebooking-lala-ju/server.c sets by `fcntl`
-- with F_SETLK: they belong to a process, and a request that conflicts with another process's lock is
-- refused. Two processes take part, the server built with READ_SERVER and that with WRITE_SERVER.
use mathlib.Core.Bool.{true≢false}
use system_programming_homew.Prelude.{
  ℕ, ◌≡◌, ◌≢◌, ◌⊎◌, refl, Bool, true, false, ◌==◌, if◌then◌else◌, arith, Bool-cases, inl, inr, sym,
  ◌∙◌,
}

pub data Process : Type 0 where
  reader writer : Process

abbrev pub other : Process → Process
other reader = writer
other writer = reader

-- The `l_type` of a request; F_UNLCK is `unlocked`.
pub data Lock : Type 0 where
  unlocked shared exclusive : Lock

-- When the system grants a request over what the other process holds.
abbrev pub compatible : Lock → Lock → Bool
compatible unlocked theirs = true
compatible shared exclusive = false
compatible shared unlocked = true
compatible shared shared = true
compatible exclusive unlocked = true
compatible exclusive shared = false
compatible exclusive exclusive = false

pub record FileLocks : Type 1 where
  pub Table : Type 0
  pub held : Table → Process → ℕ → Lock
  pub set_lock : Table → Process → ℕ → Lock → Table × Bool
  pub answer :
      (t : Table) (p : Process) (r : ℕ) (l : Lock)
      → (set_lock t p r l).1 ≡ compatible l (held t (other p) r)
  pub granted :
      (t : Table) (p : Process) (r : ℕ) (l : Lock)
      → (set_lock t p r l).1 ≡ true
      → held (set_lock t p r l).0 p r ≡ l
  pub refused :
      (t : Table) (p : Process) (r : ℕ) (l : Lock) (q : Process) (k : ℕ)
      → (set_lock t p r l).1 ≡ false
      → held (set_lock t p r l).0 q k ≡ held t q k
  pub elsewhere :
      (t : Table) (p : Process) (r : ℕ) (l : Lock) (q : Process) (k : ℕ)
      → (q ≢ p) ⊎ (k ≢ r)
      → held (set_lock t p r l).0 q k ≡ held t q k

-- A table as a function meets the assumptions.
unfoldable pub is_process : Process → Process → Bool
is_process reader reader = true
is_process writer writer = true
is_process reader writer = false
is_process writer reader = false

abbrev pub put : (Process → ℕ → Lock) → Process → ℕ → Lock → Process → ℕ → Lock
unfolding is_process
put t p r l q k = if is_process p q then (if k == r then l else t q k) else t q k

abbrev pub ask : (Process → ℕ → Lock) → Process → ℕ → Lock → (Process → ℕ → Lock) × Bool
unfolding is_process
ask t p r l = if compatible l (t (other p) r) then (put t p r l, true) else (t, false)

put-elsewhere :
    (t : Process → ℕ → Lock) (p : Process) (r : ℕ) (l : Lock) (q : Process) (k : ℕ)
    → (q ≢ p) ⊎ (k ≢ r)
    → put t p r l q k ≡ t q k
unfolding is_process
put-elsewhere t reader r l reader k h = grind arith
put-elsewhere t reader r l writer k h = refl
put-elsewhere t writer r l reader k h = refl
put-elsewhere t writer r l writer k h = grind arith

pub ask-elsewhere :
    (t : Process → ℕ → Lock) (p : Process) (r : ℕ) (l : Lock) (q : Process) (k : ℕ)
    → (q ≢ p) ⊎ (k ≢ r)
    → (ask t p r l).0 q k ≡ t q k
unfolding is_process
ask-elsewhere t p r l q k h = elim (Bool-cases (compatible l (t (other p) r))) [
  | inl e ↦ rw e (put-elsewhere t p r l q k h)
  | inr e ↦ rw e
]

pub ask-granted :
    (t : Process → ℕ → Lock) (p : Process) (r : ℕ) (l : Lock)
    → (ask t p r l).1 ≡ true
    → (ask t p r l).0 p r ≡ l
unfolding is_process
ask-granted t reader r l h = ground arith
ask-granted t writer r l h = ground arith

pub ask-answer :
    (t : Process → ℕ → Lock) (p : Process) (r : ℕ) (l : Lock)
    → (ask t p r l).1 ≡ compatible l (t (other p) r)
unfolding is_process
ask-answer t p r l = ground arith

pub ask-refused :
    (t : Process → ℕ → Lock) (p : Process) (r : ℕ) (l : Lock) (q : Process) (k : ℕ)
    → (ask t p r l).1 ≡ false
    → (ask t p r l).0 q k ≡ t q k
unfolding is_process
ask-refused t p r l q k h = elim (Bool-cases (compatible l (t (other p) r))) [
  | inl e ↦ absurd (true≢false (sym e ∙ sym (ask-answer t p r l) ∙ h))
  | inr e ↦ rw e
]

abbrev pub lock_table : FileLocks
lock_table = record {
  Table = Process → ℕ → Lock;
  held = λ t q k. t q k;
  set_lock = ask;
  answer = ask-answer;
  granted = ask-granted;
  refused = ask-refused;
  elsewhere = ask-elsewhere;
}
