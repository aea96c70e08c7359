-- ===== src/Booking/System/WriterSteps.antt =====
-- hw1_csiebooking-lala-ju/server.c: the write server's handlers and the invariant.
use mathlib.Core.Bool.{not}
use system_programming_homew.Prelude.{
  ℕ, ◌+◌, ◌%◌, ◌≤◌, ◌≡◌, refl, true, false, List, Option, some, get_elem?, set, arith, inl, inr,
  ◌||◌, ◌==◌, if◌then◌else◌, Bool-cases, subst,
}
use system_programming_homew.Prelude.Int.{pos_part}
use system_programming_homew.CString.{atoi}
use system_programming_homew.Booking.Command.{
  Booking, Result, ok, err, checkcommand, malformed, over_limit, below_zero,
}
use system_programming_homew.Booking.Command.Bounds.{IsStored, checkcommand-IsStored}
use system_programming_homew.Booking.Request.{checkid, record_of, Read, failed, closed, line}
use system_programming_homew.Booking.Locks.{FileLocks, writer, exclusive}
use system_programming_homew.Booking.Clients.{
  Client, Message, Phase, hi, ident, exit, command, users, users-set, shut, update,
}
use system_programming_homew.Booking.World.{World}
use system_programming_homew.Booking.ReadServer.{is_waiting}
use system_programming_homew.Booking.WriteServer.{
  writer_accept, release, writer_closed, writer_ident, writer_answer, writer_line, writer_read,
}
use system_programming_homew.Booking.System.Invariant.{Inv, held-other, held-set_lock}
use system_programming_homew.Booking.System.Writers.{
  put-Inv, set-Fewer, shut-Fewer, release-Inv, leaving, no_exit, Fewer,
}

some_pair {ℓ κ} :
    {A : Type ℓ} {B : Type κ} {a a' : A} {b b' : B}
    → ◌≡◌ {A = Option (A × B)} (some (a, b)) (some (a', b'))
    → a ≡ a'
some_pair h = cc

module _ (locks : FileLocks) (w : World locks) (inv : Inv locks w) where
  open locks use {held, set_lock, answer, refused}

  pub writer_accept-Inv :
      (fd : ℕ) (c : Client)
      → get_elem? w.writers fd ≡ some c
      → Inv locks (writer_accept locks w fd c).0
  unfolding writer_accept
  writer_accept-Inv fd c e =
      put-Inv locks w inv _ (set-Fewer locks w inv fd c _ e (λ k. refl) (λ k. refl))

  writer_closed-Inv :
      (fd : ℕ) (c : Client)
      → get_elem? w.writers fd ≡ some c
      → c.is_open ≡ true
      → Inv locks (writer_closed locks w fd c).0
  unfolding writer_closed
  writer_closed-Inv fd c e o = elim (Bool-cases (is_waiting c.state)) [
    | inl waits ↦ rw waits (put-Inv locks w inv _ (shut-Fewer locks w inv fd c e))
    | inr commands ↦
        let st : c.state ≡ command = ground (arith, no_exit locks w inv fd c e o) in
        rw commands (
          release-Inv locks w inv (c.id % 100) _ w.file (shut-Fewer locks w inv fd c e)
            (leaving locks w inv fd c (shut c) e o st refl) inv.within)
  ]

  -- The answer "Locked.": the system refuses, or this server has a client on the record already.
  locked-Inv :
      (r : ℕ) (cs : List Client)
      → (not (set_lock w.table writer r exclusive).1 || (w.samewr r == 1)) ≡ true
      → Fewer locks w inv cs
      → Inv locks (record w { table = (set_lock w.table writer r exclusive).0; writers = cs })
  locked-Inv r cs no_lock f = record {
    reading = λ k. rw (held-other locks w.table writer r exclusive k) (inv.reading k);
    writing = λ k. record {
      flag = (inv.writing k).flag;
      covers = omega (arith, f.commands k, (inv.writing k).covers);
      locked =
          ground (arith, (inv.writing k).locked, held-set_lock locks w.table writer r exclusive k);
      free = ground (
        arith,
        (inv.writing k).free,
        held-set_lock locks w.table writer r exclusive k,
        answer w.table writer r exclusive,
      );
    };
    apart = λ k. ground (
      arith,
      inv.apart k,
      held-other locks w.table writer r exclusive k,
      held-set_lock locks w.table writer r exclusive k,
    );
    only_readers = inv.only_readers;
    only_writers = f.exits;
    within = inv.within;
  }

  -- The first client on record `r`.
  taken-Inv :
      (r : ℕ) (cs : List Client)
      → (not (set_lock w.table writer r exclusive).1 || (w.samewr r == 1)) ≡ false
      → ((k : ℕ) → users command k cs ≤ users command k w.writers + (if k == r then 1 else 0))
      → ((k : ℕ) → users exit k cs ≡ 0)
      → Inv locks (record w {
        table = (set_lock w.table writer r exclusive).0;
        writers = cs;
        samewr = update w.samewr r 1;
      })
  taken-Inv r cs has_lock more none_exit = record {
    reading = λ k. rw (held-other locks w.table writer r exclusive k) (inv.reading k);
    writing = λ k. record {
      flag = ground (arith, (inv.writing k).flag);
      covers = ground (arith, more k, (inv.writing k).covers, (inv.writing k).flag);
      locked = ground (
        arith,
        (inv.writing k).locked,
        held-set_lock locks w.table writer r exclusive k,
        answer w.table writer r exclusive,
      );
      free = ground (arith, (inv.writing k).free, held-set_lock locks w.table writer r exclusive k);
    };
    apart = λ k. ground (
      arith,
      inv.apart k,
      held-other locks w.table writer r exclusive k,
      held-set_lock locks w.table writer r exclusive k,
    );
    only_readers = inv.only_readers;
    only_writers = none_exit;
    within = inv.within;
  }

  writer_ident-Inv :
      (fd : ℕ) (c : Client) (buf : List ℕ)
      → get_elem? w.writers fd ≡ some c
      → c.state ≡ ident
      → Inv locks (writer_ident locks w fd c buf).0
  unfolding writer_ident
  writer_ident-Inv fd c buf e st = elim (Bool-cases (checkid buf)) [
    | inl good ↦
        elim (Bool-cases (
          not (set_lock w.table writer (record_of buf) exclusive).1
          || (w.samewr (record_of buf) == 1))) [
            | inl no_lock ↦
                rw (good, no_lock)
                  (locked-Inv _ _ no_lock (set-Fewer locks w inv fd c _ e (λ k. refl) (λ k. refl)))
            | inr has_lock ↦
                let c' : Client = record c { state = command; id = pos_part (atoi buf) } in
                rw (good, has_lock)
                  (taken-Inv _ _ has_lock
                    (λ k. ground (arith, users-set command k w.writers fd c c' e))
                    (λ k. ground (arith, users-set exit k w.writers fd c c' e, inv.only_writers k)))
          ]
    | inr bad ↦ rw bad (put-Inv locks w inv _ (shut-Fewer locks w inv fd c e))
  ]

  update-IsStored : (r k : ℕ) (b : Booking) → IsStored b → IsStored (update w.file r b k)
  update-IsStored r k b h = elim (Bool-cases (k == r)) [
    | inl e ↦ rw e h
    | inr e ↦ rw e (inv.within k)
  ]

  freed :
      (fd : ℕ) (c : Client)
      → get_elem? w.writers fd ≡ some c
      → c.is_open ≡ true
      → c.state ≡ command
      → Inv locks (record (release locks w (c.id % 100)) { writers = set w.writers fd (shut c) })
  unfolding release
  freed fd c e o st =
      release-Inv locks w inv (c.id % 100) _ _ (shut-Fewer locks w inv fd c e)
        (leaving locks w inv fd c (shut c) e o st refl) inv.within

  writer_answer-Inv :
      (fd : ℕ) (c : Client) (buf : List ℕ) (result : Result Booking) {w' : World locks}
      {ms : List Message}
      → get_elem? w.writers fd ≡ some c
      → c.is_open ≡ true
      → c.state ≡ command
      → checkcommand buf (w.file (c.id % 100)) ≡ result
      → writer_answer locks w fd c (c.id % 100) result ≡ some (w', ms)
      → Inv locks w'
  unfolding writer_answer
  writer_answer-Inv fd c buf (ok b) e o st eq h = subst (Inv locks) (some_pair h) (
      release-Inv locks w inv (c.id % 100) _ (update w.file (c.id % 100) b)
        (set-Fewer locks w inv fd c _ e (λ k. refl) (λ k. refl))
        (leaving locks w inv fd c (record (shut c) { state = hi }) e o st refl)
        (λ k.
          update-IsStored (c.id % 100) k b
            (checkcommand-IsStored buf (w.file (c.id % 100)) b eq).0))
  writer_answer-Inv fd c buf (err over_limit) e o st eq h =
      subst (Inv locks) (some_pair h) (freed fd c e o st)
  writer_answer-Inv fd c buf (err below_zero) e o st eq h =
      subst (Inv locks) (some_pair h) (freed fd c e o st)
  writer_answer-Inv fd c buf (err malformed) e o st eq h =
      subst (Inv locks) (some_pair h) (freed fd c e o st)

  -- What the write server does keeps the invariant, whatever arrives.
  pub writer_read-Inv :
      (fd : ℕ) (c : Client) (r : Read) {w' : World locks} {ms : List Message}
      → get_elem? w.writers fd ≡ some c
      → c.is_open ≡ true
      → writer_read locks w fd c r ≡ some (w', ms)
      → Inv locks w'
  unfolding writer_read
  writer_read-Inv fd c failed e o h =
      subst (Inv locks) (some_pair h) (put-Inv locks w inv _ (shut-Fewer locks w inv fd c e))
  writer_read-Inv fd c closed e o h = subst (Inv locks) (some_pair h) (writer_closed-Inv fd c e o)
  writer_read-Inv fd c (line buf) {w'} {ms} e o h = by_phase c.state refl h
    where
      by_phase :
          (p : Phase) → c.state ≡ p → writer_line locks w fd c p buf ≡ some (w', ms) → Inv locks w'
      by_phase hi st k = subst (Inv locks) (some_pair k) inv
      by_phase ident st k = subst (Inv locks) (some_pair k) (writer_ident-Inv fd c buf e st)
      by_phase exit st k = subst (Inv locks) (some_pair k) inv
      by_phase command st k = writer_answer-Inv fd c buf _ e o st refl k
