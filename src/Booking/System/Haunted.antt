-- ===== src/Booking/System/Haunted.antt =====
-- hw1_csiebooking-lala-ju/server.c: the servers with one more client, which no descriptor stands for.
use system_programming_homew.Prelude.{
  ℕ, zero, suc, ◌+◌, ◌%◌, ◌≡◌, refl, sym, ap, ◌∙◌, Bool-cases, inl, inr, List, [], ◌∷◌, ◌++◌,
  Option, none, some, get_elem?, set, ◌==◌, ◌||◌, arith,
}
use mathlib.Core.Bool.{not}
use system_programming_homew.Prelude.Int.{negsuc, ◌+ℤ◌, pos_part}
use system_programming_homew.CString.{atoi, c_str, strcmp}
use system_programming_homew.Booking.Command.{
  Booking, Result, ok, err, checkcommand, malformed, over_limit, below_zero,
}
use system_programming_homew.Booking.Request.{Read, failed, closed, line, checkid, record_of}
use system_programming_homew.Booking.Locks.{FileLocks, reader, writer, shared, exclusive}
use system_programming_homew.Booking.Clients.{
  Client, Message, Phase, hi, ident, exit, command, shut, users,
}
use system_programming_homew.Booking.World.{World}
use system_programming_homew.Booking.ReadServer.{
  reader_accept, reader_read, reader_line, leave, is_waiting, is_zero, is_same, exit_word,
}
use system_programming_homew.Booking.WriteServer.{
  writer_accept, writer_read, writer_line, writer_answer,
}
use system_programming_homew.Booking.System.{
  Step, reader_joins, reader_served, writer_joins, writer_served, Reach, here, next,
}
use system_programming_homew.Booking.System.Invariant.{Inv}
use system_programming_homew.Booking.System.Safety.{Step-Inv}

set-before :
    (cs ds : List Client) (fd : ℕ) (c c' : Client)
    → get_elem? cs fd ≡ some c
    → set (cs ++ ds) fd c' ≡ set cs fd c' ++ ds
set-before [] ds fd c c' h = cc
set-before (x ∷ cs) ds zero c c' h = refl
set-before (x ∷ cs) ds (suc fd) c c' h = ap (◌∷◌ x) (set-before cs ds fd c c' h)

get_elem?-before :
    (cs ds : List Client) (fd : ℕ) (c : Client)
    → get_elem? cs fd ≡ some c
    → get_elem? (cs ++ ds) fd ≡ some c
get_elem?-before [] ds fd c h = cc
get_elem?-before (x ∷ cs) ds zero c h = h
get_elem?-before (x ∷ cs) ds (suc fd) c h = get_elem?-before cs ds fd c h

pub users-append :
    (p : Phase) (r : ℕ) (cs ds : List Client) → users p r (cs ++ ds) ≡ users p r cs + users p r ds
unfolding users
users-append p r [] ds = omega arith
users-append p r (x ∷ cs) ds = omega (arith, users-append p r cs ds)

module _ (locks : FileLocks) (ghost : Client) where
  -- The world with one client more, behind all descriptors, which no step serves.
  abbrev haunted : World locks → World locks
  haunted w = record w { readers = w.readers ++ ghost ∷ [] }

  leave-haunted : (w : World locks) (r : ℕ) → leave locks (haunted w) r ≡ haunted (leave locks w r)
  unfolding leave
  leave-haunted w r = elim (Bool-cases (is_zero (w.readlc r +ℤ negsuc 0))) [
    | inl e ↦ rw e
    | inr e ↦ rw e
  ]

  -- The client at `fd` changes in both worlds.
  put-haunted :
      (w : World locks) (fd : ℕ) (c c' : Client)
      → get_elem? w.readers fd ≡ some c
      → record w { readers = set (w.readers ++ ghost ∷ []) fd c' }
        ≡ record w { readers = set w.readers fd c' ++ ghost ∷ [] }
  put-haunted w fd c c' h =
      ap (λ cs. record w { readers = cs }) (set-before w.readers (ghost ∷ []) fd c c' h)

  leave-readers : (w : World locks) (r : ℕ) → (leave locks w r).readers ≡ w.readers
  unfolding leave
  leave-readers w r = ground arith

  -- The same where it leaves a record.
  left-haunted :
      (w : World locks) (r fd : ℕ) (c c' : Client)
      → get_elem? w.readers fd ≡ some c
      → record (leave locks (haunted w) r) {
        readers = set (leave locks (haunted w) r).readers fd c';
      }
        ≡ haunted (record (leave locks w r) { readers = set (leave locks w r).readers fd c' })
  left-haunted w r fd c c' h =
      ap (λ (v : World locks). record v { readers = set v.readers fd c' }) (leave-haunted w r)
      ∙ put-haunted (leave locks w r) fd c c' (ap (λ cs. get_elem? cs fd) (leave-readers w r) ∙ h)

  reader_line-haunted :
      (w : World locks) (fd : ℕ) (c : Client) (p : Phase) (buf : List ℕ)
      → get_elem? w.readers fd ≡ some c
      → (reader_line locks (haunted w) fd c p buf).0 ≡ haunted (reader_line locks w fd c p buf).0
  unfolding reader_line
  reader_line-haunted w fd c hi buf h = refl
  reader_line-haunted w fd c command buf h = refl
  reader_line-haunted w fd c ident buf h = elim (Bool-cases (checkid buf)) [
    | inl good ↦ elim (Bool-cases (locks.set_lock w.table reader (record_of buf) shared).1) [
      | inl has_lock ↦ rw (
        good,
        has_lock,
        set-before w.readers (ghost ∷ []) fd c (record c { state = exit; id = pos_part (atoi buf) })
            h,
      )
      | inr no_lock ↦
          rw (
            good,
            no_lock,
            set-before w.readers (ghost ∷ []) fd c (record (shut c) { state = hi }) h,
          )
    ]
    | inr bad ↦ rw bad (put-haunted w fd c (shut c) h)
  ]
  reader_line-haunted w fd c exit buf h =
      elim (Bool-cases (is_same (strcmp (c_str buf) exit_word))) [
        | inl leaves ↦
            rw leaves (left-haunted w (c.id % 100) fd c (record (shut c) { state = hi }) h)
        | inr stays ↦ rw stays
      ]

  reader_read-haunted :
      (w : World locks) (fd : ℕ) (c : Client) (r : Read)
      → get_elem? w.readers fd ≡ some c
      → (reader_read locks (haunted w) fd c r).0 ≡ haunted (reader_read locks w fd c r).0
  unfolding reader_read
  reader_read-haunted w fd c failed h = put-haunted w fd c (shut c) h
  reader_read-haunted w fd c closed h = elim (Bool-cases (is_waiting c.state)) [
    | inl waits ↦ rw waits (put-haunted w fd c (shut c) h)
    | inr looks ↦ rw looks (left-haunted w (c.id % 100) fd c (shut c) h)
  ]
  reader_read-haunted w fd c (line buf) h = reader_line-haunted w fd c c.state buf h

  -- The write server looks at no client of the read server.
  abbrev haunted_result : Option (World locks × List Message) → Option (World locks × List Message)
  haunted_result none = none
  haunted_result (some (w, ms)) = some (haunted w, ms)

  writer_answer-haunted :
      (w : World locks) (fd : ℕ) (c : Client) (r : ℕ) (result : Result Booking)
      → writer_answer locks (haunted w) fd c r result
        ≡ haunted_result (writer_answer locks w fd c r result)
  unfolding writer_answer
  writer_answer-haunted w fd c r (ok b) = refl
  writer_answer-haunted w fd c r (err malformed) = refl
  writer_answer-haunted w fd c r (err over_limit) = refl
  writer_answer-haunted w fd c r (err below_zero) = refl

  writer_line-haunted :
      (w : World locks) (fd : ℕ) (c : Client) (p : Phase) (buf : List ℕ)
      → writer_line locks (haunted w) fd c p buf ≡ haunted_result (writer_line locks w fd c p buf)
  unfolding writer_line
  writer_line-haunted w fd c hi buf = refl
  writer_line-haunted w fd c exit buf = refl
  writer_line-haunted w fd c command buf =
      writer_answer-haunted w fd c (c.id % 100) (checkcommand buf (w.file (c.id % 100)))
  writer_line-haunted w fd c ident buf = elim (Bool-cases (checkid buf)) [
    | inl good ↦
        elim (Bool-cases (
          not (locks.set_lock w.table writer (record_of buf) exclusive).1
          || (w.samewr (record_of buf) == 1))) [
            | inl turned_away ↦ rw (good, turned_away)
            | inr served ↦ rw (good, served)
          ]
    | inr bad ↦ rw bad
  ]

  writer_read-haunted :
      (w : World locks) (fd : ℕ) (c : Client) (r : Read)
      → writer_read locks (haunted w) fd c r ≡ haunted_result (writer_read locks w fd c r)
  unfolding writer_read
  writer_read-haunted w fd c failed = refl
  writer_read-haunted w fd c (line buf) = writer_line-haunted w fd c c.state buf
  writer_read-haunted w fd c closed = elim (Bool-cases (is_waiting c.state)) [
    | inl waits ↦ rw waits
    | inr changes ↦ rw changes
  ]

  -- A step is a step in the other world too.
  Step-haunted : (w w' : World locks) → Step locks w w' → Step locks (haunted w) (haunted w')
  unfolding reader_accept writer_accept
  Step-haunted w w' (reader_joins fd c e o q) =
      reader_joins fd c (get_elem?-before w.readers (ghost ∷ []) fd c e) o
        (ap haunted q ∙ sym (put-haunted w fd c _ e))
  Step-haunted w w' (reader_served fd c r e o q) =
      reader_served fd c r (get_elem?-before w.readers (ghost ∷ []) fd c e) o
        (ap haunted q ∙ sym (reader_read-haunted w fd c r e))
  Step-haunted w w' (writer_joins fd c e o q) = writer_joins fd c e o (ap haunted q)
  Step-haunted w w' (writer_served fd c r ms e o q) =
      writer_served fd c r ms e o (writer_read-haunted w fd c r ∙ ap haunted_result q)

  pub Reach-haunted :
      (w w' : World locks) → Inv locks (haunted w) → Reach locks w w' → Inv locks (haunted w')
  Reach-haunted w _ inv here = inv
  Reach-haunted w w' inv (next {u = u} path step) =
      Step-Inv locks (Reach-haunted w u inv path) (Step-haunted u w' step)
