-- ===== src/Threads/Scheduler/Gaps.antt =====
-- hw3_thread-library-lala-ju/scheduler.c: the second loop of `reorderwaiting`, which closes the gaps that the
-- first one leaves.
use mathlib.Core.List.{map, map-append, append_assoc, append-nil}
use system_programming_homew.Prelude.{
  ℕ, zero, suc, ◌+◌, ◌≡◌, refl, sym, ap, ◌∙◌, Bool, true, false, Bool-cases, inl, inr, List, [],
  ◌∷◌, ◌++◌, none, some, ◌==◌, if◌then◌else◌, length, length-append, length-map, length-replicate,
  replicate, set, set-middle, get_elem?-middle, shift, arith,
}
use system_programming_homew.Threads.Tcb.{Tcb, Slot}
use system_programming_homew.Threads.Scheduler.{deref, close_gaps}

replicate-suc :
    (n : ℕ) (c : List Slot) → replicate n none ++ none ∷ c ≡ none ∷ (replicate n none ++ c)
replicate-suc zero c = refl
replicate-suc (suc n) c = ap (◌∷◌ none) (replicate-suc n c)

close_gaps-none :
    (k i cur : ℕ) (w : List Slot)
    → deref w i ≡ none
    → close_gaps (suc k) i cur w ≡ close_gaps k (i + 1) cur w
unfolding close_gaps
close_gaps-none k i cur w e = rw (e, close_gaps)

close_gaps-some :
    (k i cur : ℕ) (w : List Slot) (t : Tcb)
    → deref w i ≡ some t
    → close_gaps (suc k) i cur w
      ≡ close_gaps k
          (i + 1)
          (cur + 1)
          (if cur == i then set w cur (some t) else set (set w cur (some t)) i none)
unfolding close_gaps
close_gaps-some k i cur w t e = rw (e, close_gaps)

pub deref-middle :
    (a : List Slot) (s : Slot) (c : List Slot) (i : ℕ) → i ≡ length a → deref (a ++ s ∷ c) i ≡ s
deref-middle a s c i h = rw (get_elem?-middle a s c i h, deref)

-- After the threads `ks` that stay and a gap comes a place `s`.
deref-gap :
    (ks : List Tcb) (gap i : ℕ) (s : Slot) (rest : List Slot)
    → i ≡ length ks + gap
    → deref (map some ks ++ (replicate gap none ++ s ∷ rest)) i ≡ s
deref-gap ks gap i s rest h =
    ap (λ w. deref w i) (sym (append_assoc (map some ks) (replicate gap none) (s ∷ rest)))
    ∙ deref-middle (map some ks ++ replicate gap none) s rest i (
        omega (
          arith,
          length-append (map some ks) (replicate {A = Slot} gap none),
          length-map ks (λ t. some t),
          length-replicate {A = Slot} gap none,
        ))

-- A thread behind a gap moves to the front of it.
move_up :
    (ks : List Tcb) (g cur i : ℕ) (t : Tcb) (rest : List Slot)
    → cur ≡ length ks
    → i ≡ length ks + suc g
    → set (set (map some ks ++ (replicate (suc g) none ++ some t ∷ rest)) cur (some t)) i none
      ≡ map some (ks ++ t ∷ []) ++ (replicate (suc g) none ++ rest)
move_up ks g cur i t rest hc hi =
    ap (λ w. set w i none)
      (set-middle (map some ks) none (some t) (replicate g none ++ some t ∷ rest) cur
          (omega (arith, length-map ks (λ t. some t)))
        ∙ sym (append_assoc (map some ks) (some t ∷ replicate g none) (some t ∷ rest)))
    ∙ set-middle (map some ks ++ some t ∷ replicate g none) (some t) none rest i (
        omega (
          arith,
          length-append (map some ks) (some t ∷ replicate g none),
          length-map ks (λ t. some t),
          length-replicate {A = Slot} g none,
        ))
    ∙ append_assoc (map some ks) (some t ∷ replicate g none) (none ∷ rest)
    ∙ ap (λ w. map some ks ++ some t ∷ w) (replicate-suc g rest)
    ∙ shift (map some ks) (some t) (replicate (suc g) none ++ rest)
    ∙ ap (λ w. w ++ (replicate (suc g) none ++ rest)) (sym (map-append some ks (t ∷ [])))

-- The places after the step, whether there is a gap to close or not.
stay_place :
    (ks : List Tcb) (gap i cur : ℕ) (t : Tcb) (rest : List Slot)
    → i ≡ length ks + gap
    → cur ≡ length ks
    → (let w : List Slot = map some ks ++ (replicate gap none ++ some t ∷ rest) in
        if cur == i then set w cur (some t) else set (set w cur (some t)) i none)
      ≡ map some (ks ++ t ∷ []) ++ (replicate gap none ++ rest)
stay_place ks zero i cur t rest hi hc =
    let here : (cur == i) ≡ true = ground arith in
    rw here (
      set-middle (map some ks) (some t) (some t) rest cur
        (omega (arith, length-map ks (λ t. some t)))
      ∙ shift (map some ks) (some t) rest
      ∙ ap (λ w. w ++ rest) (sym (map-append some ks (t ∷ []))))
stay_place ks (suc g) i cur t rest hi hc =
    let there : (cur == i) ≡ false = ground arith in rw there (move_up ks g cur i t rest hc hi)

-- The queues with these ready threads, and these places in the waiting queue.

module _ (is_set : ℕ → Bool) where
  -- The waiting threads that can read, and those that cannot, in their order.
  abbrev pub readies : List Tcb → List Tcb
  readies [] = []
  readies (t ∷ ts) = if is_set t.fd then t ∷ readies ts else readies ts

  abbrev pub waits : List Tcb → List Tcb
  waits [] = []
  waits (t ∷ ts) = if is_set t.fd then waits ts else t ∷ waits ts

  -- What the first loop leaves of a place.
  abbrev pub kept : Tcb → Slot
  kept t = if is_set t.fd then none else some t

  -- The loop over the places of `ts`, behind the threads `ks` and a gap.
  abbrev Closes : List Tcb → Type 0
  Closes ts =
      (ks : List Tcb) (gap i cur : ℕ) (post : List Slot)
      → i ≡ length ks + gap
      → cur ≡ length ks
      → close_gaps (length ts) i cur (map some ks ++ (replicate gap none ++ (map kept ts ++ post)))
        ≡ (
          map some (ks ++ waits ts) ++ (replicate (gap + length (readies ts)) none ++ post),
          length (ks ++ waits ts),
        )

  Closes-gone : (t : Tcb) (ts : List Tcb) → is_set t.fd ≡ true → Closes ts → Closes (t ∷ ts)
  Closes-gone t ts e ih ks gap i cur post hi hc =
      let rest : List Slot = map kept ts ++ post in
      let more : suc gap + length (readies ts) ≡ gap + suc (length (readies ts)) = omega arith in
      rw e (
        close_gaps-none (length ts) i cur _ (deref-gap ks gap i none rest hi)
        ∙ ap (λ w. close_gaps (length ts) (i + 1) cur (map some ks ++ w)) (replicate-suc gap rest)
        ∙ ih ks (suc gap) (i + 1) cur post (omega arith) hc
        ∙ ap
            (λ n.
              (map some (ks ++ waits ts) ++ (replicate n none ++ post), length (ks ++ waits ts)))
            more)

  Closes-stays : (t : Tcb) (ts : List Tcb) → is_set t.fd ≡ false → Closes ts → Closes (t ∷ ts)
  Closes-stays t ts e ih ks gap i cur post hi hc =
      let rest : List Slot = map kept ts ++ post in
      let joined : (ks ++ t ∷ []) ++ waits ts ≡ ks ++ t ∷ waits ts =
        append_assoc ks (t ∷ []) (waits ts) in
      rw e (
        close_gaps-some (length ts) i cur _ t (deref-gap ks gap i (some t) rest hi)
        ∙ ap (close_gaps (length ts) (i + 1) (cur + 1)) (stay_place ks gap i cur t rest hi hc)
        ∙ ih (ks ++ t ∷ []) gap (i + 1) (cur + 1) post (omega (arith, length-append ks (t ∷ [])))
            (omega (arith, length-append ks (t ∷ [])))
        ∙ ap
            (λ ws. (map some ws ++ (replicate (gap + length (readies ts)) none ++ post), length ws))
            joined)

  pub close_gaps-waits : (ts : List Tcb) → Closes ts
  unfolding close_gaps
  close_gaps-waits [] = λ ks gap i cur post hi hc.
      let same : gap + 0 ≡ gap = omega arith in rw (append-nil ks, same, hc)
  close_gaps-waits (t ∷ ts) = elim (Bool-cases (is_set t.fd)) [
    | inl e ↦ Closes-gone t ts e (close_gaps-waits ts)
    | inr e ↦ Closes-stays t ts e (close_gaps-waits ts)
  ]
