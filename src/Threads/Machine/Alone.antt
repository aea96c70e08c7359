-- ===== src/Threads/Machine/Alone.antt =====
-- hw3_thread-library-lala-ju at work: what one thread prints among the others is what it prints alone.
use mathlib.Core.List.{Perm, append-nil, mem-cons_self, mem-singleton}
use mathlib.Core.List.Perm
use system_programming_homew.Prelude.{
  ℕ, ◌≤◌, ◌≡◌, ◌≢◌, ◌⊎◌, inl, inr, refl, sym, ap, subst, ◌∙◌, Bool, true, false, List, [], ◌∷◌,
  ◌++◌, some, ℕ_discrete, length, length-append, Perm-length, arith,
}
use system_programming_homew.Prelude.Int.{ℤ}
use system_programming_homew.Threads.Tcb.{Tcb}
use system_programming_homew.Threads.Machine.{Stop, Pass, resume}
use system_programming_homew.Threads.Machine.Steps.{left_over}
use system_programming_homew.Threads.Machine.Lines.{lines_of}
use system_programming_homew.Threads.Machine.Mine.{
  mine, mine-middle, mine-others, mine-foreign, left_over-foreign,
}

abbrev pub stays : Stop → Bool
stays Stop.yields = true
stays Stop.reads = true
stays Stop.ends = false

-- A thread by itself, from `t₀` on: what it has printed, how it is, and whether it has not ended.
pub data Alone (t₀ : Tcb) : List ℤ → Tcb → Bool → Type 0 where
  fresh : Alone t₀ [] t₀ true
  turn :
      {zs : List ℤ} {t : Tcb} (bytes : List ℕ) (p : Pass)
      → Alone t₀ zs t true
      → resume bytes t ≡ some p
      → Alone t₀ (zs ++ lines_of t₀.id p.printed) p.thread (stays p.stop)

-- Of the threads with this id there is one at most, and it has printed these numbers.
pub record Told (i : ℕ) (t₀ : Tcb) (zs : List ℤ) (ts : List Tcb) : Type 0 where
  pub thread : Tcb
  pub is_left : Bool
  pub history : Alone t₀ zs thread is_left
  pub only : ((mine i ts ≡ []) × (is_left ≡ false)) ⊎ ((mine i ts ≡ thread ∷ []) × (is_left ≡ true))

nil_of : (ts : List Tcb) → length ts ≡ 0 → ts ≡ []
nil_of [] h = refl
nil_of (t ∷ ts) h = absurd (omega arith)

Tcb-set : IsSet Tcb
Tcb-set = hlevel

abbrev head_or : Tcb → List Tcb → Tcb
head_or t [] = t
head_or t (u ∷ us) = u

-- A list of one thread, in another order.
Perm-single : (t : Tcb) (us : List Tcb) → Perm us (t ∷ []) → us ≡ t ∷ []
Perm-single t [] p = absurd (omega (arith, Perm-length [] (t ∷ []) p))
Perm-single t (u ∷ []) p =
    ap (λ u. u ∷ []) ((mem-singleton Tcb-set).0 ((Perm.mem_iff p).0 mem-cons_self))
Perm-single t (u ∷ v ∷ us) p = absurd (omega (arith, Perm-length (u ∷ v ∷ us) (t ∷ []) p))

pub Told-Perm :
    (i : ℕ) (t₀ : Tcb) (zs : List ℤ) (ts us : List Tcb)
    → Perm us ts
    → Told i t₀ zs ts
    → Told i t₀ zs us
Told-Perm i t₀ zs ts us p told = record {
  thread = told.thread;
  is_left = told.is_left;
  history = told.history;
  only = elim told.only [
    | inl (nothing, ended) ↦
        inl (
          nil_of (mine i us) (Perm-length (mine i us) (mine i ts) fewer ∙ ap length nothing),
          ended,
        )
    | inr (one, left) ↦
        inr (Perm-single told.thread (mine i us) (subst (Perm (mine i us)) one fewer), left)
  ];
}
  where
    fewer : Perm (mine i us) (mine i ts)
    fewer = Perm.filter (λ t. ℕ_discrete t.id i) p

-- No other thread has the id of one that is alone.
record NoOther (i : ℕ) (before after ws : List Tcb) : Type 0 where
  none_before : mine i before ≡ []
  none_after : mine i after ≡ []
  none_waits : mine i ws ≡ []

few-NoOther :
    (i : ℕ) (before after ws : List Tcb) (t : Tcb)
    → length ((mine i before ++ t ∷ mine i after) ++ mine i ws) ≤ 1
    → NoOther i before after ws
few-NoOther i before after ws t h =
    let whole = length-append (mine i before ++ t ∷ mine i after) (mine i ws) in
    let front = length-append (mine i before) (t ∷ mine i after) in
    record {
      none_before = nil_of (mine i before) (omega (arith, whole, front));
      none_after = nil_of (mine i after) (omega (arith, whole, front));
      none_waits = nil_of (mine i ws) (omega (arith, whole, front));
    }

left_over-own :
    (stop : Stop) (i : ℕ) (before after ws : List Tcb) (t : Tcb)
    → t.id ≡ i
    → NoOther i before after ws
    → ((mine i (left_over stop before t after ws) ≡ []) × (stays stop ≡ false))
      ⊎ ((mine i (left_over stop before t after ws) ≡ t ∷ []) × (stays stop ≡ true))
left_over-own Stop.yields i before after ws t h no_other = inr (
  mine-middle i before after ws t h
      ∙ rw (no_other.none_before, no_other.none_after, no_other.none_waits),
  refl,
)
left_over-own Stop.reads i before after ws t h no_other = inr (
  mine-middle i before after ws t h
      ∙ rw (no_other.none_before, no_other.none_after, no_other.none_waits),
  refl,
)
left_over-own Stop.ends i before after ws t h no_other = inl (
  mine-others i before after ws
      ∙ rw (no_other.none_before, no_other.none_after, no_other.none_waits),
  refl,
)

-- A turn of the thread with the id, and of another.
pub Told-own :
    (i : ℕ) (t₀ : Tcb) (zs : List ℤ) (before after ws : List Tcb) (t : Tcb) (bytes : List ℕ)
    (p : Pass)
    → t₀.id ≡ i
    → t.id ≡ i
    → p.thread.id ≡ i
    → resume bytes t ≡ some p
    → Told i t₀ zs ((before ++ t ∷ after) ++ ws)
    → Told i t₀ (zs ++ lines_of i p.printed) (left_over p.stop before p.thread after ws)
Told-own i t₀ zs before after ws t bytes p h₀ h hp resumed told = elim told.only [
  | inl (nothing, ended) ↦ absurd (
      omega (
        arith,
        ap length (sym (mine-middle i before after ws t h) ∙ nothing),
        length-append (mine i before ++ t ∷ mine i after) (mine i ws),
        length-append (mine i before) (t ∷ mine i after),
      ))
  | inr (one, left) ↦
      let whole : (mine i before ++ t ∷ mine i after) ++ mine i ws ≡ told.thread ∷ [] =
        sym (mine-middle i before after ws t h) ∙ one in
      let no_other : NoOther i before after ws =
        few-NoOther i before after ws t (omega (arith, ap length whole)) in
      let here : (mine i before ++ t ∷ mine i after) ++ mine i ws ≡ t ∷ [] =
        rw (no_other.none_before, no_other.none_after, no_other.none_waits) refl in
      let same : t ≡ told.thread = ap (head_or t) (sym here ∙ whole) in
      record {
        thread = p.thread;
        is_left = stays p.stop;
        history =
            subst (λ k. Alone t₀ (zs ++ lines_of k p.printed) p.thread (stays p.stop)) h₀
              (turn bytes p
                (subst (λ u. Alone t₀ zs u true) (sym same)
                  (subst (λ b. Alone t₀ zs told.thread b) left told.history))
                resumed);
        only = left_over-own p.stop i before after ws p.thread hp no_other;
      }
]

pub Told-foreign :
    (i : ℕ) (t₀ : Tcb) (zs : List ℤ) (before after ws : List Tcb) (t : Tcb) (p : Pass)
    → t.id ≢ i
    → p.thread.id ≢ i
    → lines_of i p.printed ≡ []
    → Told i t₀ zs ((before ++ t ∷ after) ++ ws)
    → Told i t₀ (zs ++ lines_of i p.printed) (left_over p.stop before p.thread after ws)
Told-foreign i t₀ zs before after ws t p n np quiet told =
    let same : mine i (left_over p.stop before p.thread after ws)
        ≡ mine i ((before ++ t ∷ after) ++ ws) =
      left_over-foreign p.stop i before after ws p.thread np
      ∙ sym (mine-foreign i before after ws t n) in
    record {
      thread = told.thread;
      is_left = told.is_left;
      history = rw (quiet, append-nil zs) told.history;
      only = rw same told.only;
    }
