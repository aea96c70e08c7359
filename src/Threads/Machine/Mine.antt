-- ===== src/Threads/Machine/Mine.antt =====
-- hw3_thread-library-lala-ju at work: the threads that have an id, before and after a turn.
use mathlib.Core.Logic.{ite}
use mathlib.Core.List.{filter, append_assoc}
use system_programming_homew.Prelude.{
  ℕ, ◌≡◌, ◌≢◌, refl, sym, ap, ◌∙◌, List, [], ◌∷◌, ◌++◌, ℕ_discrete,
}
use system_programming_homew.Threads.Tcb.{Tcb}
use system_programming_homew.Threads.Machine.{Stop}
use system_programming_homew.Threads.Machine.Steps.{left_over}

-- The threads with an id.
abbrev pub mine : ℕ → List Tcb → List Tcb
mine i ts = filter (λ t. ℕ_discrete t.id i) ts

ite-yes {ℓ κ} : {A : Type ℓ} {P : Type κ} (d : Dec P) (x y : A) → P → ite d x y ≡ x
ite-yes (yes p) x y h = refl
ite-yes (no n) x y h = absurd (n h)

ite-no {ℓ κ} : {A : Type ℓ} {P : Type κ} (d : Dec P) (x y : A) → ¬ P → ite d x y ≡ y
ite-no (yes p) x y h = absurd (h p)
ite-no (no n) x y h = refl

pub mine-yes : (i : ℕ) (t : Tcb) (ts : List Tcb) → t.id ≡ i → mine i (t ∷ ts) ≡ t ∷ mine i ts
mine-yes i t ts h = ite-yes (ℕ_discrete t.id i) (t ∷ mine i ts) (mine i ts) h

pub mine-no : (i : ℕ) (t : Tcb) (ts : List Tcb) → t.id ≢ i → mine i (t ∷ ts) ≡ mine i ts
mine-no i t ts h = ite-no (ℕ_discrete t.id i) (t ∷ mine i ts) (mine i ts) h

pub mine-append : (i : ℕ) (ts us : List Tcb) → mine i (ts ++ us) ≡ mine i ts ++ mine i us
mine-append i [] us = refl
mine-append i (t ∷ ts) us = elim (ℕ_discrete t.id i) [
  | yes e ↦
      mine-yes i t (ts ++ us) e
      ∙ ap (◌∷◌ t) (mine-append i ts us)
      ∙ ap (λ l. l ++ mine i us) (sym (mine-yes i t ts e))
  | no n ↦
      mine-no i t (ts ++ us) n
      ∙ mine-append i ts us
      ∙ ap (λ l. l ++ mine i us) (sym (mine-no i t ts n))
]

pub mine-middle :
    (i : ℕ) (before after ws : List Tcb) (t : Tcb)
    → t.id ≡ i
    → mine i ((before ++ t ∷ after) ++ ws) ≡ (mine i before ++ t ∷ mine i after) ++ mine i ws
mine-middle i before after ws t h =
    mine-append i (before ++ t ∷ after) ws
    ∙ ap (λ l. l ++ mine i ws)
        (mine-append i before (t ∷ after) ∙ ap (λ l. mine i before ++ l) (mine-yes i t after h))

pub mine-others :
    (i : ℕ) (before after ws : List Tcb)
    → mine i (before ++ (after ++ ws)) ≡ mine i before ++ (mine i after ++ mine i ws)
mine-others i before after ws =
    mine-append i before (after ++ ws) ∙ ap (λ l. mine i before ++ l) (mine-append i after ws)

pub mine-foreign :
    (i : ℕ) (before after ws : List Tcb) (t : Tcb)
    → t.id ≢ i
    → mine i ((before ++ t ∷ after) ++ ws) ≡ mine i before ++ (mine i after ++ mine i ws)
mine-foreign i before after ws t h =
    mine-append i (before ++ t ∷ after) ws
    ∙ ap (λ l. l ++ mine i ws)
        (mine-append i before (t ∷ after) ∙ ap (λ l. mine i before ++ l) (mine-no i t after h))
    ∙ append_assoc (mine i before) (mine i after) (mine i ws)

-- The threads that are left, where the one that ran has another id.
pub left_over-foreign :
    (stop : Stop) (i : ℕ) (before after ws : List Tcb) (t : Tcb)
    → t.id ≢ i
    → mine i (left_over stop before t after ws) ≡ mine i before ++ (mine i after ++ mine i ws)
left_over-foreign Stop.yields i before after ws t h = mine-foreign i before after ws t h
left_over-foreign Stop.reads i before after ws t h = mine-foreign i before after ws t h
left_over-foreign Stop.ends i before after ws t h = mine-others i before after ws
