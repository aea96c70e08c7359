-- ===== src/Championship/Battle/Ending.antt =====
-- hw2_pvp-championship-lala-ju/battle.c: the loop of a battle, round by round.
use system_programming_homew.Prelude.{
  ℕ, zero, suc, ◌+◌, ◌≤◌, ◌≡◌, ap, ◌∙◌, Bool, true, false, Bool-cases, ◌⊎◌, inl, inr, some,
  if◌then◌else◌, arith,
}
use system_programming_homew.Prelude.Int.{ℤ, pos, ◌<ℤ◌, ◌≤ℤ◌, pos_part}
use system_programming_homew.Championship.Status.{Status, Battle}
use system_programming_homew.Championship.Battle.{is_over, fight}
use system_programming_homew.Championship.Battle.Rounds.{IsFit, Fought, Answered, round-ok}

-- What a player has after a battle: the battle's letter, the flag, and no more points than before.
pub record Returned (b : Battle) (s s' : Status) : Type 0 where
  pub same_id : s'.real_player_id ≡ s.real_player_id
  pub same_atk : s'.atk ≡ s.atk
  pub here : s'.current_battle_id ≡ b
  pub flag : s'.battle_ended_flag ≡ 1
  pub no_better : s'.hp ≤ℤ s.hp

-- One player stands and the other does not.
abbrev pub OneStands : Status → Status → Type 0
OneStands s t = ((pos 0 <ℤ s.hp) × (t.hp ≤ℤ pos 0)) ⊎ ((s.hp ≤ℤ pos 0) × (pos 0 <ℤ t.hp))

one_stands :
    (l r l' r' : ℤ)
    → Fought l r l' r'
    → is_over l' r' ≡ true
    → ((pos 0 <ℤ l') × (r' ≤ℤ pos 0)) ⊎ ((l' ≤ℤ pos 0) × (pos 0 <ℤ r'))
one_stands l r l' r' f e = elim f.one_stands [
  | inl h ↦ inl (h, ground arith)
  | inr h ↦ inr (ground arith, h)
]

both_stand : (l r : ℤ) → is_over l r ≡ false → (pos 0 <ℤ l) × (pos 0 <ℤ r)
both_stand l r e = (ground arith, ground arith)

Answered-over :
    (b : Battle) (o : Bool) (s s' : Status)
    → o ≡ true
    → Answered b o s s'
    → s'.hp ≤ℤ s.hp
    → Returned b s s'
Answered-over b o s s' e a h = record {
  same_id = a.same_id;
  same_atk = a.same_atk;
  here = a.here;
  flag = a.flag ∙ ap (λ (x : Bool). if x then 1 else s.battle_ended_flag) e;
  no_better = h;
}

Answered-again :
    (b : Battle) (o : Bool) (s s' s'' : Status)
    → Answered b o s s'
    → s'.hp ≤ℤ s.hp
    → Returned b s' s''
    → Returned b s s''
Answered-again b o s s' s'' a h r = record {
  same_id = r.same_id ∙ a.same_id;
  same_atk = r.same_atk ∙ a.same_atk;
  here = r.here;
  flag = r.flag;
  no_better = omega (arith, r.no_better);
}

still-IsFit :
    (b : Battle) (o : Bool) (s s' : Status)
    → IsFit s
    → Answered b o s s'
    → s'.hp ≤ℤ s.hp
    → pos 0 <ℤ s'.hp
    → IsFit s'
still-IsFit b o s s' h a le stands = record {
  hp_ok = record { above = stands; below = omega (arith, h.hp_ok.below) };
  atk_ok = rw a.same_atk h.atk_ok;
}

-- The points of both fall in a round.
fewer :
    (l r l' r' : ℤ) (fuel : ℕ)
    → Fought l r l' r'
    → pos 0 <ℤ l'
    → pos 0 <ℤ r'
    → pos_part l + pos_part r ≤ suc fuel
    → pos_part l' + pos_part r' ≤ fuel
fewer l r l' r' fuel f hl hr h = elim f.hurt [
  | inl k ↦ ground (arith, f.right_no_better)
  | inr k ↦ ground (arith, f.left_no_better)
]

-- Between two players with points and attack between 1 and 2^30 - 1, the loop of a battle ends
-- within as many rounds as they have points together: exactly one of them has points left, both come
-- back with the flag 1, the letter of the battle, their own id and attack, and no more points than
-- before.
pub fight-ends :
    (fuel : ℕ) (b : Battle) (left right : Status)
    → pos_part left.hp + pos_part right.hp ≤ fuel
    → IsFit left
    → IsFit right
    → (left' : Status) × (right' : Status) × (fight fuel b left right ≡ some (left', right'))
      × OneStands left' right'
      × Returned b left left'
      × Returned b right right'
unfolding fight
fight-ends zero b left right h hl hr = absurd (omega (arith, hl.hp_ok.above))
fight-ends (suc fuel) b left right h hl hr =
    let (left', right', done, f, al, ar) = round-ok b left right hl hr in
    let over : Bool = is_over left'.hp right'.hp in
    elim (Bool-cases over) [
      | inl e ↦ (
        left',
        right',
        rw (done, e),
        one_stands left.hp right.hp left'.hp right'.hp f e,
        Answered-over b over left left' e al f.left_no_better,
        Answered-over b over right right' e ar f.right_no_better,
      )
      | inr e ↦
          let (stands_l, stands_r) = both_stand left'.hp right'.hp e in
          let (left'', right'', rest, one, rl, rr) =
            fight-ends fuel b left' right'
              (fewer left.hp right.hp left'.hp right'.hp fuel f stands_l stands_r h)
              (still-IsFit b over left left' hl al f.left_no_better stands_l)
              (still-IsFit b over right right' hr ar f.right_no_better stands_r) in
          (
            left'',
            right'',
            rw (done, e, rest),
            one,
            Answered-again b over left left' left'' al f.left_no_better rl,
            Answered-again b over right right' right'' ar f.right_no_better rr,
          )
    ]
