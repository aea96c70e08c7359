-- ===== src/Championship/Battle/Rounds.antt =====
-- hw2_pvp-championship-lala-ju/battle.c: one round of a battle.
use system_programming_homew.Prelude.{
  ◌*◌, ◌^◌, ◌<◌, ◌≡◌, refl, Bool, true, Bool-cases, ◌⊎◌, inl, inr, some, if◌then◌else◌, arith,
}
use system_programming_homew.Prelude.Int.{
  ℤ, pos, negsuc, ◌-ℤ◌, ◌*ℤ◌, ltb_ℤ, ◌<ℤ◌, ◌≤ℤ◌, pos_part, neg_part, int_max, pos-*ℤ, int_laws,
}
use system_programming_homew.Championship.Status.{Status, int, Battle}
use system_programming_homew.Championship.Battle.{
  boosts, power, exchange, right_first, attack, is_over, sent_back, round,
}

-- 0 < z < 2^30.
pub record IsStrong (z : ℤ) : Type 0 where
  pub above : pos 0 <ℤ z
  pub below : z <ℤ pos (2 ^ 30)

-- A player who can fight.
pub record IsFit (s : Status) : Type 0 where
  pub hp_ok : IsStrong s.hp
  pub atk_ok : IsStrong s.atk

int-small : (z : ℤ) → pos_part z < int_max → neg_part z < int_max → int z ≡ some z
unfolding int
int-small z h k = ground arith

double-ok :
    (z : ℤ) → IsStrong z → (p : ℤ) × (int (z *ℤ pos 2) ≡ some p) × (pos 0 <ℤ p) × (p <ℤ pos int_max)
double-ok (pos n) h = (
  pos (n * 2),
  rw pos-*ℤ (int-small (pos (n * 2)) (omega (arith, h.below)) (omega arith)),
  omega (arith, h.above),
  omega (arith, h.below),
)
double-ok (negsuc n) h = absurd (omega (arith, h.above))

-- The attack of a fit player, doubled or not.
power-ok :
    (b : Battle) (s : Status)
    → IsFit s
    → (p : ℤ) × (power b s ≡ some p) × (pos 0 <ℤ p) × (p <ℤ pos int_max)
unfolding power
power-ok b s h = elim (Bool-cases (boosts s.attr b)) [
  | inl e ↦ rw e (double-ok s.atk h.atk_ok)
  | inr e ↦ (s.atk, rw e, h.atk_ok.above, omega (arith, h.atk_ok.below))
]

-- What an exchange of blows leaves: the first one is not struck unless the second still stands.
pub record Struck (first second first' second' : ℤ) : Type 0 where
  pub hurt : second' <ℤ second
  pub no_better : first' ≤ℤ first
  pub one_stands : (pos 0 <ℤ first') ⊎ (pos 0 <ℤ second')

struck-int : (x a : ℤ) → IsStrong x → pos 0 <ℤ a → a <ℤ pos int_max → int (x -ℤ a) ≡ some (x -ℤ a)
unfolding int ◌-ℤ◌
struck-int x a h ha hb =
    let above : pos 0 <ℤ x = h.above in let below : x <ℤ pos (2 ^ 30) = h.below in ground arith

struck-lt : (x a : ℤ) → pos 0 <ℤ a → (x -ℤ a) <ℤ x
struck-lt x a h = omega (int_laws)

above-or : (z : ℤ) → (ltb_ℤ (pos 0) z ≡ true) → pos 0 <ℤ z
above-or z h = ground arith

exchange-ok :
    (a b first second : ℤ)
    → pos 0 <ℤ a
    → a <ℤ pos int_max
    → pos 0 <ℤ b
    → b <ℤ pos int_max
    → IsStrong first
    → IsStrong second
    → (out : ℤ × ℤ) × (exchange a b first second ≡ some out) × Struck first second out.0 out.1
unfolding exchange
exchange-ok a b first second ha ha' hb hb' hf hs = elim (Bool-cases (ltb_ℤ (pos 0) (second -ℤ a))) [
  | inl stands ↦ (
    (first -ℤ b, second -ℤ a),
    rw (struck-int second a hs ha ha', stands, struck-int first b hf hb hb'),
    record {
      hurt = struck-lt second a ha;
      no_better = omega (int_laws, struck-lt first b hb);
      one_stands = inr (above-or (second -ℤ a) stands);
    },
  )
  | inr falls ↦ (
    (first, second -ℤ a),
    rw (struck-int second a hs ha ha', falls),
    record { hurt = struck-lt second a ha; no_better = omega arith; one_stands = inl hf.above },
  )
]

-- What a round leaves of the points of the left and the right one.
pub record Fought (left right left' right' : ℤ) : Type 0 where
  pub left_no_better : left' ≤ℤ left
  pub right_no_better : right' ≤ℤ right
  pub hurt : (left' <ℤ left) ⊎ (right' <ℤ right)
  pub one_stands : (pos 0 <ℤ left') ⊎ (pos 0 <ℤ right')

attack-ok :
    (left right : Status) (atkl atkr : ℤ)
    → pos 0 <ℤ atkl
    → atkl <ℤ pos int_max
    → pos 0 <ℤ atkr
    → atkr <ℤ pos int_max
    → IsStrong left.hp
    → IsStrong right.hp
    → (out : ℤ × ℤ) × (attack left right atkl atkr ≡ some out) × Fought left.hp right.hp out.0 out.1
unfolding attack
attack-ok left right atkl atkr hl hl' hr hr' hpl hpr = elim (Bool-cases (right_first left right)) [
  | inl e ↦
      let (out, done, s) = exchange-ok atkr atkl right.hp left.hp hr hr' hl hl' hpr hpl in
      (
        (out.1, out.0),
        rw (e, done),
        record {
          left_no_better = omega (arith, s.hurt);
          right_no_better = s.no_better;
          hurt = inl s.hurt;
          one_stands = elim s.one_stands [ inl h ↦ inr h | inr h ↦ inl h ];
        },
      )
  | inr e ↦
      let (out, done, s) = exchange-ok atkl atkr left.hp right.hp hl hl' hr hr' hpl hpr in
      (
        out,
        rw e done,
        record {
          left_no_better = s.no_better;
          right_no_better = omega (arith, s.hurt);
          hurt = inr s.hurt;
          one_stands = s.one_stands;
        },
      )
]

-- The status that a round sends back to a player.
pub record Answered (b : Battle) (over : Bool) (s s' : Status) : Type 0 where
  pub same_id : s'.real_player_id ≡ s.real_player_id
  pub same_atk : s'.atk ≡ s.atk
  pub same_attr : s'.attr ≡ s.attr
  pub here : s'.current_battle_id ≡ b
  pub flag : s'.battle_ended_flag ≡ (if over then 1 else s.battle_ended_flag)

-- A round between two players with points and attack between 1 and 2^30 - 1 does not overflow: one
-- of them loses points, neither gains any, at least one still has points, and both come back with
-- their own id, attack and attribute, the letter of the battle, and the flag 1 if a player has no
-- points left.
pub round-ok :
    (b : Battle) (left right : Status)
    → IsFit left
    → IsFit right
    → (left' : Status) × (right' : Status) × (round b left right ≡ some (left', right'))
      × Fought left.hp right.hp left'.hp right'.hp
      × Answered b (is_over left'.hp right'.hp) left left'
      × Answered b (is_over left'.hp right'.hp) right right'
unfolding round
round-ok b left right hl hr =
    let (atkr, pr, r_pos, r_small) = power-ok b right hr in
    let (atkl, pl, l_pos, l_small) = power-ok b left hl in
    let (out, struck, f) =
      attack-ok left right atkl atkr l_pos l_small r_pos r_small hl.hp_ok hr.hp_ok in
    (
      sent_back b (is_over out.0 out.1) out.0 left,
      sent_back b (is_over out.0 out.1) out.1 right,
      rw (pr, pl, struck),
      f,
      record { same_id = refl; same_atk = refl; same_attr = refl; here = refl; flag = refl },
      record { same_id = refl; same_atk = refl; same_attr = refl; here = refl; flag = refl },
    )
