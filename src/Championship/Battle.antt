-- ===== src/Championship/Battle.antt =====
-- hw2_pvp-championship-lala-ju/battle.c: a battle between the players that its two children send.
pub mod Rounds
pub mod Ending
use system_programming_homew.Prelude.{
  ℕ, zero, suc, ◌+◌, ◌<◌, ◌≤◌, ◌≡◌, Bool, true, false, ◌||◌, Option, none, some, ltb, ◌==◌,
  if◌then◌else◌,
}
use system_programming_homew.Prelude.Int.{ℤ, pos, ◌-ℤ◌, ◌*ℤ◌, ltb_ℤ, leb_ℤ}
use system_programming_homew.Championship.Status.{
  Attribute, fire, grass, water, Status, int, ◌>>=◌, Battle, battle_a, battle_b, battle_c, battle_d,
  battle_e, battle_f, battle_g, battle_h, battle_i, battle_j, battle_k, battle_l, battle_m,
  battle_n,
}

-- The battles that double the attack of an attribute.
abbrev pub boosts : Attribute → Battle → Bool
boosts fire battle_a = true
boosts fire battle_g = true
boosts fire battle_e = true
boosts fire battle_m = true
boosts fire battle_f = true
boosts grass battle_b = true
boosts grass battle_h = true
boosts grass battle_j = true
boosts grass battle_k = true
boosts grass battle_l = true
boosts water battle_d = true
boosts water battle_i = true
boosts water battle_c = true
boosts water battle_n = true
boosts _ _ = false

unfoldable pub power : Battle → Status → Option ℤ
power b s = if boosts s.attr b then int (s.atk *ℤ pos 2) else some s.atk

-- The first one strikes, and the second strikes back if it still stands: its points and the first's.
unfoldable pub exchange : ℤ → ℤ → ℤ → ℤ → Option (ℤ × ℤ)
exchange atk_first atk_second hp_first hp_second = do
  second ← int (hp_second -ℤ atk_first)
  if ltb_ℤ (pos 0) second
      then (do first ← int (hp_first -ℤ atk_second); some (first, second))
      else some (hp_first, second)

-- Does the right one strike first?
abbrev pub right_first : Status → Status → Bool
right_first left right =
    if ltb_ℤ right.hp left.hp
    then true
    else if ltb_ℤ left.hp right.hp
    then false
    else ltb right.real_player_id left.real_player_id

-- The points of the left and the right one after the attack.
unfoldable pub attack : Status → Status → ℤ → ℤ → Option (ℤ × ℤ)
unfolding exchange
attack left right atkl atkr =
    if right_first left right
    then (do struck ← exchange atkr atkl right.hp left.hp; some (struck.1, struck.0))
    else exchange atkl atkr left.hp right.hp

abbrev pub is_over : ℤ → ℤ → Bool
is_over hpl hpr = leb_ℤ hpr (pos 0) || leb_ℤ hpl (pos 0)

-- `left` or `right` as it is sent back.
abbrev pub sent_back : Battle → Bool → ℤ → Status → Status
sent_back b over hp s = record s {
  hp = hp;
  current_battle_id = b;
  battle_ended_flag = if over then 1 else s.battle_ended_flag;
}

-- One pass of the `while` of `main`.
unfoldable pub round : Battle → Status → Status → Option (Status × Status)
unfolding power attack
round b left right = do
  atkr ← power b right
  atkl ← power b left
  struck ← attack left right atkl atkr
  let over = is_over struck.0 struck.1
  some (sent_back b over struck.0 left, sent_back b over struck.1 right)

-- The `while` with the two players, who send what they got back until the battle has ended; `none` also
-- when the fuel runs out.
unfoldable pub fight : ℕ → Battle → Status → Status → Option (Status × Status)
unfolding round
fight zero b left right = none
fight (suc fuel) b left right = do
  sent ← round b left right
  let rest = fight fuel b sent.0 sent.1
  if is_over sent.0.hp sent.1.hp then some sent else rest
