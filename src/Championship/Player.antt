-- ===== src/Championship/Player.antt =====
-- hw2_pvp-championship-lala-ju/player.c: what a player does when a battle has ended.
use system_programming_homew.Prelude.{
  ℕ, suc, ◌+◌, ◌-◌, ◌/◌, ◌^◌, ◌<◌, ◌≤◌, ◌≡◌, refl, Bool, true, false, Option, none, some,
  if◌then◌else◌, arith,
}
use system_programming_homew.Prelude.Int.{
  ℤ, pos, negsuc, sub_ℕ, ◌+ℤ◌, ◌-ℤ◌, leb_ℤ, ◌<ℤ◌, ◌≤ℤ◌, int_max, pos-+ℤ,
}
use system_programming_homew.Championship.Status.{Status, int, ◌>>=◌, Battle, battle_a}
use system_programming_homew.Championship.Tables.{agent}

-- The process ends, or ends after it sent the status to an agent, or plays on.
pub data Outcome : Type 0 where
  leaves : Outcome
  sends : ℕ → Status → Outcome
  plays_on : Status → Outcome

-- `/ 2` on `int` rounds towards 0.
abbrev pub half : ℤ → ℤ
half (pos n) = pos (n / 2)
half (negsuc n) = sub_ℕ 0 (suc n / 2)

abbrev pub is_root : Battle → Bool
is_root battle_a = true
is_root _ = false

-- The winner gets half of the lost points back.
unfoldable pub recover : ℤ → Status → Option Status
recover full s = do
  lost ← int (full -ℤ s.hp)
  hp ← int (s.hp +ℤ half lost)
  some (record s { hp = hp })

-- `full` is `hp`, the points that the process started with.
unfoldable pub after_battle : ℤ → Status → Option Outcome
unfolding recover
after_battle full s =
    let p : Status = record s { battle_ended_flag = 0 } in
    if leb_ℤ s.hp (pos 0)
    then some (elim (agent s.current_battle_id) [
      | some a ↦ sends a (record p { hp = full })
      | none ↦ leaves
    ])
    else if is_root s.current_battle_id
    then some leaves
    else (do p' ← recover full p; some (plays_on p'))

sub-pos : (x y : ℕ) → x ≤ y → pos y -ℤ pos x ≡ pos (y - x)
unfolding ◌-ℤ◌
sub-pos x y h = ground arith

int-pos : (n : ℕ) → n < int_max → int (pos n) ≡ some (pos n)
unfolding int
int-pos n h = ground arith

-- No overflow, and the points come to stand between what was left and what there was at first.
recover-ok :
    (full : ℤ) (s : Status)
    → pos 0 <ℤ s.hp
    → s.hp ≤ℤ full
    → full <ℤ pos (2 ^ 30)
    → (hp : ℤ) × (recover full s ≡ some (record s { hp = hp })) × (s.hp ≤ℤ hp) × (hp ≤ℤ full)
unfolding recover
recover-ok full s h k l = by_sign full s.hp refl h k l
  where
    by_sign :
        (y x : ℤ)
        → s.hp ≡ x
        → pos 0 <ℤ x
        → x ≤ℤ y
        → y <ℤ pos (2 ^ 30)
        → (hp : ℤ) × (recover y s ≡ some (record s { hp = hp })) × (x ≤ℤ hp) × (hp ≤ℤ y)
    by_sign (pos y) (pos x) e h k l = (
      pos (x + (y - x) / 2),
      rw (
        e,
        sub-pos x y (omega arith),
        int-pos (y - x) (omega arith),
        pos-+ℤ x ((y - x) / 2),
        int-pos (x + (y - x) / 2) (omega arith),
      ),
      omega arith,
      omega arith,
    )
    by_sign y (negsuc x) e h k l = absurd (omega arith)
    by_sign (negsuc y) (pos x) e h k l = absurd (omega arith)

-- A player with points left, at most its first ones, which are below 2^30, plays on after every
-- battle but the root, with the flag cleared and with points between those that were left and the
-- first ones.
pub after_battle-winner :
    (full : ℤ) (s : Status)
    → pos 0 <ℤ s.hp
    → s.hp ≤ℤ full
    → full <ℤ pos (2 ^ 30)
    → is_root s.current_battle_id ≡ false
    → (hp : ℤ) × (after_battle full s
        ≡ some (plays_on (record s { battle_ended_flag = 0; hp = hp })))
      × (s.hp ≤ℤ hp)
      × (hp ≤ℤ full)
unfolding after_battle
after_battle-winner full s h k l e =
    let p : Status = record s { battle_ended_flag = 0 } in
    let (hp, done, better, no_more) = recover-ok full p h k l in
    let stands : leb_ℤ s.hp (pos 0) ≡ false = ground arith in
    (hp, rw (stands, e, done), better, no_more)

-- loses
pub after_battle-loser :
    (full : ℤ) (s : Status) (a : ℕ)
    → s.hp ≤ℤ pos 0
    → agent s.current_battle_id ≡ some a
    → after_battle full s ≡ some (sends a (record s { battle_ended_flag = 0; hp = full }))
unfolding after_battle
after_battle-loser full s a h e =
    let falls : leb_ℤ s.hp (pos 0) ≡ true = ground arith in rw (falls, e)
