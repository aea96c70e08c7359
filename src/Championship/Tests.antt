-- ===== src/Championship/Tests.antt =====
-- Concrete battles of hw2_pvp-championship-lala-ju.
use system_programming_homew.Prelude.{ℕ, ◌<◌, ◌≡◌, refl, some, arith}
use system_programming_homew.Prelude.Int.{ℤ, pos, ◌≤ℤ◌, ◌-ℤ◌, ◌*ℤ◌}
use system_programming_homew.Championship.Status.{
  Status, fire, grass, battle_b, battle_d, battle_e, battle_g, int,
}
use system_programming_homew.Championship.Tables.{
  agent, parent_of, battle, playl, playr, parent-children,
}
use system_programming_homew.Championship.Battle.{round, fight, is_over, power, attack, exchange}
use system_programming_homew.Championship.Battle.Rounds.{IsFit, Fought, Answered, round-ok}
use system_programming_homew.Championship.Battle.Ending.{OneStands, Returned, fight-ends}
use system_programming_homew.Championship.Player.{
  after_battle, plays_on, sends, after_battle-winner, after_battle-loser,
}
use system_programming_homew.Championship.Tournament.{Result, result, champion, sender}
use system_programming_homew.Championship.Tournament.Waiting.{sender-agent}
use system_programming_homew.Championship.Tournament.Champion.{
  IsPlayer, IsResult, champion-found, result-found,
}

-- The first two lines of player_status.txt.
abbrev first : Status
first = record {
  real_player_id = 0;
  hp = pos 7;
  atk = pos 2;
  attr = fire;
  current_battle_id = battle_g;
  battle_ended_flag = 0;
}

abbrev second : Status
second = record {
  real_player_id = 1;
  hp = pos 8;
  atk = pos 3;
  attr = grass;
  current_battle_id = battle_g;
  battle_ended_flag = 0;
}

first-IsFit : IsFit first
first-IsFit = record {
  hp_ok = record { above = omega arith; below = omega arith };
  atk_ok = record { above = omega arith; below = omega arith };
}

second-IsFit : IsFit second
second-IsFit = record {
  hp_ok = record { above = omega arith; below = omega arith };
  atk_ok = record { above = omega arith; below = omega arith };
}

round-ok_example :
    (left' : Status) × (right' : Status) × (round battle_g first second ≡ some (left', right'))
    × Fought first.hp second.hp left'.hp right'.hp
    × Answered battle_g (is_over left'.hp right'.hp) first left'
    × Answered battle_g (is_over left'.hp right'.hp) second right'
round-ok_example = round-ok battle_g first second first-IsFit second-IsFit

fight-ends_example :
    (left' : Status) × (right' : Status) × (fight 15 battle_g first second ≡ some (left', right'))
    × OneStands left' right'
    × Returned battle_g first left'
    × Returned battle_g second right'
fight-ends_example = fight-ends 15 battle_g first second (omega arith) first-IsFit second-IsFit

-- The fire player's attack is doubled in battle G: 4 and 4 points are enough for 8.
test_fight :
    fight 15 battle_g first second
    ≡ some (
      record first { hp = pos 4; battle_ended_flag = 1 },
      record second { hp = pos 0; battle_ended_flag = 1 },
    )
unfolding fight round power attack exchange int ◌-ℤ◌ ◌*ℤ◌
test_fight = refl

abbrev worn : Status
worn = record first { hp = pos 4; battle_ended_flag = 1 }

abbrev beaten : Status
beaten = record second { hp = pos 0; battle_ended_flag = 1 }

after_battle-winner_example :
    (hp : ℤ) × (after_battle (pos 7) worn
      ≡ some (plays_on (record worn { battle_ended_flag = 0; hp = hp })))
    × (pos 4 ≤ℤ hp)
    × (hp ≤ℤ pos 7)
after_battle-winner_example =
    after_battle-winner (pos 7) worn (omega arith) (omega arith) (omega arith) refl

after_battle-loser_example :
    after_battle (pos 8) beaten
    ≡ some (sends 8 (record beaten { battle_ended_flag = 0; hp = pos 8 }))
unfolding agent
after_battle-loser_example = after_battle-loser (pos 8) beaten 8 (omega arith) refl

test_sender_agent : sender 14 ≡ some battle_b
unfolding agent
test_sender_agent = sender-agent battle_b 14 refl

abbrev eight : ℕ → Status
eight p = record first { real_player_id = p }

eight-IsPlayer : (p : ℕ) → p < 8 → IsPlayer p (eight p)
eight-IsPlayer p h = record {
  id_ok = refl;
  fit = record { hp_ok = first-IsFit.hp_ok; atk_ok = first-IsFit.atk_ok };
  flag = refl;
}

test_champion : (p : ℕ) × (champion eight ≡ some p) × (p < 8)
test_champion = champion-found eight eight-IsPlayer

result-found_example : (res : Result) × (result eight 6 battle_b ≡ some res) × IsResult battle_b res
result-found_example = result-found eight eight-IsPlayer battle_b

test_parent_children :
    (parent_of (battle battle_d) ≡ some battle_b) × (parent_of (battle battle_e) ≡ some battle_b)
unfolding playl playr
test_parent_children = parent-children battle_b
