-- ===== src/Championship/Relay/Tests.antt =====
-- A concrete talk of hw2_pvp-championship-lala-ju through a battle in passing mode.
use system_programming_homew.Prelude.{ℕ, suc, ◌≤◌, ◌≡◌, refl, true, List, [], ◌∷◌, some, arith}
use system_programming_homew.Prelude.Int.{ℤ, pos, negsuc, ◌+ℤ◌, ◌-ℤ◌}
use system_programming_homew.Championship.Status.{
  Status, Attribute, Battle, int, battle_g, battle_c, battle_a,
}
use system_programming_homew.Championship.Tables.{agent}
use system_programming_homew.Championship.Player.{after_battle}
use system_programming_homew.Championship.Relay.{Talk, player_next, player_talk, pass_on}
use system_programming_homew.Championship.Relay.Transparent.{IsAnswer, pass_on-player_talk}

abbrev status : ℤ → Battle → ℕ → Status
status hp b flag = record {
  real_player_id = 3;
  hp = hp;
  atk = pos 2;
  attr = Attribute.fire;
  current_battle_id = b;
  battle_ended_flag = flag;
}

-- Battle G is won with 7 of 10 points left; C is won in two rounds, and A is lost.
abbrev won : Status
won = status (pos 7) battle_g 1

abbrev answers : List Status
answers = status (pos 5) battle_c 0 ∷ status (pos 2) battle_c 1 ∷ status (negsuc 0) battle_a 1 ∷ []

recovered : player_next (pos 10) won ≡ some (some (status (pos 8) battle_g 0))
unfolding player_next after_battle int ◌+ℤ◌ ◌-ℤ◌
recovered = refl

standing : (n : ℕ) (b : Battle) (flag : ℕ) → n ≤ 9 → IsAnswer (pos 10) (status (pos (suc n)) b flag)
standing n b flag h = record { no_more = omega arith; flagged = λ e. absurd (ground (arith, e)) }

pass_on-player_talk_example :
    (talk : Talk) × (player_talk (pos 10) (status (pos 8) battle_g 0) answers ≡ some talk)
    × (pass_on won talk.sent answers ≡ talk)
pass_on-player_talk_example =
    pass_on-player_talk (pos 10) won (status (pos 8) battle_g 0) answers (omega arith)
      (standing 6 battle_g 1 (omega arith))
      (
        standing 4 battle_c 0 (omega arith),
        (
          standing 1 battle_c 1 (omega arith),
          (record { no_more = omega arith; flagged = λ e. refl }, tt),
        ),
      )
      recovered

test_talk :
    player_talk (pos 10) (status (pos 8) battle_g 0) answers
    ≡ some (record {
      sent = status (pos 8) battle_g 0 ∷ status (pos 5) battle_c 0 ∷ status (pos 6) battle_c 0 ∷ [];
      got = answers;
      is_over = true;
    })
unfolding player_talk after_battle int ◌+ℤ◌ ◌-ℤ◌ agent
test_talk = refl
