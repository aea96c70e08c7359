-- ===== src/Championship/Tables.antt =====
-- hw2_pvp-championship-lala-ju: the tables of the tournament. battle.c knows the parent and the two
-- children of each battle, player.c the battle of each player and the agent that goes on for the loser
-- of a battle.
use system_programming_homew.Prelude.{ℕ, ◌≡◌, refl, Option, none, some, ◌==◌, if◌then◌else◌}
use system_programming_homew.Championship.Status.{
  Battle, battle_a, battle_b, battle_c, battle_d, battle_e, battle_f, battle_g, battle_h, battle_i,
  battle_j, battle_k, battle_l, battle_m, battle_n,
}

-- The argument of a child process: a letter for `./battle`, a number for `./player`.
pub data Child : Type 0 where
  battle : Battle → Child
  player : ℕ → Child

-- '0' for the root.
unfoldable pub parent : Battle → Option Battle
parent battle_a = none
parent battle_b = some battle_a
parent battle_c = some battle_a
parent battle_d = some battle_b
parent battle_e = some battle_b
parent battle_f = some battle_c
parent battle_g = some battle_d
parent battle_h = some battle_d
parent battle_i = some battle_e
parent battle_j = some battle_e
parent battle_k = some battle_f
parent battle_l = some battle_f
parent battle_m = some battle_k
parent battle_n = some battle_l

unfoldable pub playl : Battle → Child
playl battle_a = battle battle_b
playl battle_b = battle battle_d
playl battle_c = battle battle_f
playl battle_d = battle battle_g
playl battle_e = battle battle_i
playl battle_f = battle battle_k
playl battle_g = player 0
playl battle_h = player 2
playl battle_i = player 4
playl battle_j = player 6
playl battle_k = battle battle_m
playl battle_l = battle battle_n
playl battle_m = player 8
playl battle_n = player 11

unfoldable pub playr : Battle → Child
playr battle_a = battle battle_c
playr battle_b = battle battle_e
playr battle_c = player 14
playr battle_d = battle battle_h
playr battle_e = battle battle_j
playr battle_f = battle battle_l
playr battle_g = player 1
playr battle_h = player 3
playr battle_i = player 5
playr battle_j = player 7
playr battle_k = player 10
playr battle_l = player 13
playr battle_m = player 9
playr battle_n = player 12

-- `par`, the battle of a player; `none` where the switch sets nothing.
unfoldable pub par : ℕ → Option Battle
par p =
    if p == 0
    then some battle_g
    else if p == 1
    then some battle_g
    else if p == 2
    then some battle_h
    else if p == 3
    then some battle_h
    else if p == 4
    then some battle_i
    else if p == 5
    then some battle_i
    else if p == 6
    then some battle_j
    else if p == 7
    then some battle_j
    else if p == 8
    then some battle_m
    else if p == 9
    then some battle_m
    else if p == 10
    then some battle_k
    else if p == 11
    then some battle_n
    else if p == 12
    then some battle_n
    else if p == 13
    then some battle_l
    else if p == 14
    then some battle_c
    else none

-- `agent`, the player that goes on for the loser of a battle in zone A.
unfoldable pub agent : Battle → Option ℕ
agent battle_b = some 14
agent battle_d = some 10
agent battle_e = some 13
agent battle_g = some 8
agent battle_h = some 11
agent battle_i = some 9
agent battle_j = some 12
agent _ = none

-- The battle that a child process takes to be its parent.
abbrev pub parent_of : Child → Option Battle
parent_of (battle b) = parent b
parent_of (player p) = par p

-- Each child of a battle takes that battle to be its parent: the tables of battle.c and player.c
-- agree.
pub parent-children : (b : Battle) → (parent_of (playl b) ≡ some b) × (parent_of (playr b) ≡ some b)
unfolding parent playl playr par
parent-children battle_a = (refl, refl)
parent-children battle_b = (refl, refl)
parent-children battle_c = (refl, refl)
parent-children battle_d = (refl, refl)
parent-children battle_e = (refl, refl)
parent-children battle_f = (refl, refl)
parent-children battle_g = (refl, refl)
parent-children battle_h = (refl, refl)
parent-children battle_i = (refl, refl)
parent-children battle_j = (refl, refl)
parent-children battle_k = (refl, refl)
parent-children battle_l = (refl, refl)
parent-children battle_m = (refl, refl)
parent-children battle_n = (refl, refl)
