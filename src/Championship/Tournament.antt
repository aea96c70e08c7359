-- ===== src/Championship/Tournament.antt =====
-- hw2_pvp-championship-lala-ju: the whole tree of processes. Each battle waits for its two children,
-- and an agent waits for the loser of a battle; a result is computed from the results waited for, and
-- fuel bounds how deep the waiting goes.
pub mod Waiting
pub mod Champion
use system_programming_homew.Prelude.{
  ℕ, zero, suc, ◌+◌, Bool, true, false, List, [], ◌∷◌, Option, none, some, ltb, ◌==◌, if◌then◌else◌,
}
use system_programming_homew.Prelude.Int.{ℤ, pos, pos_part, leb_ℤ, ltb_ℤ}
use system_programming_homew.Championship.Status.{
  Status, ◌>>=◌, Battle, battle_a, battle_b, battle_d, battle_e, battle_g, battle_h, battle_i,
  battle_j,
}
use system_programming_homew.Championship.Tables.{Child, battle, player, playl, playr, agent}
use system_programming_homew.Championship.Battle.{fight}
use system_programming_homew.Championship.Player.{Outcome, leaves, sends, plays_on, after_battle}

-- A player's process: its status, and `hp`, the points it started with.
pub record Entrant : Type 0 where
  pub status : Status
  pub full : ℤ

-- The two players of a battle as they get their status back at its end.
pub record Result : Type 0 where
  pub winner : Entrant
  pub loser : Entrant

abbrev zone_a : List Battle
zone_a = battle_b ∷ battle_d ∷ battle_e ∷ battle_g ∷ battle_h ∷ battle_i ∷ battle_j ∷ []

abbrev first_sender : List Battle → ℕ → Option Battle
first_sender [] p = none
first_sender (b ∷ bs) p = elim (agent b) [
  | some a ↦ if a == p then some b else first_sender bs p
  | none ↦ first_sender bs p
]

-- The battle whose loser writes to the fifo that agent `p` reads.
unfoldable pub sender : ℕ → Option Battle
unfolding agent
sender p = first_sender zone_a p

-- What the winner sends to the next battle.
abbrev pub next_status : Entrant → Option Entrant
next_status e = do
  o ← after_battle e.full e.status
  elim o [ plays_on s ↦ some (record e { status = s }) | leaves ↦ none | sends a s ↦ none ]

-- What agent `p` gets from the loser; it starts with the points that it gets.
abbrev pub sent_to : ℕ → Entrant → Option Entrant
sent_to p e = do
  o ← after_battle e.full e.status
  elim o [
    | sends a s ↦ if a == p then some (record { status = s; full = s.hp }) else none
    | leaves ↦ none
    | plays_on s ↦ none
  ]

-- A player sends its status while the flag is not 1.
abbrev pub offer : Entrant → Option Entrant
offer e = if e.status.battle_ended_flag == 1 then none else some e

-- Who comes from a child of a battle; `file` are the players' statuses, `results` what other battles
-- end with.
unfoldable pub enter : (ℕ → Status) → (Battle → Option Result) → Child → Option Entrant
unfolding sender
enter file results (battle c) = do r ← results c; next_status r.winner
enter file results (player p) =
    if ltb p 8
    then offer (record { status = file p; full = (file p).hp })
    else (do c ← sender p; r ← results c; e ← sent_to p r.loser; offer e)

-- The winner is left where the right one has no points, as `main` looks at it.
abbrev pub ranking : Entrant → Entrant → Result
ranking l r =
    if leb_ℤ r.status.hp (pos 0)
    then record { winner = l; loser = r }
    else record { winner = r; loser = l }

unfoldable pub meet : Battle → Entrant → Entrant → Option Result
meet b l r = do
  ended ← fight (pos_part l.status.hp + pos_part r.status.hp) b l.status r.status
  some (ranking (record l { status = ended.0 }) (record r { status = ended.1 }))

unfoldable pub result : (ℕ → Status) → ℕ → Battle → Option Result
unfolding enter meet
result file zero b = none
result file (suc fuel) b = do
  l ← enter file (result file fuel) (playl b)
  r ← enter file (result file fuel) (playr b)
  meet b l r

-- Who is printed by the root; six levels of waiting.
unfoldable pub champion : (ℕ → Status) → Option ℕ
unfolding result
champion file = do r ← result file 6 battle_a; some r.winner.status.real_player_id
