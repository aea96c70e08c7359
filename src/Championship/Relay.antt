-- ===== src/Championship/Relay.antt =====
-- hw2_pvp-championship-lala-ju: a player in talk with its battles, and battle.c in passing mode between
-- them: behind its own battle it hands each status of its winner to its parent, and each answer back.
pub mod Transparent
mod Tests
use mathlib.Core.Bool.{not}
use system_programming_homew.Prelude.{
  ℕ, Bool, true, false, ◌&&◌, List, [], ◌∷◌, Option, none, some, ◌==◌, if◌then◌else◌,
}
use system_programming_homew.Prelude.Int.{ℤ, pos, ltb_ℤ}
use system_programming_homew.Championship.Status.{Status, ◌>>=◌}
use system_programming_homew.Championship.Player.{
  Outcome, leaves, sends, plays_on, after_battle, is_root,
}

-- What was sent, what was read of the answers, and whether the process has ended.
pub record Talk : Type 0 where
  pub sent : List Status
  pub got : List Status
  pub is_over : Bool

abbrev pub goes_with : Outcome → Option Status
goes_with leaves = none
goes_with (sends a s) = none
goes_with (plays_on s) = some s

-- What a player sends after the answer `s`; it sends no more when its process ends.
unfoldable pub player_next : ℤ → Status → Option (Option Status)
unfolding after_battle
player_next full s =
    if s.battle_ended_flag == 1
    then (do o ← after_battle full s; some (goes_with o))
    else some (some s)

-- The `while` loops of player.c, with the answers of its parent.
unfoldable pub player_talk : ℤ → Status → List Status → Option Talk
unfolding player_next
player_talk full s [] = some (record { sent = s ∷ []; got = []; is_over = false })
player_talk full s (f ∷ fs) = do
  next ← player_next full f
  elim next [
    | none ↦ some (record { sent = s ∷ []; got = f ∷ []; is_over = true })
    | some s' ↦ (do
      rest ← player_talk full s' fs
      some (record { sent = s ∷ rest.sent; got = f ∷ rest.got; is_over = rest.is_over }))
  ]

-- The conditions of the passing loop, on what is in `left` or `right`.
abbrev pub passes_on : Status → Bool
passes_on s = ltb_ℤ (pos 0) s.hp && not (is_root s.current_battle_id && (s.battle_ended_flag == 1))

-- The passing loop, with the statuses that come from the child and the answers of the parent: what goes to
-- the parent, and what goes to the child.
unfoldable pub pass_on : Status → List Status → List Status → Talk
pass_on s [] fs =
    if passes_on s
    then record { sent = []; got = []; is_over = false }
    else record { sent = []; got = []; is_over = true }
pass_on s (m ∷ ms) [] =
    if passes_on s
    then record { sent = m ∷ []; got = []; is_over = false }
    else record { sent = []; got = []; is_over = true }
pass_on s (m ∷ ms) (f ∷ fs) =
    let rest = pass_on f ms fs in
    if passes_on s
    then record { sent = m ∷ rest.sent; got = f ∷ rest.got; is_over = rest.is_over }
    else record { sent = []; got = []; is_over = true }
