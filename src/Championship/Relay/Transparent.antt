-- ===== src/Championship/Relay/Transparent.antt =====
-- hw2_pvp-championship-lala-ju: a battle in passing mode is not seen by the player and by the battles above.
use system_programming_homew.Prelude.{
  ℕ, ◌^◌, ◌≡◌, refl, sym, ap, ◌∙◌, Bool, true, false, ◌&&◌, Bool-cases, inl, inr, List, [], ◌∷◌,
  Option, none, some, ◌==◌, arith,
}
use mathlib.Core.Bool.{not}
use mathlib.Core.Option.{some-injective}
use system_programming_homew.Prelude.Int.{ℤ, pos, ltb_ℤ, leb_ℤ, ◌≤ℤ◌, ◌<ℤ◌}
use system_programming_homew.Championship.Status.{Status}
use system_programming_homew.Championship.Tables.{agent}
use system_programming_homew.Championship.Player.{leaves, sends, is_root, after_battle-winner}
use system_programming_homew.Championship.Relay.{
  Talk, goes_with, player_next, player_talk, passes_on, pass_on,
}

-- What a battle answers to a player: no more points than it started with, and the flag if it has lost.
pub record IsAnswer (full : ℤ) (s : Status) : Type 0 where
  pub no_more : s.hp ≤ℤ full
  pub flagged : leb_ℤ s.hp (pos 0) ≡ true → s.battle_ended_flag ≡ 1

abbrev pub AllAnswers : ℤ → List Status → Type 0
AllAnswers full [] = Unit {0}
AllAnswers full (s ∷ ss) = IsAnswer full s × AllAnswers full ss

abbrev is_some : Option Status → Bool
is_some none = false
is_some (some s) = true

-- A player sends again exactly if the battle below its parent passes on.
record InStep (full : ℤ) (s : Status) : Type 0 where
  next : Option Status
  next_ok : player_next full s ≡ some next
  same : passes_on s ≡ is_some next

-- Where a loser goes it sends no more on this way.
no_more-sent :
    (o : Option ℕ) (p : Status) → goes_with (elim o [ some a ↦ sends a p | none ↦ leaves ]) ≡ none
no_more-sent none p = refl
no_more-sent (some a) p = refl

loses-InStep :
    (full : ℤ) (s : Status) → leb_ℤ s.hp (pos 0) ≡ true → s.battle_ended_flag ≡ 1 → InStep full s
unfolding player_next
loses-InStep full s lost flag =
    let ended : (s.battle_ended_flag == 1) ≡ true = ground arith in
    let down : ltb_ℤ (pos 0) s.hp ≡ false = ground arith in
    record {
      next = none;
      next_ok =
          rw (ended, lost)
            (ap some (
              no_more-sent (agent s.current_battle_id)
                (record s { battle_ended_flag = 0; hp = full })));
      same = rw down;
    }

wins-InStep :
    (full : ℤ) (s : Status)
    → full <ℤ pos (2 ^ 30)
    → s.hp ≤ℤ full
    → leb_ℤ s.hp (pos 0) ≡ false
    → (s.battle_ended_flag == 1) ≡ true
    → InStep full s
unfolding player_next
wins-InStep full s small no_more stands ended =
    let up : ltb_ℤ (pos 0) s.hp ≡ true = ground arith in
    elim (Bool-cases (is_root s.current_battle_id)) [
      | inl root ↦ record {
        next = none;
        next_ok = rw (ended, stands, root);
        same = rw (up, root, ended);
      }
      | inr inner ↦
          let (hp, done, _, _) = after_battle-winner full s (ground arith) no_more small inner in
          record {
            next = some (record s { battle_ended_flag = 0; hp = hp });
            next_ok = rw (ended, done);
            same = rw (up, inner);
          }
    ]

not_and_false : (b : Bool) → not (b && false) ≡ true
not_and_false true = refl
not_and_false false = refl

player_next-InStep :
    (full : ℤ) (s : Status) → full <ℤ pos (2 ^ 30) → IsAnswer full s → InStep full s
unfolding player_next
player_next-InStep full s small a = elim (Bool-cases (leb_ℤ s.hp (pos 0))) [
  | inl lost ↦ loses-InStep full s lost (a.flagged lost)
  | inr stands ↦ elim (Bool-cases (s.battle_ended_flag == 1)) [
    | inl ended ↦ wins-InStep full s small a.no_more stands ended
    | inr open_ ↦
        let up : ltb_ℤ (pos 0) s.hp ≡ true = ground arith in
        record {
          next = some s;
          next_ok = rw open_;
          same = rw (up, open_, not_and_false (is_root s.current_battle_id));
        }
  ]
]

-- The player's talk from the status `s` on, behind an answer `f` on which the battle passes on.
abbrev SeesThrough : ℤ → Status → Status → List Status → Type 0
SeesThrough full f s fs =
    (talk : Talk) × (player_talk full s fs ≡ some talk) × (pass_on f talk.sent fs ≡ talk)

sees-last :
    (full : ℤ) (f s g : Status) (fs : List Status)
    → passes_on f ≡ true
    → player_next full g ≡ some none
    → passes_on g ≡ false
    → SeesThrough full f s (g ∷ fs)
unfolding player_talk pass_on
sees-last full f s g fs goes next stops =
    (record { sent = s ∷ []; got = g ∷ []; is_over = true }, rw next, rw (goes, stops))

sees-more :
    (full : ℤ) (f s g s' : Status) (fs : List Status)
    → passes_on f ≡ true
    → player_next full g ≡ some (some s')
    → SeesThrough full g s' fs
    → SeesThrough full f s (g ∷ fs)
unfolding player_talk pass_on
sees-more full f s g s' fs goes next (talk, done, same) = (
  record { sent = s ∷ talk.sent; got = g ∷ talk.got; is_over = talk.is_over },
  rw (next, done),
  rw (goes, same),
)

sees-through :
    (full : ℤ) (f s : Status) (fs : List Status)
    → full <ℤ pos (2 ^ 30)
    → AllAnswers full fs
    → passes_on f ≡ true
    → SeesThrough full f s fs
unfolding player_talk pass_on
sees-through full f s [] small all goes =
    (record { sent = s ∷ []; got = []; is_over = false }, refl, rw goes)
sees-through full f s (g ∷ fs) small all goes =
    let i = player_next-InStep full g small (all.0) in
    by_next i.next i.next_ok i.same (λ s' more. sees-through full g s' fs small (all.1) more)
  where
    by_next :
        (next : Option Status)
        → player_next full g ≡ some next
        → passes_on g ≡ is_some next
        → ((s' : Status) → passes_on g ≡ true → SeesThrough full g s' fs)
        → SeesThrough full f s (g ∷ fs)
    by_next none ok same rest = sees-last full f s g fs goes ok same
    by_next (some s') ok same rest = sees-more full f s g s' fs goes ok (rest s' same)

-- If a player whose first points are below 2^30 goes on sending after an answer that leaves it no
-- more points than its first ones and sets the flag if it has lost, and the answers that follow also
-- leave it no more points than its first ones and set the flag if it has lost, then a battle in
-- passing mode between the player and those answers hands up exactly the statuses that the player
-- sends and hands down exactly the answers that the player reads, and it ends exactly if the player
-- ends: neither waits for the other.
pub pass_on-player_talk :
    (full : ℤ) (f s : Status) (fs : List Status)
    → full <ℤ pos (2 ^ 30)
    → IsAnswer full f
    → AllAnswers full fs
    → player_next full f ≡ some (some s)
    → (talk : Talk) × (player_talk full s fs ≡ some talk) × (pass_on f talk.sent fs ≡ talk)
pass_on-player_talk full f s fs small a all next =
    let i = player_next-InStep full f small a in
    let found : i.next ≡ some s = some-injective i.next (some s) (sym i.next_ok ∙ next) in
    sees-through full f s fs small all (i.same ∙ ap is_some found)
