-- ===== src/Championship/Tournament/Champion.antt =====
-- hw2_pvp-championship-lala-ju: the results of all battles, and the champion.
use system_programming_homew.Prelude.{
  ℕ, zero, suc, ◌+◌, ◌<◌, ◌≤◌, ◌≡◌, refl, ap, ◌∙◌, true, false, inl, inr, some, ltb, lt→ltb, ◌==◌,
  arith,
}
use system_programming_homew.Prelude.Int.{pos, leb_ℤ, ◌<ℤ◌, ◌≤ℤ◌, pos_part}
use system_programming_homew.Championship.Status.{Status, Battle, battle_a}
use system_programming_homew.Championship.Tables.{Child, battle, player, playl, playr, agent}
use system_programming_homew.Championship.Battle.Rounds.{IsStrong, IsFit}
use system_programming_homew.Championship.Battle.Ending.{Returned, OneStands, fight-ends}
use system_programming_homew.Championship.Player.{is_root, after_battle-winner, after_battle-loser}
use system_programming_homew.Championship.Tournament.{
  Entrant, Result, next_status, sent_to, offer, enter, ranking, meet, result, champion,
}
use system_programming_homew.Championship.Tournament.Waiting.{
  rank, rank-lt, IsBelow, children-IsBelow,
}

-- A player at work: no overflow is near, and the id is that of a real player.
pub record IsSound (e : Entrant) : Type 0 where
  pub full_ok : IsStrong e.full
  pub atk_ok : IsStrong e.status.atk
  pub id_ok : e.status.real_player_id < 8
  pub hp_ok : e.status.hp ≤ℤ e.full

-- Before a battle, and after it.
pub record IsReady (e : Entrant) : Type 0 where
  pub sound : IsSound e
  pub stands : pos 0 <ℤ e.status.hp
  pub flag : e.status.battle_ended_flag ≡ 0

pub record IsResult (b : Battle) (r : Result) : Type 0 where
  pub winner_ok : IsSound r.winner
  pub winner_here : r.winner.status.current_battle_id ≡ b
  pub winner_stands : pos 0 <ℤ r.winner.status.hp
  pub loser_ok : IsSound r.loser
  pub loser_here : r.loser.status.current_battle_id ≡ b
  pub loser_falls : r.loser.status.hp ≤ℤ pos 0

next_status-IsReady :
    (b : Battle) (r : Result)
    → IsResult b r
    → is_root b ≡ false
    → (e : Entrant) × (next_status r.winner ≡ some e) × IsReady e
next_status-IsReady b r h n =
    let (hp, done, better, no_more) =
      after_battle-winner r.winner.full r.winner.status h.winner_stands h.winner_ok.hp_ok
        h.winner_ok.full_ok.below (ap is_root h.winner_here ∙ n) in
    (
      record r.winner { status = record r.winner.status { battle_ended_flag = 0; hp = hp } },
      rw done,
      record {
        sound = record {
          full_ok = h.winner_ok.full_ok;
          atk_ok = h.winner_ok.atk_ok;
          id_ok = h.winner_ok.id_ok;
          hp_ok = no_more;
        };
        stands = omega (arith, h.winner_stands);
        flag = refl;
      },
    )

sent_to-IsReady :
    (b : Battle) (p : ℕ) (r : Result)
    → IsResult b r
    → agent b ≡ some p
    → (e : Entrant) × (sent_to p r.loser ≡ some e) × IsReady e
sent_to-IsReady b p r h a =
    let done =
      after_battle-loser r.loser.full r.loser.status p h.loser_falls (ap agent h.loser_here ∙ a) in
    let same : (p == p) ≡ true = ground arith in
    (
      record {
        status = record r.loser.status { battle_ended_flag = 0; hp = r.loser.full };
        full = r.loser.full;
      },
      rw (done, same),
      record {
        sound = record {
          full_ok = h.loser_ok.full_ok;
          atk_ok = h.loser_ok.atk_ok;
          id_ok = h.loser_ok.id_ok;
          hp_ok = omega arith;
        };
        stands = h.loser_ok.full_ok.above;
        flag = refl;
      },
    )

offer-IsReady : (e : Entrant) → IsReady e → offer e ≡ some e
offer-IsReady e h = rw h.flag

-- The status that comes back from a battle belongs to the same player.
Returned-IsSound :
    (b : Battle) (e : Entrant) (s : Status)
    → IsReady e
    → Returned b e.status s
    → IsSound (record e { status = s })
Returned-IsSound b e s h r = record {
  full_ok = h.sound.full_ok;
  atk_ok = rw r.same_atk h.sound.atk_ok;
  id_ok = rw r.same_id h.sound.id_ok;
  hp_ok = omega (arith, r.no_better, h.sound.hp_ok);
}

ready-IsFit : (e : Entrant) → IsReady e → IsFit e.status
ready-IsFit e h = record {
  hp_ok = record { above = h.stands; below = omega (arith, h.sound.hp_ok, h.sound.full_ok.below) };
  atk_ok = h.sound.atk_ok;
}

module _ (b : Battle) (l r : Entrant) (hl : IsReady l) (hr : IsReady r) where
  ranking-IsResult :
      (sl sr : Status)
      → Returned b l.status sl
      → Returned b r.status sr
      → OneStands sl sr
      → IsResult b (ranking (record l { status = sl }) (record r { status = sr }))
  ranking-IsResult sl sr rl rr (inl (stands, falls)) =
      let right_falls : leb_ℤ sr.hp (pos 0) ≡ true = ground arith in
      rw right_falls (record {
        winner_ok = Returned-IsSound b l sl hl rl;
        winner_here = rl.here;
        winner_stands = stands;
        loser_ok = Returned-IsSound b r sr hr rr;
        loser_here = rr.here;
        loser_falls = falls;
      })
  ranking-IsResult sl sr rl rr (inr (falls, stands)) =
      let right_stands : leb_ℤ sr.hp (pos 0) ≡ false = ground arith in
      rw right_stands (record {
        winner_ok = Returned-IsSound b r sr hr rr;
        winner_here = rr.here;
        winner_stands = stands;
        loser_ok = Returned-IsSound b l sl hl rl;
        loser_here = rl.here;
        loser_falls = falls;
      })

  meet-IsResult : (res : Result) × (meet b l r ≡ some res) × IsResult b res
  unfolding meet
  meet-IsResult =
      let (sl, sr, done, one, rl, rr) =
        fight-ends (pos_part l.status.hp + pos_part r.status.hp) b l.status r.status (omega arith)
          (ready-IsFit l hl) (ready-IsFit r hr) in
      (
        ranking (record l { status = sl }) (record r { status = sr }),
        rw done,
        ranking-IsResult sl sr rl rr one,
      )

-- The players of the file player_status.txt as the program needs them.
pub record IsPlayer (p : ℕ) (s : Status) : Type 0 where
  pub id_ok : s.real_player_id ≡ p
  pub fit : IsFit s
  pub flag : s.battle_ended_flag ≡ 0

module _ (file : ℕ → Status) (players : (p : ℕ) → p < 8 → IsPlayer p (file p)) where
  -- Every battle below this rank has a result.
  abbrev Settled : ℕ → Type 0
  Settled n =
      (c : Battle) → rank c < n → (res : Result) × (result file n c ≡ some res) × IsResult c res

  enter-IsReady :
      (n : ℕ) (b : Battle) (c : Child)
      → Settled n
      → rank b ≤ n
      → IsBelow b c
      → (e : Entrant) × (enter file (result file n) c ≡ some e) × IsReady e
  unfolding enter
  enter-IsReady n b (battle c) ih h (lower, not_root) =
      let (res, done, ok) = ih c (omega arith) in
      let (e, next, ready) = next_status-IsReady c res ok not_root in (e, rw (done, next), ready)
  enter-IsReady n b (player p) ih h (inl real) =
      let s = players p real in
      let is_real : ltb p 8 ≡ true = lt→ltb p 8 real in
      let e : Entrant = record { status = file p; full = (file p).hp } in
      let ready : IsReady e = record {
        sound = record {
          full_ok = s.fit.hp_ok;
          atk_ok = s.fit.atk_ok;
          id_ok = rw s.id_ok real;
          hp_ok = omega arith;
        };
        stands = s.fit.hp_ok.above;
        flag = s.flag;
      } in
      (e, rw is_real (offer-IsReady e ready), ready)
  enter-IsReady n b (player p) ih h (inr (c, sends_to, goes_to, no_real, lower)) =
      let (res, done, ok) = ih c (omega arith) in
      let (e, sent, ready) = sent_to-IsReady c p res ok goes_to in
      (e, rw (no_real, sends_to, done, sent) (offer-IsReady e ready), ready)

  result-Settled : (n : ℕ) → Settled n
  unfolding result
  result-Settled zero = λ c h. absurd (omega arith)
  result-Settled (suc n) = λ c h.
      let (left_below, right_below) = children-IsBelow c in
      let ih = result-Settled n in
      let (l, from_left, hl) = enter-IsReady n c (playl c) ih (omega arith) left_below in
      let (r, from_right, hr) = enter-IsReady n c (playr c) ih (omega arith) right_below in
      let (res, met, ok) = meet-IsResult c l r hl hr in (res, rw (from_left, from_right) met, ok)

  -- If the eight players of the file each have their own id, flag 0, and points and attack between 1
  -- and 2^30 - 1, then the root prints a champion, whose id is one of 0 to 7.
  pub champion-found : (p : ℕ) × (champion file ≡ some p) × (p < 8)
  unfolding champion
  champion-found =
      let (res, done, ok) = result-Settled 6 battle_a (omega arith) in
      (res.winner.status.real_player_id, rw done, ok.winner_ok.id_ok)

  -- If the eight players of the file each have their own id, flag 0, and points and attack between 1
  -- and 2^30 - 1, then every battle of the tree has a result, after at most six battles one after
  -- the other, with no overflow: a winner that stands and a loser that does not, both of them real
  -- players within their first points.
  pub result-found : (b : Battle) → (res : Result) × (result file 6 b ≡ some res) × IsResult b res
  result-found b = result-Settled 6 b (rank-lt b)
