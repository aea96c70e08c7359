-- ===== src/Championship/Tournament/Waiting.antt =====
-- hw2_pvp-championship-lala-ju: which battle waits for which.
use system_programming_homew.Prelude.{
  ℕ, ◌<◌, ◌≡◌, ◌⊎◌, refl, false, inl, inr, some, arith, ltb, subst,
}
use system_programming_homew.Championship.Status.{
  Battle, battle_a, battle_b, battle_c, battle_d, battle_e, battle_f, battle_g, battle_h, battle_i,
  battle_j, battle_k, battle_l, battle_m, battle_n,
}
use system_programming_homew.Championship.Tables.{Child, battle, player, playl, playr, agent}
use system_programming_homew.Championship.Player.{is_root}
use system_programming_homew.Championship.Tournament.{sender}

-- How many battles, at most, have to end before this one, one after the other.
abbrev pub rank : Battle → ℕ
rank battle_a = 5
rank battle_b = 2
rank battle_c = 4
rank battle_d = 1
rank battle_e = 1
rank battle_f = 3
rank battle_g = 0
rank battle_h = 0
rank battle_i = 0
rank battle_j = 0
rank battle_k = 2
rank battle_l = 2
rank battle_m = 1
rank battle_n = 1

-- A child that can be waited for: a battle of lower rank, not the root; a real player; or an agent that
-- one battle of lower rank sends its loser to.
abbrev pub IsBelow : Battle → Child → Type 0
IsBelow b (battle c) = (rank c < rank b) × (is_root c ≡ false)
IsBelow b (player p) =
    (p < 8)
    ⊎ ((c : Battle) × (sender p ≡ some c)
        × (agent c ≡ some p)
        × (ltb p 8 ≡ false)
        × (rank c < rank b))

-- Children
pub children-IsBelow : (b : Battle) → IsBelow b (playl b) × IsBelow b (playr b)
unfolding playl playr sender agent
children-IsBelow battle_a = ((omega arith, refl), (omega arith, refl))
children-IsBelow battle_b = ((omega arith, refl), (omega arith, refl))
children-IsBelow battle_c = ((omega arith, refl), inr (battle_b, refl, refl, refl, omega arith))
children-IsBelow battle_d = ((omega arith, refl), (omega arith, refl))
children-IsBelow battle_e = ((omega arith, refl), (omega arith, refl))
children-IsBelow battle_f = ((omega arith, refl), (omega arith, refl))
children-IsBelow battle_g = (inl (omega arith), inl (omega arith))
children-IsBelow battle_h = (inl (omega arith), inl (omega arith))
children-IsBelow battle_i = (inl (omega arith), inl (omega arith))
children-IsBelow battle_j = (inl (omega arith), inl (omega arith))
children-IsBelow battle_k = ((omega arith, refl), inr (battle_d, refl, refl, refl, omega arith))
children-IsBelow battle_l = ((omega arith, refl), inr (battle_e, refl, refl, refl, omega arith))
children-IsBelow battle_m =
    (inr (battle_g, refl, refl, refl, omega arith), inr (battle_i, refl, refl, refl, omega arith))
children-IsBelow battle_n =
    (inr (battle_h, refl, refl, refl, omega arith), inr (battle_j, refl, refl, refl, omega arith))

-- If the loser of a battle goes to an agent, then that battle is the first, and so the only one,
-- whose loser goes to that agent.
pub sender-agent : (b : Battle) (p : ℕ) → agent b ≡ some p → sender p ≡ some b
unfolding sender agent
sender-agent battle_a p e = cc
sender-agent battle_b p e =
    let q : 14 ≡ p = cc in subst (λ (n : ℕ). sender n ≡ some battle_b) q refl
sender-agent battle_c p e = cc
sender-agent battle_d p e =
    let q : 10 ≡ p = cc in subst (λ (n : ℕ). sender n ≡ some battle_d) q refl
sender-agent battle_e p e =
    let q : 13 ≡ p = cc in subst (λ (n : ℕ). sender n ≡ some battle_e) q refl
sender-agent battle_f p e = cc
sender-agent battle_g p e = let q : 8 ≡ p = cc in subst (λ (n : ℕ). sender n ≡ some battle_g) q refl
sender-agent battle_h p e =
    let q : 11 ≡ p = cc in subst (λ (n : ℕ). sender n ≡ some battle_h) q refl
sender-agent battle_i p e = let q : 9 ≡ p = cc in subst (λ (n : ℕ). sender n ≡ some battle_i) q refl
sender-agent battle_j p e =
    let q : 12 ≡ p = cc in subst (λ (n : ℕ). sender n ≡ some battle_j) q refl
sender-agent battle_k p e = cc
sender-agent battle_l p e = cc
sender-agent battle_m p e = cc
sender-agent battle_n p e = cc

pub rank-lt : (b : Battle) → rank b < 6
rank-lt battle_a = omega arith
rank-lt battle_b = omega arith
rank-lt battle_c = omega arith
rank-lt battle_d = omega arith
rank-lt battle_e = omega arith
rank-lt battle_f = omega arith
rank-lt battle_g = omega arith
rank-lt battle_h = omega arith
rank-lt battle_i = omega arith
rank-lt battle_j = omega arith
rank-lt battle_k = omega arith
rank-lt battle_l = omega arith
rank-lt battle_m = omega arith
rank-lt battle_n = omega arith
