-- ===== src/Championship/Status.antt =====
-- hw2_pvp-championship-lala-ju/status.h: what a player and a battle send each other.
use system_programming_homew.Prelude.{ℕ, Option, some, none, if◌then◌else◌}
use system_programming_homew.Prelude.Int.{ℤ, fits_int}

pub data Attribute : Type 0 where
  fire grass water : Attribute

-- The letters of the battles.
pub data Battle : Type 0 where
  battle_a battle_b battle_c battle_d battle_e battle_f battle_g : Battle
  battle_h battle_i battle_j battle_k battle_l battle_m battle_n : Battle

pub record Status : Type 0 where
  pub real_player_id : ℕ
  pub hp : ℤ
  pub atk : ℤ
  pub attr : Attribute
  pub current_battle_id : Battle
  pub battle_ended_flag : ℕ

-- The value of an `int` expression; an overflow has no defined behaviour.
unfoldable pub int : ℤ → Option ℤ
int z = if fits_int z then some z else none

infixl 5 ◌>>=◌
abbrev pub ◌>>=◌ {ℓ κ} : {A : Type ℓ} {B : Type κ} → Option A → (A → Option B) → Option B
none >>= f = none
some a >>= f = f a
