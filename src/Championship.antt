-- ===== src/Championship.antt =====
-- hw2_pvp-championship-lala-ju: the tournament of eight players.
pub mod Status
pub mod Tables
pub mod Battle
pub mod Player
pub mod Relay
pub mod Tournament
mod Tests
