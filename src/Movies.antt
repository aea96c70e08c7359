-- ===== src/Movies.antt =====
-- hw4_simple-movies-recommendation-system-lala-ju: the movie recommender.
pub mod Entry
pub mod Select
pub mod Merge
pub mod Search
pub mod Input
pub mod Server
pub mod Pserver
mod Tests
