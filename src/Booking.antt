-- ===== src/Booking.antt =====
-- hw1_csiebooking-lala-ju/server.c: the booking servers.
pub mod Command
pub mod Request
pub mod Locks
pub mod Clients
pub mod World
pub mod ReadServer
pub mod WriteServer
pub mod System
mod Tests
