-- ===== src/Booking/System/Leak.antt =====
-- hw1_csiebooking-lala-ju/server.c: what a failed read leaves behind in the read server.
use system_programming_homew.Booking.Command.{Booking}
use system_programming_homew.Booking.World.{World}
