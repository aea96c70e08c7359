-- ===== src/Lib.antt =====
-- Four programs of system programming homework in C, and what makes them right.
--
-- hw1_csiebooking-lala-ju (Booking): two servers over one file of booking records. The read server
-- shows a record, the write server changes it by a command; they keep each other off a record by
-- fcntl locks, and their own clients by counters. Booking/Command is `checkcommand`,
-- Booking/Request is `handle_read` and `checkid`, Booking/ReadServer and Booking/WriteServer are
-- what `main` does for a ready descriptor in either build, as functions from a state to a state
-- and the messages sent. Booking/System puts both side by side as a step relation. Booking/Locks
-- is the interface to the locks of the system, with a table that meets it.
--
-- hw2_pvp-championship-lala-ju (Championship): a tree of processes, battles with two children each
-- and players as leaves. Championship/Tables are the tables of battle.c and player.c,
-- Championship/Battle is the loop of battle.c, Championship/Player what player.c does after a
-- battle, Championship/Relay the loops of player.c with its parent's answers and battle.c's passing
-- mode between them, and Championship/Tournament the results that flow through the tree: who waits for whom,
-- from the players' statuses to the champion. A battle's loop has the players' points as fuel, the
-- waiting six levels.
--
-- hw3_thread-library-lala-ju (Threads): a scheduler of threads on two arrays of pointers.
-- Threads/Tcb holds threadtools.h's data, Threads/Scheduler the cases of `scheduler` in
-- scheduler.c; a NULL pointer that is followed, or a place outside an array, is `none`. What
-- `select` answers is an argument. Threads/Scheduler/Schedule says which lists the arrays stand
-- for. Threads/Setup is `init_threads`, Threads/Programs the bodies of the loops in threads.c.
-- Threads/Machine lets the threads run: a turn from the place in a thread's `environment` to the next
-- thread_yield, async_read or thread_exit, with the case of `scheduler` that it leads to; what the
-- system does meanwhile is an event. Under it, Reach has turns one after the other, Alone the turns of
-- one thread by itself, Apart the lines of one thread among the others, Outcome and Falling what fibonacci and
-- collatz show by themselves, and Whole the run of main.
--
-- hw4_simple-movies-recommendation-system-lala-ju (Movies): movies that match a request, sorted by
-- score in blocks, which are then merged in rounds. Movies/Select is lib.c, Movies/Merge the
-- `truemerge` and `merge` of server.c, Movies/Search its `cal`, `sorting` and the way of a request
-- through tserver. A score is a finite double as a whole number of the smallest one. Movies/Input is
-- `initialize` and `read_request` on the bytes of the two inputs, over `Doubles`, what the program
-- does with a `double`, as a parameter; the files under it write movies and requests the way the
-- inputs have them. Movies/Server is `main` of tserver with `wr`, from the inputs to the files
-- written, one for each id; Movies/Pserver `main` of pserver for its one request. `read_movies` has the length of the file as fuel; every line takes a byte of it.
--
-- Prelude holds lists, integers and tests on native numbers; CString the string functions of C. An
-- overflow of `int` has no defined behaviour in C: Booking keeps the low 32 bits, as gcc compiles it without
-- options, and the other parts stop there with `none`.
-- `merge_rounds` has the number of blocks as its fuel, which halves in each round, so it is always enough.
--
-- Not modelled: sockets, files, fifos, signals, processes and threads of the system, the parsing
-- of the input by the C library beyond what is used of it, scores that are infinite or NaN, two threads
-- that write one file at the same time, and the test scripts.
pub mod Prelude
pub mod CString
pub mod Booking
pub mod Championship
pub mod Movies
pub mod Threads
