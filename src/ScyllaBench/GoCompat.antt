-- ===== src/ScyllaBench/GoCompat.antt =====
-- gocompat/: what the command line shares with programs in Go.
pub mod Strconv
pub mod Flags
