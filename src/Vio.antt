-- ===== src/Vio.antt =====
-- mysql/vio-bench/ and mysql/vio-bench2/: a server and clients that exchange commands and responses.
mod Defs
mod Handlers
mod Reads
mod Writes
mod Moves
mod Rounds
mod Serving
mod Asking
mod Steady
mod Bench
mod Measuring
mod Closing
mod Checks
mod Together
mod Examples
