-- ===== src/Tests.antt =====
-- Concrete inputs, and the theorems of the other modules at them.
mod Data
mod Book
mod Tables
mod Feeds
mod Lines
mod Server
mod Bench
mod Threads
mod Replay
mod Latency
mod Commands
