-- ===== src/Tests.antt =====
-- Concrete runs, and the theorems applied at concrete inputs.
mod Packets
mod Buffers
mod Timers
mod Threads
mod Peers
mod Tables
mod Tunnels
mod Rounds
mod Starts
mod Interleavings
mod Connections
mod Locking
mod Prints
