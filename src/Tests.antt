-- ===== src/Tests.antt =====
-- Examples: the theorems at concrete inputs.
mod Buffers
mod Wire
mod Parser
mod Connections
mod Loops
mod Timers
mod Servers
mod Clients
mod Lines
