-- ===== src/Tests.antt =====
-- The theorems at concrete inputs, a file for each part of the program.
pub mod Data
mod Buffer
mod Queue
mod Clients
mod Servers
mod Sessions
mod Settings
mod Crossing
mod Loop
mod Texts
mod Processes
mod Logs
mod Wakeups
