-- ===== src/Tests.antt =====
-- The theorems of the other modules at concrete inputs, under a platform whose codings and signatures
-- are simple functions.
mod Toy
mod Cases
mod Panels
mod Script
mod Runs
mod Replays
mod Logs
mod Clocked
mod Remotes
