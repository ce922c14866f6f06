-- ===== src/Tests.antt =====
-- Runs of the model on concrete inputs, and the theorems at concrete inputs.
pub mod Samples
mod Orders
mod Blasts
pub mod Runs
mod Games
mod Starts
mod Turns
mod Programs
mod Wire
pub mod Clients
