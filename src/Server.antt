-- ===== src/Server.antt =====
-- The server: its connections, its random numbers, and the game engine.
pub mod Random
pub mod Connections
pub mod Engine
pub mod Explosion
pub mod Turns
pub mod Handlers
pub mod Rounds
pub mod Options
pub mod Startup
pub mod Invariant
