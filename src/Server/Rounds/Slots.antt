-- ===== src/Server/Rounds/Slots.antt =====
-- game-engine.cpp, server-tcp-handler.cpp: a position in the table of descriptors after its client has left.
-- `player_ids` is never told.
use bomberrobots.Server.Engine.{Engine}
