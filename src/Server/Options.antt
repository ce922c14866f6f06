-- ===== src/Server/Options.antt =====
-- server-parser.h and server-parser.cpp: the command line of the server. The reading of it is Boost's:
-- what it gives is an argument, the value stored for each option that was there.
pub mod Laws
use bomberrobots.Base.{
  ℕ, ◌%◌, ◌^◌, Bool, [], Option, none, some, Result, ok, err, or_fail, uninitialised, exited, ◌>>=◌,
  ltb, if◌then◌else◌,
}
use bomberrobots.Messages.{Bytes}
use bomberrobots.Server.Engine.{ServerParameters}

-- What `store` and `notify` did.
pub record CommandLine : Type 0 where
  -- they threw
  pub failed : Bool
  pub help : Bool
  pub bomb_timer : Option ℕ
  pub players_count : Option ℕ
  pub turn_duration : Option ℕ
  pub explosion_radius : Option ℕ
  pub initial_blocks : Option ℕ
  pub game_length : Option ℕ
  pub server_name : Option Bytes
  pub port : Option ℕ
  pub seed : Option ℕ
  pub size_x : Option ℕ
  pub size_y : Option ℕ

-- `server_parameters_t` as it is returned: a number is `none` if it was never written. The name is
-- then the empty string, and the seed has a default, the time.
pub record Parsed : Type 0 where
  pub bomb_timer : Option ℕ
  pub players_count : ℕ
  pub turn_duration : Option ℕ
  pub explosion_radius : Option ℕ
  pub initial_blocks : Option ℕ
  pub game_length : Option ℕ
  pub server_name : Bytes
  pub port : Option ℕ
  pub seed : ℕ
  pub size_x : Option ℕ
  pub size_y : Option ℕ

abbrev value_or {ℓ} : {A : Type ℓ} → A → Option A → A
value_or a none = a
value_or a (some b) = b

-- `now` is the clock's count.
unfoldable pub parse_parameters : ℕ → CommandLine → Result Parsed
parse_parameters now line = if line.failed then err exited else if line.help then err exited else do
  count ← or_fail line.players_count uninitialised
  if ltb count 1
      then err exited
      else ok (record {
        bomb_timer = line.bomb_timer;
        players_count = count % 2 ^ 8;
        turn_duration = line.turn_duration;
        explosion_radius = line.explosion_radius;
        initial_blocks = line.initial_blocks;
        game_length = line.game_length;
        server_name = value_or [] line.server_name;
        port = line.port;
        seed = value_or (now % 2 ^ 32) line.seed;
        size_x = line.size_x;
        size_y = line.size_y;
      })

-- The parameters as the engine reads them.
unfoldable pub parameters : Parsed → Result ServerParameters
parameters p = do
  bomb_timer ← or_fail p.bomb_timer uninitialised
  turn_duration ← or_fail p.turn_duration uninitialised
  explosion_radius ← or_fail p.explosion_radius uninitialised
  initial_blocks ← or_fail p.initial_blocks uninitialised
  game_length ← or_fail p.game_length uninitialised
  size_x ← or_fail p.size_x uninitialised
  size_y ← or_fail p.size_y uninitialised
  ok (record {
    bomb_timer = bomb_timer;
    players_count = p.players_count;
    turn_duration = turn_duration;
    explosion_radius = explosion_radius;
    initial_blocks = initial_blocks;
    game_length = game_length;
    server_name = p.server_name;
    seed = p.seed;
    size_x = size_x;
    size_y = size_y;
  })
