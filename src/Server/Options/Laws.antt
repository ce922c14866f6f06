-- ===== src/Server/Options/Laws.antt =====
-- The parameters that a complete command line of the server gives.
use bomberrobots.Base.{
  ℕ, ◌%◌, ◌^◌, ◌≡◌, false, Option, some, ok, err, exited, ◌==◌, if◌then◌else◌, arith, ◌>>=◌,
}
use bomberrobots.Server.Engine.{ServerParameters}
use bomberrobots.Server.Options.{CommandLine, parse_parameters, parameters}

-- Each option was given, but for the seed, whose value is `seed` if it was, and nothing threw.
abbrev pub given : ServerParameters → ℕ → Option ℕ → ℕ → CommandLine
given p count seed port = record {
  failed = false;
  help = false;
  bomb_timer = some p.bomb_timer;
  players_count = some count;
  turn_duration = some p.turn_duration;
  explosion_radius = some p.explosion_radius;
  initial_blocks = some p.initial_blocks;
  game_length = some p.game_length;
  server_name = some p.server_name;
  port = some port;
  seed = seed;
  size_x = some p.size_x;
  size_y = some p.size_y;
}

-- With a complete command line the server leaves if no players are asked for. Otherwise it has the
-- parameters that were given, but that the number of players is cut to a byte: 256 players become
-- none.
pub parse_parameters-parameters :
    (p : ServerParameters) (now count port : ℕ)
    → (parse_parameters now (given p count (some p.seed) port) >>= parameters)
      ≡ (if count == 0 then err exited else ok (record p { players_count = count % 2 ^ 8 }))
unfolding parse_parameters parameters
parse_parameters-parameters p now count port = ground arith
