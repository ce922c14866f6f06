-- ===== src/Server/Engine.antt =====
-- game-engine.h: the state of the game engine and its constructor, with the parameters of
-- server-parser.h; and, of game-engine.cpp, the messages that it sends to clients.
use bomberrobots.Base.{
  ℕ, Bool, false, ◌&&◌, List, [], ◌∷◌, ◌++◌, Result, ok, or_fail, out_of_range, ◌>>=◌, ltb,
  get_elem?, set, if◌then◌else◌,
}
use bomberrobots.Containers.Maps.{Map}
use bomberrobots.Messages.{Bytes, Player, Position, Bomb}
use bomberrobots.Messages.Codes.{server_message_code, hello, accepted_player, game_started}
use bomberrobots.Encoding.{
  uint8_to_byte, uint16_to_bytes, string_to_bytes, player_to_bytes, player_map_to_bytes,
}
use bomberrobots.Events.{Event, TurnInfo, add_event, turn_to_bytes}
use bomberrobots.Server.Connections.{TcpHandler, send_message, send_message_to_all}
use bomberrobots.Server.Random.{seeded}

-- `server_parameters_t`; the port is the connections' affair.
pub record ServerParameters : Type 0 where
  pub bomb_timer : ℕ
  pub players_count : ℕ
  pub turn_duration : ℕ
  pub explosion_radius : ℕ
  pub initial_blocks : ℕ
  pub game_length : ℕ
  pub server_name : Bytes
  pub seed : ℕ
  pub size_x : ℕ
  pub size_y : ℕ

pub record Engine : Type 0 where
  pub game_params : ServerParameters
  pub tcp_handler : TcpHandler
  pub gameplay_started : Bool
  pub players : Map Player
  pub scores : Map ℕ
  pub players_positions : Map Position
  pub blocks_positions : List Position
  -- from a position in the table of descriptors to a player's id
  pub player_ids : Map ℕ
  pub next_player_id : ℕ
  pub current_turn : ℕ
  pub current_blocks_to_erase : List Position
  pub current_players_to_destroy : List ℕ
  pub turns : List TurnInfo
  pub bombs : Map Bomb
  pub next_bomb_id : ℕ
  pub random : ℕ

-- The constructor.
unfoldable pub new_engine : ServerParameters → TcpHandler → Engine
unfolding seeded
new_engine game_params tcp_handler = record {
  game_params = game_params;
  tcp_handler = tcp_handler;
  gameplay_started = false;
  players = [];
  scores = [];
  players_positions = [];
  blocks_positions = [];
  player_ids = [];
  next_player_id = 0;
  current_turn = 0;
  current_blocks_to_erase = [];
  current_players_to_destroy = [];
  turns = [];
  bombs = [];
  next_bomb_id = 0;
  random = seeded game_params.seed;
}

-- `turns.at(k).add_event(event)`.
unfoldable pub add_event_at : ℕ → Event → Engine → Result Engine
add_event_at k event e = do
  info ← or_fail (get_elem? e.turns k) out_of_range
  ok (record e { turns = set e.turns k (add_event event info) })

-- `check_position`: is the position on the board?
unfoldable pub check_position : ServerParameters → Position → Bool
check_position params pos = ltb pos.x params.size_x && ltb pos.y params.size_y

unfoldable pub hello_msg : ServerParameters → Bytes
unfolding server_message_code string_to_bytes uint16_to_bytes
hello_msg params =
    uint8_to_byte (server_message_code hello)
    ∷ (string_to_bytes params.server_name
        ++ (uint8_to_byte params.players_count
            ∷ (uint16_to_bytes params.size_x
                ++ (uint16_to_bytes params.size_y
                    ++ (uint16_to_bytes params.game_length
                        ++ (uint16_to_bytes params.explosion_radius
                            ++ uint16_to_bytes params.bomb_timer))))))

unfoldable pub accepted_player_msg : ℕ → Player → Bytes
unfolding server_message_code player_to_bytes
accepted_player_msg id player =
    uint8_to_byte (server_message_code accepted_player) ∷ uint8_to_byte id ∷ player_to_bytes player

unfoldable pub game_started_msg : Map Player → Bytes
unfolding server_message_code player_map_to_bytes
game_started_msg players =
    uint8_to_byte (server_message_code game_started) ∷ player_map_to_bytes players

unfoldable pub send_hello : ℕ → Engine → Engine
unfolding send_message hello_msg
send_hello i e = record e { tcp_handler = send_message i (hello_msg e.game_params) e.tcp_handler }

unfoldable pub send_turns : ℕ → List TurnInfo → TcpHandler → TcpHandler
unfolding send_message turn_to_bytes
send_turns i [] h = h
send_turns i (turn ∷ turns) h = send_turns i turns (send_message i (turn_to_bytes turn) h)

unfoldable pub send_accepted_players : ℕ → Map Player → TcpHandler → TcpHandler
unfolding send_message accepted_player_msg
send_accepted_players i [] h = h
send_accepted_players i ((id, player) ∷ players) h =
    send_accepted_players i players (send_message i (accepted_player_msg id player) h)

-- `send_hello_state`: the game so far, or the players accepted so far.
unfoldable pub send_hello_state : ℕ → Engine → Engine
unfolding send_turns send_accepted_players send_message game_started_msg
send_hello_state i e =
    if e.gameplay_started
    then record e {
      tcp_handler =
          send_turns i e.turns (send_message i (game_started_msg e.players) e.tcp_handler);
    }
    else record e { tcp_handler = send_accepted_players i e.players e.tcp_handler }

unfoldable pub send_to_all : Bytes → Engine → Engine
unfolding send_message_to_all
send_to_all msg e = record e { tcp_handler = send_message_to_all msg e.tcp_handler }
