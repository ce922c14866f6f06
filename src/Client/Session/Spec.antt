-- ===== src/Client/Session/Spec.antt =====
-- What the server says, as a data type: how it writes it (game-engine.cpp, event.cpp), and what the
-- client is to make of it.
use bomberrobots.Base.{ℕ, ◌^◌, ◌<◌, true, false, [], ◌∷◌, Result, ok, ◌>>=◌, length, All}
use bomberrobots.Containers.Maps.{Map}
use bomberrobots.Messages.{Bytes, Player}
use bomberrobots.Messages.Codes.{server_message_code, ServerMessageCode}
use bomberrobots.Encoding.{uint8_to_byte, score_map_to_bytes}
use bomberrobots.Events.{TurnInfo, turn_to_bytes}
use bomberrobots.Server.Engine.{ServerParameters, hello_msg, accepted_player_msg, game_started_msg}
use bomberrobots.Client.Stream.RoundTrip.{IsShort}
use bomberrobots.Client.State.{LobbyInfo, GameInfo, add_player, clear_players, new_game}
use bomberrobots.Client.Reading.Spec.{IsFit, follow_turn}
use bomberrobots.Client.Display.{lobby_message, game_message}
use bomberrobots.Client.Session.{Client, send_gui_message}

pub data ServerMessage : Type 0 where
  hello : ServerParameters → ServerMessage
  -- the id and the player
  accepted_player : ℕ → Player → ServerMessage
  game_started : Map Player → ServerMessage
  turn : TurnInfo → ServerMessage
  game_ended : Map ℕ → ServerMessage

unfoldable pub server_bytes : ServerMessage → Bytes
server_bytes (hello params) = hello_msg params
server_bytes (accepted_player id player) = accepted_player_msg id player
server_bytes (game_started players) = game_started_msg players
server_bytes (turn info) = turn_to_bytes info
server_bytes (game_ended scores) =
    uint8_to_byte (server_message_code ServerMessageCode.game_ended) ∷ score_map_to_bytes scores

abbrev pub lobby_of : ServerParameters → LobbyInfo
lobby_of params = record {
  server_name = params.server_name;
  players_count = params.players_count;
  size_x = params.size_x;
  size_y = params.size_y;
  game_length = params.game_length;
  explosion_radius = params.explosion_radius;
  bomb_timer = params.bomb_timer;
  players = [];
}

-- A new picture of the lobby, and a drawing of it.
abbrev pub show_lobby : LobbyInfo → Client → Client
show_lobby l c = send_gui_message (lobby_message l) (record c { lobby_info = l })

abbrev pub game_of : Client → Result GameInfo
game_of c =
    new_game c.lobby_info.server_name c.lobby_info.size_x c.lobby_info.size_y
      c.lobby_info.game_length c.lobby_info.players c.lobby_info.bomb_timer c.scores

unfoldable pub understand : ServerMessage → Client → Result Client
understand (hello params) c =
    ok (record (show_lobby (lobby_of params) c) { is_lobby_status = true })
understand (accepted_player id player) c = ok (show_lobby (add_player id player c.lobby_info) c)
understand (game_started players) c =
    game_of c >>= λ g. ok (record c { game_info = g; is_lobby_status = false })
understand (turn info) c = follow_turn info c.game_info >>= λ g.
    game_message g >>= λ drawing. ok (send_gui_message drawing (record c { game_info = g }))
understand (game_ended scores) c =
    ok (record (show_lobby (clear_players c.lobby_info) c) { is_lobby_status = true })

-- The values are in the ranges of their types, and strings have a length that fits into a byte.
abbrev pub IsSendable : ServerMessage → Type 0
IsSendable (hello params) =
    (length params.server_name < 2 ^ 8)
    × (params.players_count < 2 ^ 8)
    × (params.size_x < 2 ^ 16)
    × (params.size_y < 2 ^ 16)
    × (params.game_length < 2 ^ 16)
    × (params.explosion_radius < 2 ^ 16)
    × (params.bomb_timer < 2 ^ 16)
IsSendable (accepted_player id player) = (id < 2 ^ 8) × IsShort player
IsSendable (game_started players) =
    (length players < 2 ^ 32) × All (λ p. (p.0 < 2 ^ 8) × IsShort p.1) players
IsSendable (turn info) =
    (info.turn < 2 ^ 16) × (length info.events < 2 ^ 32) × All IsFit info.events
IsSendable (game_ended scores) =
    (length scores < 2 ^ 32) × All (λ p. (p.0 < 2 ^ 8) × (p.1 < 2 ^ 32)) scores
