-- ===== src/Client/Session.antt =====
-- robots-client.cpp: the client's state, and what it does with a message of the server. A handler
-- carries the state; the bytes left are the reader's affair.
pub mod Spec
pub mod Follows
pub mod Arrivals
pub mod Unscored
pub mod Late
pub mod Stale
pub mod Alive
pub mod Scores
use bomberrobots.Base.{
  ℕ, ◌%◌, Bool, true, false, List, [], ◌∷◌, ◌++◌, Result, ok, err, exited, ◌==◌, if◌then◌else◌,
  some,
}
use bomberrobots.Containers.Maps.{Map}
use bomberrobots.Messages.{Bytes}
use bomberrobots.Messages.Codes.{server_message_code, ServerMessageCode}
use bomberrobots.Client.Stream.{
  Reader, pure, ◌>>=◌, lift, read_uint8, read_uint16, read_string, repeat,
}
use bomberrobots.Client.State.{LobbyInfo, GameInfo, add_player, clear_players, new_game, new_turn}
use bomberrobots.Client.Reading.{read_players_map, read_scores_map, read_event_list}
use bomberrobots.Client.Display.{lobby_message, game_message}

-- The global variables. `scores` is never written.
pub record Client : Type 0 where
  pub is_lobby_status : Bool
  pub game_info : GameInfo
  pub lobby_info : LobbyInfo
  pub scores : Map ℕ
  -- what has been handed to `send_gui_message`, in order
  pub sent_to_gui : List Bytes

-- Static storage begins as zeros.
abbrev pub start : Client
start = record {
  is_lobby_status = false;
  game_info = record {
    server_name = [];
    size_x = 0;
    size_y = 0;
    game_length = 0;
    bomb_timer = 0;
    turn = some 0;
    players = [];
    player_positions = [];
    blocks = [];
    bombs = [];
    explosions = [];
    scores = [];
  };
  lobby_info = record {
    server_name = [];
    players_count = 0;
    size_x = 0;
    size_y = 0;
    game_length = 0;
    explosion_radius = 0;
    bomb_timer = 0;
    players = [];
  };
  scores = [];
  sent_to_gui = [];
}

abbrev pub send_gui_message : Bytes → Client → Client
send_gui_message message c = record c { sent_to_gui = c.sent_to_gui ++ message ∷ [] }

unfoldable pub read_hello : Reader LobbyInfo
read_hello = do
  server_name ← read_string
  players_count ← read_uint8
  size_x ← read_uint16
  size_y ← read_uint16
  game_length ← read_uint16
  explosion_radius ← read_uint16
  bomb_timer ← read_uint16
  pure (record {
    server_name = server_name;
    players_count = players_count;
    size_x = size_x;
    size_y = size_y;
    game_length = game_length;
    explosion_radius = explosion_radius;
    bomb_timer = bomb_timer;
    players = [];
  })

unfoldable pub handle_hello_msg : Client → Reader Client
handle_hello_msg c = do
  lobby ← read_hello
  pure (record (send_gui_message (lobby_message lobby) (record c { lobby_info = lobby })) {
    is_lobby_status = true;
  })

unfoldable pub read_accepted_player : LobbyInfo → Reader LobbyInfo
read_accepted_player l = do
  id ← read_uint8
  name ← read_string
  address ← read_string
  pure (add_player id (record { name = name; address = address }) l)

unfoldable pub handle_accepted_player_msg : Client → Reader Client
handle_accepted_player_msg c = do
  lobby ← read_accepted_player c.lobby_info
  pure (send_gui_message (lobby_message lobby) (record c { lobby_info = lobby }))

-- The players of the message are read and dropped: the game has those of the lobby.
unfoldable pub read_game_started : Client → Reader GameInfo
read_game_started c =
    let l = c.lobby_info in
    lift (new_game l.server_name l.size_x l.size_y l.game_length l.players l.bomb_timer c.scores)
    >>= λ g. read_players_map >>= λ players. pure g

unfoldable pub handle_game_started_msg : Client → Reader Client
handle_game_started_msg c = do
  g ← read_game_started c
  pure (record c { game_info = g; is_lobby_status = false })

unfoldable pub read_turn : GameInfo → Reader GameInfo
read_turn g = do turn ← read_uint16; read_event_list (new_turn turn g)

unfoldable pub handle_turn_message : Client → Reader Client
handle_turn_message c = do
  g ← read_turn c.game_info
  message ← lift (game_message g)
  pure (send_gui_message message (record c { game_info = g }))

-- The scores of the message are read and dropped.
unfoldable pub handle_game_ended_msg : Client → Reader Client
handle_game_ended_msg c = do
  scores ← read_scores_map
  let lobby = clear_players c.lobby_info
  pure (
      send_gui_message (lobby_message lobby)
        (record c { lobby_info = lobby; is_lobby_status = true }))

-- The `switch` on the code of a message.
unfoldable pub handle_body : ℕ → Client → Reader Client
handle_body code c =
    if code == server_message_code ServerMessageCode.hello
    then handle_hello_msg c
    else if code == server_message_code ServerMessageCode.accepted_player
    then handle_accepted_player_msg c
    else if code == server_message_code ServerMessageCode.game_started
    then handle_game_started_msg c
    else if code == server_message_code ServerMessageCode.turn
    then handle_turn_message c
    else if code == server_message_code ServerMessageCode.game_ended
    then handle_game_ended_msg c
    else lift (err exited)

unfoldable pub handle_server_message : Client → Reader Client
handle_server_message c = do msg_code ← read_uint8; handle_body msg_code c

-- The first rounds of the endless loop.
unfoldable pub handle_server_messages : ℕ → Client → Reader Client
handle_server_messages rounds c = repeat rounds handle_server_message c
