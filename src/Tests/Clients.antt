-- ===== src/Tests/Clients.antt =====
-- A client against what the server sends it, and against the keys.
use bomberrobots.Base.{
  All, flatten, map, Returns, ℕ, Returns, ◌≡◌, refl, true, false, List, [], ◌∷◌, ◌++◌, each, some,
  ok, err, ◌>>=◌, out_of_range, arith, ltb, length,
}
use bomberrobots.Messages.{Bytes, Player}
use bomberrobots.Encoding.{
  append_each, player_to_bytes, string_to_bytes, player_map_to_bytes, score_map_to_bytes, sized,
  position_to_bytes, position_list_to_bytes, uint8_list_to_bytes, uint16_to_bytes, uint32_to_bytes,
}
use bomberrobots.Events.{
  bomb_exploded, player_moved, block_placed, TurnInfo, turn_to_bytes, event_to_bytes,
}
use bomberrobots.Server.Engine.{Engine, game_started_msg, hello_msg, accepted_player_msg}
use bomberrobots.Server.Handlers.{move, execute, handle_msg}
use bomberrobots.Server.Handlers.Batches.{emptied}
use bomberrobots.Server.Connections.{success}
use bomberrobots.Client.Address.{address_parts, address_parts_lem}
use bomberrobots.Client.Stream.{read_string}
use bomberrobots.Client.Stream.Split.{read_string_split}
use bomberrobots.Client.State.{
  GameInfo, new_game, add_player, add_block, remove_bomb, remove_block, destroy_player,
  change_player_position,
}
use bomberrobots.Client.Display.{game_message}
use bomberrobots.Containers.Maps
use bomberrobots.Containers.Sets
use bomberrobots.Client.Reading.{read_event}
use bomberrobots.Client.Session.{Client, start, handle_server_messages}
use bomberrobots.Client.Session.Spec.{
  ServerMessage, hello, accepted_player, game_started, turn, game_ended, server_bytes, understand,
}
use bomberrobots.Client.Session.Arrivals.{arrival, IsArrival, handle_server_messages-arrival}
use bomberrobots.Client.Session.Alive.{handle_server_messages_game}
use bomberrobots.Client.Session.Late.{handle_server_messages_late}
use bomberrobots.Client.Session.Stale.{read_event_moved}
use bomberrobots.Client.Keys.{handle_gui_message}
use bomberrobots.Client.Keys.Reach.{arrow_key, handle_gui_message-handle_msg}
use bomberrobots.Tests.Samples.{at, small}

abbrev pub ann : Player
ann = record { name = b'A' ∷ []; address = b'a' ∷ [] }

abbrev opening : TurnInfo
opening = record { turn = 0; events = player_moved 0 (at 1 1) ∷ block_placed (at 2 2) ∷ [] }

abbrev blow : TurnInfo
blow = record { turn = 1; events = bomb_exploded 0 (0 ∷ []) (at 2 2 ∷ []) ∷ [] }

abbrev late_blow : TurnInfo
late_blow = record {
  turn = 1;
  events = block_placed (at 3 3) ∷ bomb_exploded 0 (0 ∷ []) (at 2 2 ∷ []) ∷ [];
}

-- A whole game of one player.
abbrev session : List ServerMessage
session =
    hello small
    ∷ accepted_player 0 ann
    ∷ game_started ((0, ann) ∷ [])
    ∷ turn opening
    ∷ turn blow
    ∷ game_ended ((0, 1) ∷ [])
    ∷ []

-- The client after it.
abbrev at_end : Client
at_end = elim (each understand session start) [ err e ↦ start | ok c ↦ c ]

-- The calls that bring it: the first two messages come together.
abbrev brought : List (List ServerMessage)
brought =
    (hello small ∷ accepted_player 0 ann ∷ [])
    ∷ (game_started ((0, ann) ∷ []) ∷ [])
    ∷ (turn opening ∷ [])
    ∷ (turn blow ∷ game_ended ((0, 1) ∷ []) ∷ [])
    ∷ []

brought-IsArrival : All IsArrival brought
unfolding append_each server_bytes hello_msg accepted_player_msg game_started_msg turn_to_bytes
    player_to_bytes string_to_bytes player_map_to_bytes score_map_to_bytes sized event_to_bytes
    position_to_bytes position_list_to_bytes uint8_list_to_bytes uint16_to_bytes uint32_to_bytes
brought-IsArrival = ground arith

handle_server_messages-arrival_example :
    handle_server_messages 6 start
      (record { current_buf = []; arriving = map arrival brought ++ some (7 ∷ []) ∷ [] })
    ≡ ok (at_end, record { current_buf = []; arriving = some (7 ∷ []) ∷ [] })
unfolding understand new_game game_message add_block change_player_position Sets.insert
    destroy_player Maps.find remove_bomb add_player Maps.insert remove_block flatten
handle_server_messages-arrival_example =
    handle_server_messages-arrival brought start at_end (some (7 ∷ []) ∷ []) brought-IsArrival
      (ground arith) refl

-- What is sent to one who comes late to a game of ann: the robot dies after a block is put.
abbrev missed : List (List ServerMessage)
missed = (game_started ((0, ann) ∷ []) ∷ turn opening ∷ []) ∷ (turn late_blow ∷ []) ∷ []

missed-IsArrival : All IsArrival missed
unfolding append_each server_bytes hello_msg accepted_player_msg game_started_msg turn_to_bytes
    player_to_bytes string_to_bytes player_map_to_bytes score_map_to_bytes sized event_to_bytes
    position_to_bytes position_list_to_bytes uint8_list_to_bytes uint16_to_bytes uint32_to_bytes
missed-IsArrival = ground arith

handle_server_messages_late_example :
    handle_server_messages 3 start
      (record { current_buf = []; arriving = map arrival missed ++ [] })
    ≡ err out_of_range
unfolding flatten
handle_server_messages_late_example =
    handle_server_messages_late start ((0, ann) ∷ []) (opening ∷ []) 1 (block_placed (at 3 3) ∷ [])
      0 0 [] (at 2 2 ∷ []) [] [] missed [] refl refl missed-IsArrival refl (ground arith)
      (ground arith) (ground arith) ((tt, (tt, tt)), tt) (tt, tt)

-- A name of four bytes in two parts.
read_string_split_example :
    read_string (record {
      current_buf = 4 ∷ b'R' ∷ b'o' ∷ [];
      arriving = some (b'b' ∷ b'o' ∷ 0 ∷ 6 ∷ 0 ∷ []) ∷ [];
    })
    ≡ ok (b'R' ∷ b'o' ∷ b'b' ∷ b'o' ∷ 0 ∷ 6 ∷ [], record { current_buf = 0 ∷ []; arriving = [] })
read_string_split_example =
    read_string_split b'R' (b'o' ∷ []) (b'b' ∷ b'o' ∷ 0 ∷ 6 ∷ []) (0 ∷ []) [] (omega arith)
      (omega arith)

-- Robot 0 stands at (1, 1).
abbrev pub standing : GameInfo
standing = record {
  server_name = [];
  size_x = 6;
  size_y = 4;
  game_length = 5;
  bomb_timer = 2;
  turn = some 0;
  players = [];
  player_positions = (0, at 1 1) ∷ [];
  blocks = [];
  bombs = [];
  explosions = [];
  scores = [];
}

read_event_moved_example :
    read_event standing
      (record { current_buf = event_to_bytes (player_moved 0 (at 1 2)) ++ []; arriving = [] })
    ≡ ok (standing, record { current_buf = []; arriving = [] })
unfolding Maps.contains
read_event_moved_example = read_event_moved 0 (at 1 2) standing (omega arith) refl [] []

handle_gui_message-handle_msg_example :
    (message : Bytes) × (handle_gui_message (b'A' ∷ []) false (2 ∷ 3 ∷ []) (0 ∷ 0 ∷ 0 ∷ [])
      ≡ ok (some message))
    × ((i : ℕ) (e : Engine)
        → handle_msg (some message) i e
          ≡ (execute (move 3) i (emptied e) >>= λ e'. ok (success, e')))
handle_gui_message-handle_msg_example =
    handle_gui_message-handle_msg (b'A' ∷ []) false (arrow_key 3) 0 0 (0 ∷ []) (omega arith)
      (omega arith)

-- A client whose lobby has ann.
abbrev gathered : Client
gathered = record start { lobby_info = record start.lobby_info { players = (0, ann) ∷ [] } }

-- The start with the first turn, then the second.
abbrev played : List (List ServerMessage)
played = (game_started ((0, ann) ∷ []) ∷ turn opening ∷ []) ∷ (turn blow ∷ []) ∷ []

played-IsArrival : All IsArrival played
unfolding append_each server_bytes hello_msg accepted_player_msg game_started_msg turn_to_bytes
    player_to_bytes string_to_bytes player_map_to_bytes score_map_to_bytes sized event_to_bytes
    position_to_bytes position_list_to_bytes uint8_list_to_bytes uint16_to_bytes uint32_to_bytes
played-IsArrival = ground arith

handle_server_messages_game_example :
    Returns
      (λ r.
        (r.1 ≡ record { current_buf = []; arriving = [] })
        × ((id : ℕ)
            → Maps.contains id gathered.lobby_info.players ≡ true
            → Maps.contains id r.0.game_info.scores ≡ true))
      (handle_server_messages 3 gathered
        (record { current_buf = []; arriving = map arrival played ++ [] }))
unfolding Maps.contains flatten
handle_server_messages_game_example =
    handle_server_messages_game gathered ((0, ann) ∷ []) (opening ∷ blow ∷ []) played []
      played-IsArrival refl refl (ground arith) ((tt, (tt, tt)), (((refl, tt), tt), tt))

-- [::1]:80
address_parts_lem_example :
    address_parts
      (λ port. ltb 0 (length port))
      (b'[' ∷ b':' ∷ b':' ∷ b'1' ∷ b']' ∷ b':' ∷ b'8' ∷ b'0' ∷ [])
    ≡ ok (b'[' ∷ b':' ∷ b':' ∷ b'1' ∷ b']' ∷ [], b'8' ∷ b'0' ∷ [])
address_parts_lem_example =
    address_parts_lem (λ port. ltb 0 (length port)) (b'[' ∷ b':' ∷ b':' ∷ b'1' ∷ b']' ∷ [])
      (b'8' ∷ b'0' ∷ []) (refl, (refl, tt))
