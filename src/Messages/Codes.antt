-- ===== src/Messages/Codes.antt =====
-- game-messages.h: the enumerations, each with the byte that stands for its values on the wire.
use bomberrobots.Base.{ℕ}

pub data ServerMessageCode : Type 0 where
  hello accepted_player game_started turn game_ended : ServerMessageCode

unfoldable pub server_message_code : ServerMessageCode → ℕ
server_message_code hello = 0
server_message_code accepted_player = 1
server_message_code game_started = 2
server_message_code turn = 3
server_message_code game_ended = 4

pub data EventCode : Type 0 where
  bomb_placed bomb_exploded player_moved block_placed : EventCode

unfoldable pub event_code : EventCode → ℕ
event_code bomb_placed = 0
event_code bomb_exploded = 1
event_code player_moved = 2
event_code block_placed = 3

pub data ClientMessageCode : Type 0 where
  join place_bomb_client place_block_client move_client : ClientMessageCode

unfoldable pub client_message_code : ClientMessageCode → ℕ
client_message_code join = 0
client_message_code place_bomb_client = 1
client_message_code place_block_client = 2
client_message_code move_client = 3

pub data Direction : Type 0 where
  up right down left : Direction

unfoldable pub direction_code : Direction → ℕ
direction_code up = 0
direction_code right = 1
direction_code down = 2
direction_code left = 3

pub data DrawMessageCode : Type 0 where
  lobby game : DrawMessageCode

unfoldable pub draw_message_code : DrawMessageCode → ℕ
draw_message_code lobby = 0
draw_message_code game = 1

pub data InputMessageCode : Type 0 where
  place_bomb place_block move : InputMessageCode

unfoldable pub input_message_code : InputMessageCode → ℕ
input_message_code place_bomb = 0
input_message_code place_block = 1
input_message_code move = 2
