-- ===== src/Server/Handlers.antt =====
-- game-engine.cpp: the messages of clients. `handle_msg` reads what one `read` brought, and carries
-- out the last message in it.
pub mod Batches
pub mod LongNames
pub mod EmptyBoards
pub mod Moves
pub mod Rejoins
use bomberrobots.Base.{
  ℕ, zero, suc, ◌+◌, ◌-◌, ◌%◌, ◌^◌, Bool, ◌&&◌, [], ◌∷◌, Option, none, some, Result, ok, err,
  or_fail, out_of_range, uninitialised, out_of_fuel, ◌>>=◌, ltb, ◌==◌, if◌then◌else◌, length,
}
use bomberrobots.Containers.Maps
use bomberrobots.Containers.Sets
use bomberrobots.Messages.{Bytes, Player, Position, position_lt, Bomb}
use bomberrobots.Messages.Codes.{client_message_code, ClientMessageCode, direction_code, Direction}
use bomberrobots.Events.{bomb_placed, player_moved, block_placed}
use bomberrobots.Server.Connections.{
  MessageRecvStatus, error_conn, error_msg, end_conn, potentially_success, success, get_address,
  read_from,
}
use bomberrobots.Server.Connections.Buffer
use bomberrobots.Server.Connections.Buffer.{Reads, read_uint8, read_string, pure, throw}
use bomberrobots.Server.Engine.{
  Engine, add_event_at, check_position, accepted_player_msg, send_to_all,
}
use bomberrobots.Server.Turns.{start_gameplay}

-- The subclasses of `Client_message`. A direction is the byte that was read.
pub data ClientMessage : Type 0 where
  join : Bytes → ClientMessage
  place_bomb place_block : ClientMessage
  move : ℕ → ClientMessage

-- `check_position_to_move`.
unfoldable pub check_position_to_move : Position → Engine → Bool
unfolding check_position
check_position_to_move pos e =
    check_position e.game_params pos && Sets.count position_lt pos e.blocks_positions == 0

-- What `join` does before a game: the client becomes a player, and the last one starts the game.
unfoldable pub accept_player : Bytes → ℕ → Engine → Result Engine
unfolding get_address send_to_all accepted_player_msg start_gameplay
accept_player name i e = do
  let id = e.next_player_id
  address ← get_address i e.tcp_handler
  let player : Player = record { name = name; address = address }
  let added = record e {
    next_player_id = (id + 1) % 2 ^ 8;
    player_ids = Maps.insert_or_assign i id e.player_ids;
    players = Maps.insert id player e.players;
    scores = Maps.insert id 0 e.scores;
  }
  let told = send_to_all (accepted_player_msg id player) added
  if length told.players == told.game_params.players_count then start_gameplay told else ok told

unfoldable pub handle_join : Bytes → ℕ → Engine → Result Engine
unfolding accept_player
handle_join name i e = if e.gameplay_started then ok e else accept_player name i e

-- The beginning of the three handlers of moves: the client's robot, unless the client is no player
-- or the robot was destroyed in this turn.
unfoldable pub active_robot : ℕ → Engine → Option ℕ
active_robot i e = elim (Maps.find i e.player_ids) [
  | none ↦ none
  | some p_id ↦ if Sets.count ltb p_id e.current_players_to_destroy == 1 then none else some p_id
]

unfoldable pub drop_bomb : ℕ → Engine → Result Engine
unfolding add_event_at
drop_bomb p_id e = do
  let id = e.next_bomb_id
  position ← or_fail (Maps.find p_id e.players_positions) out_of_range
  let new_bomb : Bomb = record { position = position; timer = e.game_params.bomb_timer }
  add_event_at e.current_turn (bomb_placed id position)
      (record e { next_bomb_id = (id + 1) % 2 ^ 32; bombs = Maps.insert id new_bomb e.bombs })

unfoldable pub handle_place_bomb : ℕ → Engine → Result Engine
unfolding active_robot drop_bomb
handle_place_bomb i e = elim (active_robot i e) [ none ↦ ok e | some p_id ↦ drop_bomb p_id e ]

unfoldable pub drop_block : ℕ → Engine → Result Engine
unfolding add_event_at
drop_block p_id e = do
  position ← or_fail (Maps.find p_id e.players_positions) out_of_range
  add_event_at e.current_turn (block_placed position)
      (record e { blocks_positions = Sets.insert position_lt position e.blocks_positions })

unfoldable pub handle_place_block : ℕ → Engine → Result Engine
unfolding active_robot drop_block
handle_place_block i e = elim (active_robot i e) [ none ↦ ok e | some p_id ↦ drop_block p_id e ]

-- The `switch` on the direction. Its default leaves `new_position` unwritten.
unfoldable pub new_position : ℕ → Position → Option Position
unfolding direction_code
new_position direction p =
    if direction == direction_code Direction.up
    then some (record { x = p.x; y = (p.y + 1) % 2 ^ 16 })
    else if direction == direction_code Direction.down
    then some (record { x = p.x; y = (p.y + (2 ^ 16 - 1)) % 2 ^ 16 })
    else if direction == direction_code Direction.left
    then some (record { x = (p.x + (2 ^ 16 - 1)) % 2 ^ 16; y = p.y })
    else if direction == direction_code Direction.right
    then some (record { x = (p.x + 1) % 2 ^ 16; y = p.y })
    else none

unfoldable pub move_robot : ℕ → ℕ → Engine → Result Engine
unfolding new_position check_position_to_move add_event_at
move_robot direction p_id e = do
  position ← or_fail (Maps.find p_id e.players_positions) out_of_range
  target ← or_fail (new_position direction position) uninitialised
  if check_position_to_move target e
      then add_event_at e.current_turn (player_moved p_id target)
          (record e { players_positions = Maps.insert_or_assign p_id target e.players_positions })
      else ok e

unfoldable pub handle_move : ℕ → ℕ → Engine → Result Engine
unfolding active_robot move_robot
handle_move direction i e = elim (active_robot i e) [
  | none ↦ ok e
  | some p_id ↦ move_robot direction p_id e
]

-- The virtual `handle_msg` of the messages.
unfoldable pub execute : ClientMessage → ℕ → Engine → Result Engine
unfolding handle_join handle_place_bomb handle_place_block handle_move
execute (join name) i e = handle_join name i e
execute place_bomb i e = handle_place_bomb i e
execute place_block i e = handle_place_block i e
execute (move direction) i e = handle_move direction i e

-- The body of the `try` block, after the code is read.
unfoldable pub read_body : ℕ → Reads ClientMessage
unfolding client_message_code
read_body code =
    if code == client_message_code ClientMessageCode.join
    then Buffer.◌>>=◌ read_string (λ name. pure (join name))
    else if code == client_message_code ClientMessageCode.place_bomb_client
    then pure place_bomb
    else if code == client_message_code ClientMessageCode.place_block_client
    then pure place_block
    else if code == client_message_code ClientMessageCode.move_client
    then Buffer.◌>>=◌ read_uint8 (λ direction. pure (move direction))
    else throw

unfoldable pub read_message : Reads ClientMessage
unfolding read_uint8 read_body
read_message = Buffer.◌>>=◌ read_uint8 read_body

-- The outcome of the do-while loop: the last message, or `MsgException`.
pub data Batch : Type 0 where
  last : ClientMessage → Batch
  invalid : Bytes → Batch
  endless : Batch

-- What follows one message: `again` reads on where the buffer is not empty.
unfoldable pub read_on : (Bytes → Batch) → Option ClientMessage × Bytes → Batch
read_on again (none, rest) = invalid rest
read_on again (some msg, []) = last msg
read_on again (some msg, b ∷ rest) = again (b ∷ rest)

-- `do … while (!is_buf_empty())`, on fuel.
unfoldable pub read_batch : ℕ → Bytes → Batch
unfolding read_message read_on
read_batch zero buf = endless
read_batch (suc fuel) buf = read_on (read_batch fuel) (read_message buf)

unfoldable pub carry_out : Batch → ℕ → Engine → Result (MessageRecvStatus × Engine)
unfolding execute
carry_out (last msg) i e = do
  e' ← execute msg i (record e { tcp_handler = record (e.tcp_handler) { current_buf = [] } })
  ok (success, e')
carry_out (invalid rest) i e =
    ok (error_msg, record e { tcp_handler = record (e.tcp_handler) { current_buf = rest } })
carry_out endless i e = err out_of_fuel

-- What follows the status of `read_from`.
unfoldable pub handle_read : MessageRecvStatus → ℕ → Engine → Result (MessageRecvStatus × Engine)
unfolding read_batch carry_out
handle_read potentially_success i e =
    let buf = e.tcp_handler.current_buf in carry_out (read_batch (length buf) buf) i e
handle_read status i e = ok (status, e)

-- `handle_msg`, with what waits to be read, or `none` where `read` fails.
unfoldable pub handle_msg : Option Bytes → ℕ → Engine → Result (MessageRecvStatus × Engine)
unfolding read_from handle_read
handle_msg received i e =
    let (status, h) = read_from received e.tcp_handler in
    handle_read status i (record e { tcp_handler = h })
