-- ===== src/Client/Reading.antt =====
-- robots-client.cpp: the containers and the events that the server sends. A reader of an event
-- carries the `game_info` that it changes.
pub mod Spec
pub mod Tables
pub mod Follows
use bomberrobots.Base.{ℕ, List, [], ◌∷◌, Result, ok, err, exited, each, ltb, ◌==◌, if◌then◌else◌}
use bomberrobots.Containers.Maps
use bomberrobots.Containers.Maps.{Map}
use bomberrobots.Containers.Sets
use bomberrobots.Messages.{Player, Position, position_lt}
use bomberrobots.Messages.Codes.{event_code, EventCode}
use bomberrobots.Client.Stream.{
  Reader, pure, ◌>>=◌, lift, read_uint8, read_uint32, read_player, read_position, repeat,
}
use bomberrobots.Client.State.{
  GameInfo, add_bomb, add_block, remove_bomb, destroy_player, remove_block, change_player_position,
}

-- The body of the loop of `read_players_map`.
unfoldable pub read_players_entry : Map Player → Reader (Map Player)
unfolding read_uint8 read_player
read_players_entry players = do
  key ← read_uint8
  value ← read_player
  pure (Maps.insert key value players)

unfoldable pub read_players_map : Reader (Map Player)
unfolding read_uint32 repeat read_players_entry
read_players_map = do map_size ← read_uint32; repeat map_size read_players_entry []

-- The body of the loop of `read_scores_map`.
unfoldable pub read_scores_entry : Map ℕ → Reader (Map ℕ)
unfolding read_uint8 read_uint32
read_scores_entry scores = do
  key ← read_uint8
  value ← read_uint32
  pure (Maps.insert key value scores)

unfoldable pub read_scores_map : Reader (Map ℕ)
unfolding read_uint32 repeat read_scores_entry
read_scores_map = do map_size ← read_uint32; repeat map_size read_scores_entry []

-- The body of the loop of `read_player_id_list`.
unfoldable pub read_player_id : List ℕ → Reader (List ℕ)
unfolding read_uint8
read_player_id player_ids = do id ← read_uint8; pure (Sets.insert ltb id player_ids)

unfoldable pub read_player_id_list : Reader (List ℕ)
unfolding read_uint32 repeat read_player_id
read_player_id_list = do list_size ← read_uint32; repeat list_size read_player_id []

-- The body of the loop of `read_position_list`.
unfoldable pub read_listed_position : List Position → Reader (List Position)
unfolding read_position
read_listed_position positions = do
  position ← read_position
  pure (Sets.insert position_lt position positions)

unfoldable pub read_position_list : Reader (List Position)
unfolding read_uint32 repeat read_listed_position
read_position_list = do list_size ← read_uint32; repeat list_size read_listed_position []

unfoldable pub read_bomb_placed : GameInfo → Reader GameInfo
unfolding read_uint32 read_position
read_bomb_placed g = do id ← read_uint32; position ← read_position; pure (add_bomb id position g)

-- The loop over the blocks destroyed.
unfoldable pub remove_blocks : List Position → GameInfo → GameInfo
remove_blocks [] g = g
remove_blocks (block ∷ blocks) g = remove_blocks blocks (remove_block block g)

unfoldable pub read_bomb_exploded : GameInfo → Reader GameInfo
unfolding read_uint32 read_player_id_list read_position_list remove_blocks
read_bomb_exploded g = do
  id ← read_uint32
  robots_destroyed ← read_player_id_list
  g' ← lift (each destroy_player robots_destroyed (remove_bomb id g))
  blocks_destroyed ← read_position_list
  pure (remove_blocks blocks_destroyed g')

unfoldable pub read_player_moved : GameInfo → Reader GameInfo
unfolding read_uint8 read_position
read_player_moved g = do
  id ← read_uint8
  position ← read_position
  pure (change_player_position id position g)

unfoldable pub read_block_placed : GameInfo → Reader GameInfo
unfolding read_position
read_block_placed g = do position ← read_position; pure (add_block position g)

-- The `switch` on the code of an event.
unfoldable pub read_event_body : ℕ → GameInfo → Reader GameInfo
unfolding event_code read_bomb_placed read_bomb_exploded read_player_moved read_block_placed
read_event_body code g =
    if code == event_code EventCode.bomb_placed
    then read_bomb_placed g
    else if code == event_code EventCode.bomb_exploded
    then read_bomb_exploded g
    else if code == event_code EventCode.player_moved
    then read_player_moved g
    else if code == event_code EventCode.block_placed
    then read_block_placed g
    else lift (err exited)

unfoldable pub read_event : GameInfo → Reader GameInfo
unfolding read_uint8 read_event_body
read_event g = do code ← read_uint8; read_event_body code g

unfoldable pub read_event_list : GameInfo → Reader GameInfo
unfolding read_uint32 repeat read_event
read_event_list g = do list_size ← read_uint32; repeat list_size read_event g
