-- ===== src/Server/Turns.antt =====
-- game-engine.cpp: the start and the end of a game, and the start and the end of a turn.
use bomberrobots.Base.{
  ℕ, zero, suc, ◌+◌, ◌-◌, ◌%◌, ◌^◌, true, false, List, [], ◌∷◌, ◌++◌, Result, ok, err, or_fail,
  out_of_range, division_by_zero, ◌>>=◌, ◌==◌, if◌then◌else◌, get_elem?,
}
use bomberrobots.Containers.Maps
use bomberrobots.Containers.Maps.{Map}
use bomberrobots.Containers.Sets
use bomberrobots.Messages.{Player, Position, position_lt, Bomb}
use bomberrobots.Messages.Codes.{server_message_code, game_ended}
use bomberrobots.Encoding.{uint8_to_byte, score_map_to_bytes}
use bomberrobots.Events.{player_moved, block_placed, turn_to_bytes}
use bomberrobots.Server.Random.{next}
use bomberrobots.Server.Engine.{Engine, add_event_at, send_to_all, game_started_msg}
use bomberrobots.Server.Explosion.{handle_explosion}

-- `(uint16_t)(random.next() % (uint32_t) size)`: the number and the generator's new state.
unfoldable pub draw : ℕ → ℕ → Result (ℕ × ℕ)
unfolding next
draw size random =
    if size == 0 then err division_by_zero else ok (next random % size % 2 ^ 16, next random)

-- A random position, as `seed_player` and `seed_blocks` draw it.
unfoldable pub draw_position : Engine → Result (Position × Engine)
unfolding draw
draw_position e = do
  (x, r) ← draw e.game_params.size_x e.random
  (y, r') ← draw e.game_params.size_y r
  ok (record { x = x; y = y }, record e { random = r' })

unfoldable pub seed_player : ℕ → Engine → Result Engine
unfolding draw_position add_event_at
seed_player id e = do
  (position, e') ← draw_position e
  e'' ← add_event_at e'.current_turn (player_moved id position) e'
  ok (record e'' { players_positions = Maps.insert_or_assign id position e''.players_positions })

unfoldable pub seed_players : Map Player → Engine → Result Engine
unfolding seed_player
seed_players [] e = ok e
seed_players ((id, player) ∷ players) e = do e' ← seed_player id e; seed_players players e'

-- The body of the loop of `seed_blocks`.
unfoldable pub seed_block : Engine → Result Engine
unfolding draw_position add_event_at
seed_block e = do
  (position, e') ← draw_position e
  e'' ← add_event_at 0 (block_placed position) e'
  ok (record e'' { blocks_positions = Sets.insert position_lt position e''.blocks_positions })

-- The rounds of the loop that are left.
unfoldable pub seed_blocks : ℕ → Engine → Result Engine
unfolding seed_block
seed_blocks zero e = ok e
seed_blocks (suc n) e = do e' ← seed_block e; seed_blocks n e'

unfoldable pub start_gameplay : Engine → Result Engine
unfolding send_to_all game_started_msg seed_players seed_blocks
start_gameplay e = do
  let begun = record e {
    gameplay_started = true;
    turns = e.turns ++ (record { turn = 0; events = [] }) ∷ [];
  }
  let told = send_to_all (game_started_msg begun.players) begun
  seeded ← seed_players told.players told
  seed_blocks seeded.game_params.initial_blocks seeded

-- The first loop of `begin_turn`: each timer falls by one, and a bomb whose timer is then 0
-- explodes. The result has the bombs with their new timers.
unfoldable pub tick_bombs : Map Bomb → Engine → Result (Map Bomb × Engine)
unfolding handle_explosion
tick_bombs [] e = ok ([], e)
tick_bombs ((id, bomb) ∷ rest) e = do
  let ticked : Bomb = record bomb { timer = (bomb.timer + (2 ^ 16 - 1)) % 2 ^ 16 }
  e' ← if ticked.timer == 0 then handle_explosion id ticked e else ok e
  (rest', e'') ← tick_bombs rest e'
  ok ((id, ticked) ∷ rest', e'')

-- The second loop: the bombs with timer 0 go.
unfoldable pub erase_bombs : Map Bomb → Map Bomb
erase_bombs [] = []
erase_bombs ((id, bomb) ∷ rest) =
    if bomb.timer == 0 then erase_bombs rest else (id, bomb) ∷ erase_bombs rest

-- The third loop: the blocks hit go.
unfoldable pub erase_blocks : List Position → List Position → List Position
erase_blocks [] blocks = blocks
erase_blocks (pos ∷ hit) blocks = erase_blocks hit (Sets.erase position_lt pos blocks)

unfoldable pub begin_turn : Engine → Result Engine
unfolding tick_bombs erase_bombs erase_blocks
begin_turn e = do
  let turn = (e.current_turn + 1) % 2 ^ 16
  let begun = record e {
    current_turn = turn;
    turns = e.turns ++ (record { turn = turn; events = [] }) ∷ [];
  }
  (bombs, e') ← tick_bombs begun.bombs begun
  ok (record e' {
    bombs = erase_bombs bombs;
    blocks_positions = erase_blocks e'.current_blocks_to_erase e'.blocks_positions;
  })

-- The loop of `summarise_turn`: a point for each destroyed robot, and a new place.
unfoldable pub respawn : List ℕ → Engine → Result Engine
unfolding seed_player
respawn [] e = ok e
respawn (id ∷ ids) e = do
  score ← or_fail (Maps.find id e.scores) out_of_range
  let scored = record e { scores = Maps.insert_or_assign id ((score + 1) % 2 ^ 32) e.scores }
  e' ← seed_player id scored
  respawn ids e'

unfoldable pub end_gameplay : Engine → Engine
unfolding send_to_all server_message_code score_map_to_bytes
end_gameplay e =
    let told =
      send_to_all (uint8_to_byte (server_message_code game_ended) ∷ score_map_to_bytes e.scores)
        e in
    record told {
      gameplay_started = false;
      players = [];
      scores = [];
      players_positions = [];
      blocks_positions = [];
      player_ids = [];
      next_player_id = 0;
      current_turn = 0;
      turns = [];
      bombs = [];
      next_bomb_id = 0;
    }

unfoldable pub summarise_turn : Engine → Result Engine
unfolding respawn turn_to_bytes send_to_all end_gameplay
summarise_turn e = do
  e' ← respawn e.current_players_to_destroy e
  info ← or_fail (get_elem? e'.turns e'.current_turn) out_of_range
  let told = send_to_all (turn_to_bytes info) e'
  let cleared = record told { current_blocks_to_erase = []; current_players_to_destroy = [] }
  ok (
      if cleared.current_turn == cleared.game_params.game_length
      then end_gameplay cleared
      else cleared)
