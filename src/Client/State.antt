-- ===== src/Client/State.antt =====
-- game-messages.h, game-messages.cpp: `Lobby_info` and `Game_info`, what the client keeps of a
-- server and of a game. A getter is the field.
use bomberrobots.Base.{
  ℕ, ◌+◌, ◌%◌, ◌^◌, List, [], ◌∷◌, Option, none, some, Result, ok, err, or_fail, out_of_range,
  invalid_iterator, ◌>>=◌, if◌then◌else◌,
}
use bomberrobots.Containers.Maps
use bomberrobots.Containers.Maps.{Map}
use bomberrobots.Containers.Sets
use bomberrobots.Messages.{Bytes, Player, Position, position_lt, Bomb}

pub record LobbyInfo : Type 0 where
  pub server_name : Bytes
  pub players_count : ℕ
  pub size_x : ℕ
  pub size_y : ℕ
  pub game_length : ℕ
  pub explosion_radius : ℕ
  pub bomb_timer : ℕ
  pub players : Map Player

pub record GameInfo : Type 0 where
  pub server_name : Bytes
  pub size_x : ℕ
  pub size_y : ℕ
  pub game_length : ℕ
  pub bomb_timer : ℕ
  -- `none` before it is written
  pub turn : Option ℕ
  pub players : Map Player
  pub player_positions : Map Position
  pub blocks : List Position
  pub bombs : Map Bomb
  pub explosions : List Position
  pub scores : Map ℕ

unfoldable pub add_player : ℕ → Player → LobbyInfo → LobbyInfo
add_player id player l = record l { players = Maps.insert id player l.players }

abbrev pub clear_players : LobbyInfo → LobbyInfo
clear_players l = record l { players = [] }

-- The first loop of the constructor: it erases the entry that its iterator stands on, and goes on
-- from there.
unfoldable pub drop_scores : Map Player → Map ℕ → Result (Map ℕ)
drop_scores players [] = ok []
drop_scores players ((id, score) ∷ scores) =
    if Maps.contains id players
    then (drop_scores players scores >>= λ rest. ok ((id, score) ∷ rest))
    else err invalid_iterator

-- The second loop: a player without a score starts at 0.
unfoldable pub start_scores : Map Player → Map ℕ → Map ℕ
start_scores [] scores = scores
start_scores ((id, player) ∷ players) scores =
    start_scores players (if Maps.contains id scores then scores else Maps.insert id 0 scores)

-- `Game_info(…)`, which does not write `turn`.
unfoldable pub new_game : Bytes → ℕ → ℕ → ℕ → Map Player → ℕ → Map ℕ → Result GameInfo
unfolding drop_scores start_scores
new_game server_name size_x size_y game_length players bomb_timer scores = do
  kept ← drop_scores players scores
  ok (record {
    server_name = server_name;
    size_x = size_x;
    size_y = size_y;
    game_length = game_length;
    bomb_timer = bomb_timer;
    turn = none;
    players = players;
    player_positions = [];
    blocks = [];
    bombs = [];
    explosions = [];
    scores = start_scores players kept;
  })

abbrev pub new_turn : ℕ → GameInfo → GameInfo
new_turn turn g = record g { explosions = []; turn = some turn }

-- Nothing calls it.
unfoldable pub add_explosion : Position → GameInfo → GameInfo
add_explosion position g = record g { explosions = Sets.insert position_lt position g.explosions }

unfoldable pub add_bomb : ℕ → Position → GameInfo → GameInfo
add_bomb id position g = record g {
  bombs = Maps.insert id (record { position = position; timer = g.bomb_timer }) g.bombs;
}

unfoldable pub add_block : Position → GameInfo → GameInfo
add_block position g = record g { blocks = Sets.insert position_lt position g.blocks }

unfoldable pub remove_bomb : ℕ → GameInfo → GameInfo
remove_bomb id g = record g { bombs = Maps.erase id g.bombs }

unfoldable pub destroy_player : ℕ → GameInfo → Result GameInfo
destroy_player id g = do
  let positions = Maps.erase id g.player_positions
  score ← or_fail (Maps.find id g.scores) out_of_range
  ok (record g {
    player_positions = positions;
    scores = Maps.insert_or_assign id ((score + 1) % 2 ^ 32) g.scores;
  })

unfoldable pub remove_block : Position → GameInfo → GameInfo
remove_block position g = record g { blocks = Sets.erase position_lt position g.blocks }

-- `insert`: a robot that has a position keeps it.
unfoldable pub change_player_position : ℕ → Position → GameInfo → GameInfo
change_player_position id position g = record g {
  player_positions = Maps.insert id position g.player_positions;
}
