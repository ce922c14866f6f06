-- ===== src/Server/Invariant.antt =====
-- What holds of the game engine between its steps: in the lobby, and while a game is played.
pub mod Seeding
pub mod Ticks
pub mod Respawns
pub mod Turns
pub mod Robots
pub mod Handlers
pub mod Serving
pub mod Waiting
pub mod Log
pub mod Bombs
pub mod Replay
pub mod Scores
pub mod Rounds
use bomberrobots.Base.{
  ℕ, ◌+◌, ◌-◌, ◌^◌, ◌≤◌, ◌<◌, ◌≡◌, ◌⊎◌, Bool, true, false, List, [], ◌∷◌, length, All,
}
use bomberrobots.Containers.Maps.{Map, contains}
use bomberrobots.Messages.{Player, Position}
use bomberrobots.Server.Connections.Table.{Addressed}
use bomberrobots.Server.Engine.{ServerParameters, Engine}

-- Parameters with which the server can play: the types of the fields bound them, a board has
-- cells, and the radius is not the largest number of its type.
pub record IsPlayable (params : ServerParameters) : Type 0 where
  pub size_x_pos : 0 < params.size_x
  pub size_x_lt : params.size_x < 2 ^ 16
  pub size_y_pos : 0 < params.size_y
  pub size_y_lt : params.size_y < 2 ^ 16
  pub radius_lt : params.explosion_radius < 2 ^ 16 - 1
  pub game_length_lt : params.game_length < 2 ^ 16

abbrev pub OnBoard : ServerParameters → Position → Type 0
OnBoard params pos = (pos.x < params.size_x) × (pos.y < params.size_y)

-- A key of a map.
abbrev pub IsKey {ℓ} : {V : Type ℓ} → Map V → ℕ → Type 0
IsKey m id = contains id m ≡ true

-- What holds at all times: each client has an address, robots and blocks are on the board, robots and clients' ids belong to
-- players, players have scores, and robots hit in this turn belong to players.
pub record Consistent (e : Engine) : Type 0 where
  pub playable : IsPlayable e.game_params
  pub addressed : Addressed e.tcp_handler
  pub robots : All (λ r. IsKey e.players r.0 × OnBoard e.game_params r.1) e.players_positions
  pub blocks : All (λ pos. OnBoard e.game_params pos) e.blocks_positions
  pub ids : All (λ c. IsKey e.players c.1) e.player_ids
  pub scored : (id : ℕ) → IsKey e.players id → IsKey e.scores id
  pub doomed : All (λ id. IsKey e.players id) e.current_players_to_destroy

-- A game is played: there is a record of each turn up to the current one, and each player has a
-- robot on the board.
pub record Playing (e : Engine) : Type 0 where
  pub consistent : Consistent e
  pub started : e.gameplay_started ≡ true
  pub history : length e.turns ≡ e.current_turn + 1
  pub turn_le : e.current_turn ≤ e.game_params.game_length
  pub placed : (id : ℕ) → IsKey e.players id → IsKey e.players_positions id

-- Players are gathered: nothing of a game is left.
pub record Lobby (e : Engine) : Type 0 where
  pub consistent : Consistent e
  pub waiting : e.gameplay_started ≡ false
  pub no_turns : e.turns ≡ []
  pub turn_zero : e.current_turn ≡ 0
  pub no_robots : e.players_positions ≡ []
  pub no_bombs : e.bombs ≡ []
  pub none_doomed : e.current_players_to_destroy ≡ []

-- Between two rounds the engine is in the lobby, or in a game with turns left.
abbrev pub Between : Engine → Type 0
Between e = Lobby e ⊎ (Playing e × (e.current_turn < e.game_params.game_length))
