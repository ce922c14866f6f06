-- ===== src/Server/Explosion.antt =====
-- game-engine.cpp: `handle_explosion`. The board is read only meanwhile; what the loop writes is a
-- record of its own. A coordinate is a `uint16_t`, so each sum and difference wraps.
pub mod Safe
pub mod Rays
use bomberrobots.Base.{
  ℕ, zero, suc, ◌+◌, ◌-◌, ◌%◌, ◌^◌, Bool, true, false, List, [], ◌∷◌, ◌++◌, Result, ok, err,
  out_of_fuel, ◌>>=◌, leb, ltb, ◌==◌, if◌then◌else◌,
}
use bomberrobots.Containers.Maps.{Map}
use bomberrobots.Containers.Sets.{insert, count}
use bomberrobots.Messages.{Position, position_lt, position_eq, Bomb}
use bomberrobots.Events.{bomb_exploded}
use bomberrobots.Server.Engine.{ServerParameters, Engine, check_position, add_event_at}

-- What the explosion reads.
pub record Board : Type 0 where
  pub game_params : ServerParameters
  pub players_positions : Map Position
  pub blocks_positions : List Position

-- What it writes outside the loop.
pub record Burnt : Type 0 where
  pub robots_destroyed : List ℕ
  pub blocks_destroyed : List Position
  pub current_players_to_destroy : List ℕ
  pub current_blocks_to_erase : List Position

-- The state of the loop over the distance.
pub record Blast : Type 0 where
  pub burnt : Burnt
  pub go_up : Bool
  pub go_down : Bool
  pub go_left : Bool
  pub go_right : Bool

-- The loop over the players: those that stand on a cell are destroyed.
unfoldable pub destroy_robots : Map Position → Position → Burnt → Burnt
unfolding insert
destroy_robots [] cell t = t
destroy_robots ((id, pos) ∷ players) cell t = destroy_robots players cell (
    if position_eq pos cell
    then record t {
      robots_destroyed = t.robots_destroyed ++ id ∷ [];
      current_players_to_destroy = insert ltb id t.current_players_to_destroy;
    }
    else t)

unfoldable pub destroy_block : Position → Burnt → Burnt
destroy_block cell t = record t {
  blocks_destroyed = t.blocks_destroyed ++ cell ∷ [];
  current_blocks_to_erase = t.current_blocks_to_erase ++ cell ∷ [];
}

unfoldable pub has_block : Board → Position → Bool
unfolding count
has_block b cell = count position_lt cell b.blocks_positions == 1

-- The body under `if (go_…)`: the flames reach a cell. The flag says whether they go on.
unfoldable pub reach : Board → Position → Burnt → Burnt × Bool
reach b cell t =
    if check_position b.game_params cell
    then (let t' = destroy_robots b.players_positions cell t in
        if has_block b cell then (destroy_block cell t', false) else (t', true))
    else (t, false)

-- The four neighbours at distance `i`, as the code computes them.
abbrev pub down_of : Position → ℕ → Position
down_of p i = record { x = p.x; y = (p.y + 2 ^ 16 - i) % 2 ^ 16 }

abbrev pub up_of : Position → ℕ → Position
up_of p i = record { x = p.x; y = (p.y + i) % 2 ^ 16 }

abbrev pub left_of : Position → ℕ → Position
left_of p i = record { x = (p.x + 2 ^ 16 - i) % 2 ^ 16; y = p.y }

abbrev pub right_of : Position → ℕ → Position
right_of p i = record { x = (p.x + i) % 2 ^ 16; y = p.y }

unfoldable pub reach_down : Board → Position → Blast → Blast
reach_down b cell s =
    if s.go_down
    then (let (t, go) = reach b cell s.burnt in record s { burnt = t; go_down = go })
    else s

unfoldable pub reach_up : Board → Position → Blast → Blast
reach_up b cell s =
    if s.go_up
    then (let (t, go) = reach b cell s.burnt in record s { burnt = t; go_up = go })
    else s

unfoldable pub reach_left : Board → Position → Blast → Blast
reach_left b cell s =
    if s.go_left
    then (let (t, go) = reach b cell s.burnt in record s { burnt = t; go_left = go })
    else s

unfoldable pub reach_right : Board → Position → Blast → Blast
reach_right b cell s =
    if s.go_right
    then (let (t, go) = reach b cell s.burnt in record s { burnt = t; go_right = go })
    else s

-- The body of the loop over the distance.
unfoldable pub blast_round : Board → Position → ℕ → Blast → Blast
blast_round b p i s =
    reach_right b (right_of p i)
      (reach_left b (left_of p i) (reach_up b (up_of p i) (reach_down b (down_of p i) s)))

-- `for (uint16_t i = …; i <= explosion_radius; i++)`, on fuel.
unfoldable pub blast_loop : ℕ → Board → Position → ℕ → Blast → Result Burnt
blast_loop zero b p i s = err out_of_fuel
blast_loop (suc fuel) b p i s =
    let rest = blast_loop fuel b p ((i + 1) % 2 ^ 16) (blast_round b p i s) in
    if leb i b.game_params.explosion_radius then rest else ok s.burnt

abbrev pub ignite : Burnt → Blast
ignite t = record { burnt = t; go_up = true; go_down = true; go_left = true; go_right = true }

-- The whole explosion: a block over the bomb takes it all.
unfoldable pub blast : Board → Position → Burnt → Result Burnt
blast b p t =
    let t' = destroy_robots b.players_positions p t in
    let spread = blast_loop (suc b.game_params.explosion_radius) b p 1 (ignite t') in
    if has_block b p then ok (destroy_block p t') else spread

abbrev pub board : Engine → Board
board e = record {
  game_params = e.game_params;
  players_positions = e.players_positions;
  blocks_positions = e.blocks_positions;
}

abbrev pub unburnt : Engine → Burnt
unburnt e = record {
  robots_destroyed = [];
  blocks_destroyed = [];
  current_players_to_destroy = e.current_players_to_destroy;
  current_blocks_to_erase = e.current_blocks_to_erase;
}

unfoldable pub handle_explosion : ℕ → Bomb → Engine → Result Engine
handle_explosion id bomb e = do
  t ← blast (board e) bomb.position (unburnt e)
  add_event_at e.current_turn (bomb_exploded id t.robots_destroyed t.blocks_destroyed) (record e {
    current_players_to_destroy = t.current_players_to_destroy;
    current_blocks_to_erase = t.current_blocks_to_erase;
  })
