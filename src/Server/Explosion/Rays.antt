-- ===== src/Server/Explosion/Rays.antt =====
-- What an explosion is to reach, said with no loop state and no wrap-around: in each direction the
-- flames go from cell to cell up to the radius, stop at the edge of the board, and burn the first
-- block that they meet and nothing behind it.
pub mod Rounds
pub mod Unwrap
pub mod Exact
use bomberrobots.Base.{
  ℕ, zero, suc, ◌+◌, ◌-◌, Bool, true, false, not, ◌&&◌, List, [], ◌∷◌, ◌++◌, Option, none, some,
  leb, ltb, if◌then◌else◌,
}
use bomberrobots.Containers.Maps.{Map}
use bomberrobots.Containers.Sets.{insert}
use bomberrobots.Messages.{Position, position_eq}
use bomberrobots.Messages.Codes.{Direction, up, right, down, left}
use bomberrobots.Server.Engine.{ServerParameters, check_position}
use bomberrobots.Server.Explosion.{Board, Burnt, has_block, destroy_robots, destroy_block}

-- The cell at a distance, if it has natural coordinates.
unfoldable pub cell_at : Direction → Position → ℕ → Option Position
cell_at up p k = some (record { x = p.x; y = p.y + k })
cell_at down p k = if leb k p.y then some (record { x = p.x; y = p.y - k }) else none
cell_at left p k = if leb k p.x then some (record { x = p.x - k; y = p.y }) else none
cell_at right p k = some (record { x = p.x + k; y = p.y })

abbrev pub is_free : Board → Position → Bool
is_free b cell = check_position b.game_params cell && not (has_block b cell)

abbrev pub is_free_at : Board → Option Position → Bool
is_free_at b none = false
is_free_at b (some cell) = is_free b cell

-- The flames pass through all cells up to a distance.
unfoldable pub passes : Board → Position → Direction → ℕ → Bool
passes b p d zero = true
passes b p d (suc k) = passes b p d k && is_free_at b (cell_at d p (suc k))

abbrev pub if_on_board : Board → Bool → Position → List Position
if_on_board b go cell = if go && check_position b.game_params cell then cell ∷ [] else []

abbrev pub if_on_board_at : Board → Bool → Option Position → List Position
if_on_board_at b go none = []
if_on_board_at b go (some cell) = if_on_board b go cell

-- The cell at distance `k + 1`, if the flames come there.
unfoldable pub arm : Board → Position → ℕ → Direction → List Position
arm b p k d = if_on_board_at b (passes b p d k) (cell_at d p (suc k))

-- The cells that the flames reach at the distances `k + 1` to `k + n`, the nearest first.
unfoldable pub reached : Board → Position → ℕ → ℕ → List Position
reached b p k zero = []
reached b p k (suc n) =
    arm b p k down
    ++ (arm b p k up ++ (arm b p k left ++ (arm b p k right ++ reached b p (suc k) n)))

-- One cell burns: the robots on it, and a block if there is one.
unfoldable pub burn : Board → Position → Burnt → Burnt
burn b cell t =
    let t' = destroy_robots b.players_positions cell t in
    if has_block b cell then destroy_block cell t' else t'

unfoldable pub burn_all : Board → List Position → Burnt → Burnt
burn_all b [] t = t
burn_all b (cell ∷ cells) t = burn_all b cells (burn b cell t)

-- All cells that an explosion burns: the bomb's own, and those that the flames reach unless the
-- bomb lies under a block.
unfoldable pub scorched : Board → Position → List Position
scorched b p = p ∷ (if has_block b p then [] else reached b p 0 b.game_params.explosion_radius)

-- The robots that stand on a cell.
unfoldable pub standing : Map Position → Position → List ℕ
standing [] cell = []
standing ((id, pos) ∷ players) cell =
    if position_eq pos cell then id ∷ standing players cell else standing players cell

unfoldable pub standing_on : Board → List Position → List ℕ
standing_on b [] = []
standing_on b (cell ∷ cells) = standing b.players_positions cell ++ standing_on b cells

unfoldable pub blocks_among : Board → List Position → List Position
blocks_among b [] = []
blocks_among b (cell ∷ cells) =
    if has_block b cell then cell ∷ blocks_among b cells else blocks_among b cells

unfoldable pub insert_all : List ℕ → List ℕ → List ℕ
insert_all [] s = s
insert_all (id ∷ ids) s = insert_all ids (insert ltb id s)
