-- ===== src/Tests/Blasts.antt =====
-- Explosions on the small board.
use bomberrobots.Base.{◌-◌, ◌^◌, ◌≡◌, refl, [], ◌∷◌, ok, err, out_of_fuel, arith}
use bomberrobots.Containers.Sets.{insert}
use bomberrobots.Messages.{position_lt}
use bomberrobots.Server.Engine.{check_position}
use bomberrobots.Server.Explosion.{
  Board, Burnt, board, unburnt, ignite, destroy_robots, destroy_block, has_block, reach, reach_down,
  reach_up, reach_left, reach_right, blast_round, blast_loop, blast,
}
use bomberrobots.Server.Explosion.Rays.{
  passes, cell_at, arm, reached, scorched, standing, standing_on, blocks_among, insert_all,
}
use bomberrobots.Server.Explosion.Rays.Exact.{blast_exact}
use bomberrobots.Server.Explosion.Safe.{blast_loop_endless}
use bomberrobots.Tests.Samples.{at, small, duel}

-- The bomb between the robots hits both, and the block beside it burns. The comparator takes the
-- field (3, 1) for the one with the block, so that the program sees a second block burn there.
abbrev burnt_duel : Burnt
burnt_duel = record {
  robots_destroyed = 0 ∷ 1 ∷ [];
  blocks_destroyed = at 2 2 ∷ at 3 1 ∷ [];
  current_players_to_destroy = 0 ∷ 1 ∷ [];
  current_blocks_to_erase = at 2 2 ∷ at 3 1 ∷ [];
}

blast_run : blast (board duel) (at 2 1) (unburnt duel) ≡ ok burnt_duel
unfolding blast blast_loop blast_round reach_down reach_up reach_left reach_right reach
    check_position destroy_robots destroy_block has_block position_lt
blast_run = refl

blast_exact_example : blast (board duel) (at 2 1) (unburnt duel) ≡ ok burnt_duel
unfolding passes cell_at arm reached scorched standing standing_on blocks_among insert_all has_block
    check_position position_lt insert
blast_exact_example =
    blast_exact (board duel) (at 2 1) (unburnt duel) (omega arith) (omega arith) (omega arith)
      (omega arith) (omega arith)

abbrev wide_blast : Board
wide_blast = record (board duel) { game_params = record small { explosion_radius = 2 ^ 16 - 1 } }

blast_loop_endless_example :
    blast_loop 1_000_000 wide_blast (at 2 1) 1 (ignite (unburnt duel)) ≡ err out_of_fuel
blast_loop_endless_example =
    blast_loop_endless 1_000_000 wide_blast (at 2 1) 1 (ignite (unburnt duel)) refl (omega arith)
