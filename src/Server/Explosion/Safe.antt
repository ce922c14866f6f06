-- ===== src/Server/Explosion/Safe.antt =====
-- The loop of `handle_explosion` ends, and the robots that it marks stand on the board.
use bomberrobots.Base.{
  ℕ, zero, suc, ◌+◌, ◌-◌, ◌%◌, ◌^◌, ◌≤◌, ◌<◌, ◌≡◌, refl, inl, inr, [], ◌∷◌, err, Returns,
  out_of_fuel, arith, ltb, leb, Bool-cases, All, All-append,
}
use bomberrobots.Containers.Maps.{Map}
use bomberrobots.Containers.Sets.{All-insert}
use bomberrobots.Messages.{Position, position_eq}
use bomberrobots.Server.Explosion.{
  Board, Burnt, Blast, destroy_robots, destroy_block, has_block, reach, reach_down, reach_up,
  reach_left, reach_right, blast_round, blast_loop, blast,
}

module _ (P : ℕ → Type 0) where
  -- All robots marked so far, in this explosion or before, satisfy `P`.
  abbrev pub Marked : Burnt → Type 0
  Marked t = All P t.current_players_to_destroy × All P t.robots_destroyed

  destroy_robots-Marked :
      (players : Map Position) (cell : Position) (s : Burnt)
      → All (λ r. P r.0) players
      → Marked s
      → Marked (destroy_robots players cell s)
  unfolding destroy_robots
  destroy_robots-Marked [] cell s a m = m
  destroy_robots-Marked ((id, pos) ∷ players) cell s a m =
      elim (Bool-cases (position_eq pos cell)) [
        | inl e ↦
            rw (e, destroy_robots)
              (destroy_robots-Marked players cell _ a.1 (
                All-insert ltb P id _ a.0 m.0,
                All-append P s.robots_destroyed (id ∷ []) m.1 (a.0, tt),
              ))
        | inr e ↦ rw (e, destroy_robots) (destroy_robots-Marked players cell s a.1 m)
      ]

  module _ (b : Board) (known : All (λ r. P r.0) b.players_positions) where
    reach-Marked : (cell : Position) (s : Burnt) → Marked s → Marked (reach b cell s).0
    unfolding reach destroy_block
    reach-Marked cell s m = ground (arith, destroy_robots-Marked b.players_positions cell s known m)

    reach_down-Marked :
        (cell : Position) (s : Blast) → Marked s.burnt → Marked (reach_down b cell s).burnt
    unfolding reach_down
    reach_down-Marked cell s m = ground (arith, reach-Marked cell s.burnt m)

    reach_up-Marked :
        (cell : Position) (s : Blast) → Marked s.burnt → Marked (reach_up b cell s).burnt
    unfolding reach_up
    reach_up-Marked cell s m = ground (arith, reach-Marked cell s.burnt m)

    reach_left-Marked :
        (cell : Position) (s : Blast) → Marked s.burnt → Marked (reach_left b cell s).burnt
    unfolding reach_left
    reach_left-Marked cell s m = ground (arith, reach-Marked cell s.burnt m)

    reach_right-Marked :
        (cell : Position) (s : Blast) → Marked s.burnt → Marked (reach_right b cell s).burnt
    unfolding reach_right
    reach_right-Marked cell s m = ground (arith, reach-Marked cell s.burnt m)

    blast_round-Marked :
        (p : Position) (i : ℕ) (s : Blast) → Marked s.burnt → Marked (blast_round b p i s).burnt
    unfolding blast_round
    blast_round-Marked p i s m =
        reach_right-Marked _ _
          (reach_left-Marked _ _ (reach_up-Marked _ _ (reach_down-Marked _ _ m)))

    -- The loop ends in as many rounds as the radius has, unless the radius is the largest
    -- `uint16_t`.
    blast_loop-Marked :
        (fuel : ℕ) (p : Position) (i : ℕ) (s : Blast)
        → b.game_params.explosion_radius < 2 ^ 16 - 1
        → i ≤ b.game_params.explosion_radius + 1
        → b.game_params.explosion_radius + 2 ≤ fuel + i
        → Marked s.burnt
        → Returns Marked (blast_loop fuel b p i s)
    unfolding blast_loop
    blast_loop-Marked zero p i s r l f m = absurd (omega arith)
    blast_loop-Marked (suc fuel) p i s r l f m =
        elim (Bool-cases (leb i b.game_params.explosion_radius)) [
          | inl e ↦
              rw (e, blast_loop)
                (blast_loop-Marked fuel p ((i + 1) % 2 ^ 16) (blast_round b p i s) r (ground arith)
                  (ground arith) (blast_round-Marked p i s m))
          | inr e ↦ rw (e, blast_loop) m
        ]

    pub blast-Marked :
        (p : Position) (s : Burnt)
        → b.game_params.explosion_radius < 2 ^ 16 - 1
        → Marked s
        → Returns Marked (blast b p s)
    unfolding blast destroy_block
    blast-Marked p s r m = elim (Bool-cases (has_block b p)) [
      | inl e ↦ rw (e, blast) (destroy_robots-Marked b.players_positions p s known m)
      | inr e ↦
          rw (e, blast)
            (blast_loop-Marked (suc b.game_params.explosion_radius) p 1 _ r (omega arith)
              (omega arith) (destroy_robots-Marked b.players_positions p s known m))
    ]

-- With radius 65535 the loop never ends: whatever the fuel, it runs out.
pub blast_loop_endless :
    (fuel : ℕ) (b : Board) (p : Position) (i : ℕ) (s : Blast)
    → b.game_params.explosion_radius ≡ 2 ^ 16 - 1
    → i < 2 ^ 16
    → blast_loop fuel b p i s ≡ err out_of_fuel
unfolding blast_loop
blast_loop_endless zero b p i s r l = refl
blast_loop_endless (suc fuel) b p i s r l =
    ground
      (arith, blast_loop_endless fuel b p ((i + 1) % 2 ^ 16) (blast_round b p i s) r (omega arith))
