-- ===== src/Server/Explosion/Rays/Exact.antt =====
-- `handle_explosion` burns the cells of the specification, each once and in its order.
use bomberrobots.Base.{
  ℕ, zero, suc, ◌+◌, ◌-◌, ◌^◌, ◌<◌, ◌≡◌, refl, ap, ◌∙◌, true, false, inl, inr, List, [], ◌∷◌, ◌++◌,
  append-nil, append_assoc, ok, arith, Bool-cases,
}
use bomberrobots.Containers.Maps.{Map}
use bomberrobots.Messages.{Position, position_eq}
use bomberrobots.Messages.Codes.{up, right, down, left}
use bomberrobots.Server.Explosion.{
  Board, Burnt, Blast, destroy_robots, destroy_block, has_block, blast_round, blast_loop, blast,
}
use bomberrobots.Server.Explosion.Rays.{
  passes, arm, reached, burn, burn_all, scorched, standing, standing_on, blocks_among, insert_all,
}
use bomberrobots.Server.Explosion.Rays.Rounds.{burn_all-append, blast_round_lem}
use bomberrobots.Server.Explosion.Rays.Unwrap.{arm_unwrap, passes_unwrap}

-- The loop's state when the flames have come to distance `k`.
abbrev front : Board → Position → ℕ → Burnt → Blast
front b p k t = record {
  burnt = t;
  go_up = passes b p up k;
  go_down = passes b p down k;
  go_left = passes b p left k;
  go_right = passes b p right k;
}

burn_four :
    (b : Board) (ws xs ys zs rest : List Position) (t : Burnt)
    → burn_all b (ws ++ (xs ++ (ys ++ (zs ++ rest)))) t
      ≡ burn_all b rest (burn_all b (ws ++ (xs ++ (ys ++ zs))) t)
burn_four b ws xs ys zs rest t = simp burn_all-append

module _ (b : Board) (p : Position) (narrow : b.game_params.size_x < 2 ^ 16)
    (low : b.game_params.size_y < 2 ^ 16) (on_x : p.x < b.game_params.size_x)
    (on_y : p.y < b.game_params.size_y) where
  round-front :
      (k : ℕ) (t : Burnt)
      → blast_round b p (suc k) (front b p k t)
        ≡ front b p
            (suc k)
            (burn_all b (arm b p k down ++ (arm b p k up ++ (arm b p k left ++ arm b p k right))) t)
  round-front k t =
      blast_round_lem b p (suc k) (front b p k t)
      ∙ rw (
        arm_unwrap b p narrow low on_x on_y down k,
        arm_unwrap b p narrow low on_x on_y up k,
        arm_unwrap b p narrow low on_x on_y left k,
        arm_unwrap b p narrow low on_x on_y right k,
        passes_unwrap b p narrow low on_x on_y down k,
        passes_unwrap b p narrow low on_x on_y up k,
        passes_unwrap b p narrow low on_x on_y left k,
        passes_unwrap b p narrow low on_x on_y right k,
      )

  loop-reached :
      (fuel k n : ℕ) (t : Burnt)
      → b.game_params.explosion_radius < 2 ^ 16 - 1
      → k + n ≡ b.game_params.explosion_radius
      → n < fuel
      → blast_loop fuel b p (suc k) (front b p k t) ≡ ok (burn_all b (reached b p k n) t)
  unfolding blast_loop reached
  loop-reached zero k n t r e f = absurd (omega arith)
  loop-reached (suc fuel) k zero t r e f = unfold burn_all in ground arith
  loop-reached (suc fuel) k (suc n) t r e f = ground (
    arith,
    round-front k t,
    loop-reached fuel (suc k) n
        (burn_all b (arm b p k down ++ (arm b p k up ++ (arm b p k left ++ arm b p k right))) t) r
        (omega arith) (omega arith),
    burn_four b (arm b p k down) (arm b p k up) (arm b p k left) (arm b p k right)
        (reached b p (suc k) n) t,
  )

  pub blast_lem :
      (t : Burnt)
      → b.game_params.explosion_radius < 2 ^ 16 - 1
      → blast b p t ≡ ok (burn_all b (scorched b p) t)
  unfolding blast scorched burn_all burn passes
  blast_lem t r = ground (
    arith,
    loop-reached (suc b.game_params.explosion_radius) 0 b.game_params.explosion_radius
        (destroy_robots b.players_positions p t) r (omega arith) (omega arith),
  )

destroy_robots_lem :
    (players : Map Position) (cell : Position) (t : Burnt)
    → destroy_robots players cell t ≡ record t {
      robots_destroyed = t.robots_destroyed ++ standing players cell;
      current_players_to_destroy = insert_all (standing players cell) t.current_players_to_destroy;
    }
unfolding destroy_robots standing insert_all
destroy_robots_lem [] cell t = rw append-nil
destroy_robots_lem ((id, pos) ∷ players) cell t = elim (Bool-cases (position_eq pos cell)) [
  | inl e ↦
      rw (e, destroy_robots)
        (rw (destroy_robots_lem players cell)
          (ground (arith, append_assoc t.robots_destroyed (id ∷ []) (standing players cell))))
  | inr e ↦ rw (e, destroy_robots) (rw (destroy_robots_lem players cell) (ground arith))
]

insert_all-append : (xs ys s : List ℕ) → insert_all (xs ++ ys) s ≡ insert_all ys (insert_all xs s)
unfolding insert_all
insert_all-append [] ys s = refl
insert_all-append (x ∷ xs) ys s = insert_all-append xs ys _

burn_block :
    (b : Board) (cell : Position) (t : Burnt)
    → has_block b cell ≡ true
    → burn b cell t ≡ destroy_block cell (destroy_robots b.players_positions cell t)
unfolding burn
burn_block b cell t e = rw e

burn_bare :
    (b : Board) (cell : Position) (t : Burnt)
    → has_block b cell ≡ false
    → burn b cell t ≡ destroy_robots b.players_positions cell t
unfolding burn
burn_bare b cell t e = rw e

-- What a list of burning cells adds to the record of the explosion.
pub burn_all_lem :
    (b : Board) (cells : List Position) (t : Burnt)
    → burn_all b cells t ≡ record {
      robots_destroyed = t.robots_destroyed ++ standing_on b cells;
      blocks_destroyed = t.blocks_destroyed ++ blocks_among b cells;
      current_players_to_destroy = insert_all (standing_on b cells) t.current_players_to_destroy;
      current_blocks_to_erase = t.current_blocks_to_erase ++ blocks_among b cells;
    }
unfolding burn_all standing_on blocks_among insert_all
burn_all_lem b [] t = simp append-nil
burn_all_lem b (cell ∷ cells) t = elim (Bool-cases (has_block b cell)) [
  | inl e ↦ rw (burn_all_lem b cells (burn b cell t)) (
      simp (burn_block b cell t e, destroy_robots_lem, insert_all-append, append_assoc)
        (unfold destroy_block blocks_among in rw e (simp append_assoc)))
  | inr e ↦
      rw (burn_all_lem b cells (burn b cell t))
        (simp (burn_bare b cell t e, destroy_robots_lem, insert_all-append, append_assoc) (rw e))
]

-- With a radius below 65535 the explosion of a bomb on the board ends, and destroys the robots and the blocks on the cells
-- that the flames reach on the grid, each as often as there are such cells, and no others.
pub blast_exact :
    (b : Board) (p : Position) (t : Burnt)
    → b.game_params.size_x < 2 ^ 16
    → b.game_params.size_y < 2 ^ 16
    → p.x < b.game_params.size_x
    → p.y < b.game_params.size_y
    → b.game_params.explosion_radius < 2 ^ 16 - 1
    → blast b p t
      ≡ ok (record {
        robots_destroyed = t.robots_destroyed ++ standing_on b (scorched b p);
        blocks_destroyed = t.blocks_destroyed ++ blocks_among b (scorched b p);
        current_players_to_destroy =
            insert_all (standing_on b (scorched b p)) t.current_players_to_destroy;
        current_blocks_to_erase = t.current_blocks_to_erase ++ blocks_among b (scorched b p);
      })
blast_exact b p t narrow low on_x on_y r =
    blast_lem b p narrow low on_x on_y t r ∙ ap ok (burn_all_lem b (scorched b p) t)
