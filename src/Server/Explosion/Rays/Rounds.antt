-- ===== src/Server/Explosion/Rays/Rounds.antt =====
-- One round of the loop of `handle_explosion` burns the cells that it reaches, and the flags say
-- afterwards which arms go on.
use bomberrobots.Base.{ℕ, ◌≡◌, refl, ◌&&◌, List, [], ◌∷◌, ◌++◌, arith}
use bomberrobots.Messages.{Position}
use bomberrobots.Server.Explosion.{
  Board, Burnt, Blast, reach, reach_down, reach_up, reach_left, reach_right, blast_round, up_of,
  down_of, left_of, right_of,
}
use bomberrobots.Server.Explosion.Rays.{burn, burn_all, is_free, if_on_board}

pub burn_all-append :
    (b : Board) (xs ys : List Position) (t : Burnt)
    → burn_all b (xs ++ ys) t ≡ burn_all b ys (burn_all b xs t)
unfolding burn_all
burn_all-append b [] ys t = refl
burn_all-append b (x ∷ xs) ys t = burn_all-append b xs ys (burn b x t)

module _ (b : Board) (cell : Position) (s : Blast) where
  reach_down_lem : reach_down b cell s ≡ record s {
    burnt = burn_all b (if_on_board b s.go_down cell) s.burnt;
    go_down = s.go_down && is_free b cell;
  }
  unfolding reach_down reach burn_all burn
  reach_down_lem = ground arith

  reach_up_lem : reach_up b cell s ≡ record s {
    burnt = burn_all b (if_on_board b s.go_up cell) s.burnt;
    go_up = s.go_up && is_free b cell;
  }
  unfolding reach_up reach burn_all burn
  reach_up_lem = ground arith

  reach_left_lem : reach_left b cell s ≡ record s {
    burnt = burn_all b (if_on_board b s.go_left cell) s.burnt;
    go_left = s.go_left && is_free b cell;
  }
  unfolding reach_left reach burn_all burn
  reach_left_lem = ground arith

  reach_right_lem : reach_right b cell s ≡ record s {
    burnt = burn_all b (if_on_board b s.go_right cell) s.burnt;
    go_right = s.go_right && is_free b cell;
  }
  unfolding reach_right reach burn_all burn
  reach_right_lem = ground arith

pub blast_round_lem :
    (b : Board) (p : Position) (i : ℕ) (s : Blast)
    → blast_round b p i s ≡ record {
      burnt =
          burn_all b
            (if_on_board b s.go_down (down_of p i)
              ++ (if_on_board b s.go_up (up_of p i)
                  ++ (if_on_board b s.go_left (left_of p i)
                      ++ if_on_board b s.go_right (right_of p i))))
            s.burnt;
      go_up = s.go_up && is_free b (up_of p i);
      go_down = s.go_down && is_free b (down_of p i);
      go_left = s.go_left && is_free b (left_of p i);
      go_right = s.go_right && is_free b (right_of p i);
    }
unfolding blast_round
blast_round_lem b p i s =
    simp (reach_down_lem, reach_up_lem, reach_left_lem, reach_right_lem, burn_all-append)
