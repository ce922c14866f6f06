-- ===== src/Server/Explosion/Rays/Unwrap.antt =====
-- The sums and differences modulo 2 ^ 16 make no difference to an explosion: an arm stops at the
-- edge of the board before they wrap, or where they first do.
use bomberrobots.Base.{
  ℕ, zero, suc, ◌+◌, ◌^◌, ◌≤◌, ◌<◌, ◌≡◌, true, false, ◌&&◌, inl, inr, arith, Bool-cases,
}
use bomberrobots.Messages.{Position}
use bomberrobots.Messages.Codes.{Direction, up, right, down, left}
use bomberrobots.Server.Engine.{check_position}
use bomberrobots.Server.Explosion.{Board, up_of, down_of, left_of, right_of}
use bomberrobots.Server.Explosion.Rays.{
  passes, cell_at, is_free, is_free_at, if_on_board, if_on_board_at, arm,
}

abbrev pub wrapped : Direction → Position → ℕ → Position
wrapped up = up_of
wrapped down = down_of
wrapped left = left_of
wrapped right = right_of

module _ (b : Board) (p : Position) (narrow : b.game_params.size_x < 2 ^ 16)
    (low : b.game_params.size_y < 2 ^ 16) (on_x : p.x < b.game_params.size_x)
    (on_y : p.y < b.game_params.size_y) where
  passes_up : (k : ℕ) → passes b p up k ≡ true → p.y + k < b.game_params.size_y
  unfolding passes cell_at check_position
  passes_up zero h = omega arith
  passes_up (suc k) h = ground arith

  passes_right : (k : ℕ) → passes b p right k ≡ true → p.x + k < b.game_params.size_x
  unfolding passes cell_at check_position
  passes_right zero h = omega arith
  passes_right (suc k) h = ground arith

  passes_down : (k : ℕ) → passes b p down k ≡ true → k ≤ p.y
  unfolding passes cell_at
  passes_down zero h = omega arith
  passes_down (suc k) h = ground arith

  passes_left : (k : ℕ) → passes b p left k ≡ true → k ≤ p.x
  unfolding passes cell_at
  passes_left zero h = omega arith
  passes_left (suc k) h = ground arith

  -- Where the flames have come so far, the next cell is the wrapped one, or both are off the board.
  unwrap_board :
      (d : Direction) (k : ℕ)
      → passes b p d k ≡ true
      → if_on_board b true (wrapped d p (suc k)) ≡ if_on_board_at b true (cell_at d p (suc k))
  unfolding cell_at check_position
  unwrap_board up k h = ground (arith, passes_up k h)
  unwrap_board right k h = ground (arith, passes_right k h)
  unwrap_board down k h = ground (arith, passes_down k h)
  unwrap_board left k h = ground (arith, passes_left k h)

  unwrap_free :
      (d : Direction) (k : ℕ)
      → passes b p d k ≡ true
      → is_free b (wrapped d p (suc k)) ≡ is_free_at b (cell_at d p (suc k))
  unfolding cell_at check_position
  unwrap_free up k h = ground (arith, passes_up k h)
  unwrap_free right k h = ground (arith, passes_right k h)
  unwrap_free down k h = ground (arith, passes_down k h)
  unwrap_free left k h = ground (arith, passes_left k h)

  pub arm_unwrap :
      (d : Direction) (k : ℕ) → if_on_board b (passes b p d k) (wrapped d p (suc k)) ≡ arm b p k d
  unfolding arm
  arm_unwrap d k = elim (Bool-cases (passes b p d k)) [
    | inl e ↦ rw (e, arm) (unwrap_board d k e)
    | inr e ↦ rw (e, arm) (off_board d k)
  ]
    where
      off_board :
          (d : Direction) (k : ℕ)
          → if_on_board b false (wrapped d p (suc k)) ≡ if_on_board_at b false (cell_at d p (suc k))
      off_board d k = ground arith

  pub passes_unwrap :
      (d : Direction) (k : ℕ)
      → passes b p d k && is_free b (wrapped d p (suc k)) ≡ passes b p d (suc k)
  unfolding passes
  passes_unwrap d k = elim (Bool-cases (passes b p d k)) [
    | inl e ↦ rw (e, passes) (unwrap_free d k e)
    | inr e ↦ ground arith
  ]
