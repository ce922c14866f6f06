-- ===== src/Messages.antt =====
-- game-messages.h and game-messages.cpp: identifiers, players, positions, bombs, and the
-- comparators that the ordered containers use. Unsigned integers are native numbers; a
-- `std::string` is the list of its bytes.
pub mod Codes
pub mod Order
use bomberrobots.Base.{ℕ, Bool, ◌&&◌, ◌||◌, List, ltb, ◌==◌}

abbrev pub Bytes : Type 0
Bytes = List ℕ

pub record Player : Type 0 where
  pub name : Bytes
  pub address : Bytes

pub record Position : Type 0 where
  pub x : ℕ
  pub y : ℕ

-- `operator<` on positions, as written: it compares `first.x` with `second.y`.
unfoldable pub position_lt : Position → Position → Bool
position_lt first second = ltb first.x second.y || (first.x == second.x && ltb first.y second.y)

-- `operator==` on positions.
abbrev pub position_eq : Position → Position → Bool
position_eq first second = first.x == second.x && first.y == second.y

pub record Bomb : Type 0 where
  pub position : Position
  pub timer : ℕ

-- `operator<` on bombs. No container of the program is ordered by it.
unfoldable pub bomb_lt : Bomb → Bomb → Bool
bomb_lt first second =
    position_lt first.position second.position
    || (position_eq first.position second.position && ltb first.timer second.timer)
