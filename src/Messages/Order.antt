-- ===== src/Messages/Order.antt =====
-- What the comparator of positions in game-messages.cpp is as an order.
use bomberrobots.Base.{◌<◌, ◌≡◌, ◌↔◌, true, false, refl, arith}
use bomberrobots.Containers.Sets.{equivalent}
use bomberrobots.Messages.{Position, position_lt}

-- `operator<` on positions is no strict weak ordering, as `std::set` wants one: it puts a position before
-- itself exactly if that lies above the diagonal; it may put two positions each before the other; and
-- having neither before the other is not transitive.
pub position_lt_order :
    ((p : Position) → (position_lt p p ≡ true) ↔ (p.x < p.y))
    × (¬ ((p q : Position) → position_lt p q ≡ true → position_lt q p ≡ false))
    × (¬ (
        (p q r : Position)
        → equivalent position_lt p q ≡ true
        → equivalent position_lt q r ≡ true
        → equivalent position_lt p r ≡ true))
unfolding position_lt equivalent
position_lt_order = (
  λ p. ground arith,
  λ h. absurd (let e = h (record { x = 0; y = 1 }) (record { x = 0; y = 2 }) refl in cc),
  λ h. absurd (
      let e =
        h (record { x = 1; y = 1 }) (record { x = 9; y = 0 }) (record { x = 3; y = 2 }) refl refl in
      cc),
)
