-- ===== src/Tests/Orders.antt =====
-- The comparator of positions at work.
use bomberrobots.Base.{true, ◌≡◌, [], ◌∷◌, refl}
use bomberrobots.Containers.Sets.{insert}
use bomberrobots.Messages.{position_lt}
use bomberrobots.Tests.Samples.{at}

-- Above the diagonal a position is below itself.
below_itself : position_lt (at 1 2) (at 1 2) ≡ true
unfolding position_lt
below_itself = refl

-- In the model's sets a block at (5, 0) is taken for one at (1, 2), and another is not put beside it.
taken_for_another : insert position_lt (at 1 2) (at 5 0 ∷ []) ≡ at 5 0 ∷ []
unfolding insert position_lt
taken_for_another = refl
