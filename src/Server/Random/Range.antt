-- ===== src/Server/Random/Range.antt =====
-- random.h: the numbers that the generator of `std::minstd_rand` gives.
use bomberrobots.Base.{ℕ, zero, suc, ◌<◌, arith}
use bomberrobots.Server.Random.{seeded, next}

-- A state that the generator can be in.
abbrev pub IsState : ℕ → Type 0
IsState state = (0 < state) × (state < 2147483647)

seeded-IsState : (seed : ℕ) → IsState (seeded seed)
unfolding seeded
seeded-IsState seed = ground arith

next-IsState : (state : ℕ) → IsState state → IsState (next state)
unfolding next
next-IsState state h = omega arith

-- The state after some draws.
abbrev pub drawn : ℕ → ℕ → ℕ
drawn zero state = state
drawn (suc n) state = drawn n (next state)

drawn_bounds_from : (n state : ℕ) → IsState state → IsState (drawn n state)
drawn_bounds_from zero state h = h
drawn_bounds_from (suc n) state h = drawn_bounds_from n (next state) (next-IsState state h)

-- Whatever the seed and however often it is called, the generator never gives 0, where it would stay,
-- and it stays below its modulus.
pub drawn_bounds : (n seed : ℕ) → IsState (drawn n (seeded seed))
drawn_bounds n seed = drawn_bounds_from n (seeded seed) (seeded-IsState seed)
