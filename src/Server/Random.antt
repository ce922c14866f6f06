-- ===== src/Server/Random.antt =====
-- random.h: `std::minstd_rand`, the multiplicative congruential generator with multiplier 48271
-- and modulus 2147483647. A state is the last number drawn.
pub mod Range
use bomberrobots.Base.{ℕ, ◌*◌, ◌%◌, ◌==◌, if◌then◌else◌}

-- The constructor: a seed that is 0 modulo the modulus stands for 1.
unfoldable pub seeded : ℕ → ℕ
seeded seed = if seed % 2147483647 == 0 then 1 else seed % 2147483647

-- `next`: the number drawn, which is the new state too.
unfoldable pub next : ℕ → ℕ
next state = state * 48271 % 2147483647
