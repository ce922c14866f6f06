-- ===== src/Encoding.antt =====
-- byte-parser.h and byte-parser.cpp: how the values of the protocol become bytes. A multi-byte
-- integer goes most significant byte first; each cast to `std::byte` or to a shorter integer
-- keeps the low bits.
use bomberrobots.Base.{ℕ, ◌/◌, ◌%◌, ◌^◌, List, [], ◌∷◌, ◌++◌, length}
use bomberrobots.Containers.Maps.{Map}
use bomberrobots.Messages.{Bytes, Player, Position, Bomb}

abbrev pub uint8_to_byte : ℕ → ℕ
uint8_to_byte u8 = u8 % 2 ^ 8

unfoldable pub uint16_to_bytes : ℕ → Bytes
uint16_to_bytes u16 = (u16 / 2 ^ 8 % 2 ^ 8) ∷ (u16 % 2 ^ 8) ∷ []

unfoldable pub uint32_to_bytes : ℕ → Bytes
uint32_to_bytes u32 =
    (u32 / 2 ^ 24 % 2 ^ 8) ∷ (u32 / 2 ^ 16 % 2 ^ 8) ∷ (u32 / 2 ^ 8 % 2 ^ 8) ∷ (u32 % 2 ^ 8) ∷ []

-- The length byte keeps the low 8 bits of the size; the bytes that follow are all of them.
unfoldable pub string_to_bytes : Bytes → Bytes
string_to_bytes str = uint8_to_byte (length str % 2 ^ 8) ∷ str

unfoldable pub player_to_bytes : Player → Bytes
unfolding string_to_bytes
player_to_bytes player = string_to_bytes player.name ++ string_to_bytes player.address

unfoldable pub position_to_bytes : Position → Bytes
unfolding uint16_to_bytes
position_to_bytes position = uint16_to_bytes position.x ++ uint16_to_bytes position.y

unfoldable pub bomb_to_bytes : Bomb → Bytes
unfolding position_to_bytes uint16_to_bytes
bomb_to_bytes bomb = position_to_bytes bomb.position ++ uint16_to_bytes bomb.timer

-- The loops that append the elements of a container.
unfoldable pub append_each {ℓ} : {A : Type ℓ} → (A → Bytes) → List A → Bytes
append_each to_bytes [] = []
append_each to_bytes (a ∷ s) = to_bytes a ++ append_each to_bytes s

-- The size of the container in four bytes, then its elements.
unfoldable pub sized {ℓ} : {A : Type ℓ} → (A → Bytes) → List A → Bytes
unfolding uint32_to_bytes append_each
sized to_bytes s = uint32_to_bytes (length s % 2 ^ 32) ++ append_each to_bytes s

unfoldable pub position_set_to_bytes : List Position → Bytes
unfolding sized position_to_bytes
position_set_to_bytes positions = sized position_to_bytes positions

unfoldable pub bomb_set_to_bytes : Map Bomb → Bytes
unfolding sized bomb_to_bytes
bomb_set_to_bytes bombs = sized (λ b. bomb_to_bytes b.1) bombs

unfoldable pub player_map_to_bytes : Map Player → Bytes
unfolding sized player_to_bytes
player_map_to_bytes player_map = sized (λ p. uint8_to_byte p.0 ∷ player_to_bytes p.1) player_map

unfoldable pub player_position_map_to_bytes : Map Position → Bytes
unfolding sized position_to_bytes
player_position_map_to_bytes positions =
    sized (λ p. uint8_to_byte p.0 ∷ position_to_bytes p.1) positions

unfoldable pub score_map_to_bytes : Map ℕ → Bytes
unfolding sized uint32_to_bytes
score_map_to_bytes scores = sized (λ p. uint8_to_byte p.0 ∷ uint32_to_bytes p.1) scores

unfoldable pub uint8_list_to_bytes : List ℕ → Bytes
unfolding sized
uint8_list_to_bytes elements = sized (λ e. uint8_to_byte e ∷ []) elements

unfoldable pub position_list_to_bytes : List Position → Bytes
unfolding sized position_to_bytes
position_list_to_bytes positions = sized position_to_bytes positions
