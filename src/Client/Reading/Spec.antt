-- ===== src/Client/Reading/Spec.antt =====
-- What the events of a turn mean for the client's picture of the game, apart from the bytes.
use bomberrobots.Base.{◌^◌, ◌<◌, [], Result, ok, ◌>>=◌, each, fold, ltb, length, All}
use bomberrobots.Containers.Sets
use bomberrobots.Messages.{Position, position_lt}
use bomberrobots.Events.{Event, bomb_placed, bomb_exploded, player_moved, block_placed, TurnInfo}
use bomberrobots.Client.State.{
  GameInfo, new_turn, add_bomb, add_block, remove_bomb, destroy_player, remove_block,
  change_player_position,
}

-- A coordinate is a `uint16_t`.
abbrev pub IsWord : Position → Type 0
IsWord p = (p.x < 2 ^ 16) × (p.y < 2 ^ 16)

-- What an event does to the client's picture of the game.
abbrev pub follow : Event → GameInfo → Result GameInfo
follow (bomb_placed id position) g = ok (add_bomb id position g)
follow (bomb_exploded id robots blocks) g =
    each destroy_player (fold (Sets.insert ltb) robots []) (remove_bomb id g) >>= λ g'.
    ok (fold remove_block (fold (Sets.insert position_lt) blocks []) g')
follow (player_moved id position) g = ok (change_player_position id position g)
follow (block_placed position) g = ok (add_block position g)

-- The fields of an event are in the ranges of their types.
abbrev pub IsFit : Event → Type 0
IsFit (bomb_placed id position) = (id < 2 ^ 32) × IsWord position
IsFit (bomb_exploded id robots blocks) =
    (id < 2 ^ 32)
    × (length robots < 2 ^ 32)
    × All (λ r. r < 2 ^ 8) robots
    × (length blocks < 2 ^ 32)
    × All IsWord blocks
IsFit (player_moved id position) = (id < 2 ^ 8) × IsWord position
IsFit (block_placed position) = IsWord position

-- A whole turn.
abbrev pub follow_turn : TurnInfo → GameInfo → Result GameInfo
follow_turn info g = each follow info.events (new_turn info.turn g)
