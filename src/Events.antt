-- ===== src/Events.antt =====
-- event.h and event.cpp: the events of a turn, a turn, and their bytes. The class hierarchy is a
-- data type with a constructor for each class.
use bomberrobots.Base.{ℕ, ◌%◌, ◌^◌, List, [], ◌∷◌, ◌++◌, length}
use bomberrobots.Messages.{Bytes, Position}
use bomberrobots.Messages.Codes.{EventCode, event_code, ServerMessageCode, server_message_code}
use bomberrobots.Encoding.{
  uint8_to_byte, uint16_to_bytes, uint32_to_bytes, position_to_bytes, uint8_list_to_bytes,
  position_list_to_bytes, append_each,
}

pub data Event : Type 0 where
  -- the bomb's id and position
  bomb_placed : ℕ → Position → Event
  -- the bomb's id, the robots and the blocks destroyed
  bomb_exploded : ℕ → List ℕ → List Position → Event
  player_moved : ℕ → Position → Event
  block_placed : Position → Event

unfoldable pub get_code : Event → EventCode
get_code (bomb_placed id position) = EventCode.bomb_placed
get_code (bomb_exploded id robots blocks) = EventCode.bomb_exploded
get_code (player_moved id position) = EventCode.player_moved
get_code (block_placed position) = EventCode.block_placed

event_payload : Event → Bytes
unfolding uint32_to_bytes position_to_bytes uint8_list_to_bytes position_list_to_bytes
event_payload (bomb_placed id position) = uint32_to_bytes id ++ position_to_bytes position
event_payload (bomb_exploded id robots_destroyed blocks_destroyed) =
    uint32_to_bytes id
    ++ (uint8_list_to_bytes robots_destroyed ++ position_list_to_bytes blocks_destroyed)
event_payload (player_moved id position) = uint8_to_byte id ∷ position_to_bytes position
event_payload (block_placed position) = position_to_bytes position

-- `to_bytes` of each class: the code, then the fields.
unfoldable pub event_to_bytes : Event → Bytes
unfolding get_code event_code event_payload
event_to_bytes event = uint8_to_byte (event_code (get_code event)) ∷ event_payload event

pub record TurnInfo : Type 0 where
  pub turn : ℕ
  pub events : List Event

-- `Turn_info::add_event`.
abbrev pub add_event : Event → TurnInfo → TurnInfo
add_event event info = record info { events = info.events ++ event ∷ [] }

-- `Turn_info::to_bytes`.
unfoldable pub turn_to_bytes : TurnInfo → Bytes
unfolding server_message_code uint16_to_bytes uint32_to_bytes append_each event_to_bytes
turn_to_bytes info =
    uint8_to_byte (server_message_code ServerMessageCode.turn)
    ∷ (uint16_to_bytes info.turn
        ++ (uint32_to_bytes (length info.events % 2 ^ 32)
            ++ append_each event_to_bytes info.events))
