-- ===== src/Client/Requests.antt =====
-- robots-client.cpp: the messages that the client sends to the server.
use bomberrobots.Base.{ℕ, [], ◌∷◌}
use bomberrobots.Messages.{Bytes}
use bomberrobots.Messages.Codes.{client_message_code, ClientMessageCode}
use bomberrobots.Encoding.{uint8_to_byte, string_to_bytes}

-- With the name among the parameters.
unfoldable pub join_message : Bytes → Bytes
unfolding client_message_code
join_message name =
    uint8_to_byte (client_message_code ClientMessageCode.join) ∷ string_to_bytes name

unfoldable pub place_bomb_message : Bytes
unfolding client_message_code
place_bomb_message = uint8_to_byte (client_message_code ClientMessageCode.place_bomb_client) ∷ []

unfoldable pub place_block_message : Bytes
unfolding client_message_code
place_block_message = uint8_to_byte (client_message_code ClientMessageCode.place_block_client) ∷ []

-- A direction is the byte that the GUI sent.
unfoldable pub move_message : ℕ → Bytes
unfolding client_message_code
move_message direction =
    uint8_to_byte (client_message_code ClientMessageCode.move_client) ∷ uint8_to_byte direction ∷ []
