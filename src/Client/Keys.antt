-- ===== src/Client/Keys.antt =====
-- robots-client.cpp: what the client does with a message of the GUI.
pub mod Reach
use bomberrobots.Base.{
  ℕ, Bool, List, [], ◌∷◌, ◌++◌, Option, none, some, Result, ok, or_fail, out_of_range, ◌>>=◌, ◌==◌,
  if◌then◌else◌, length, get_elem?,
}
use bomberrobots.Messages.{Bytes}
use bomberrobots.Messages.Codes.{input_message_code, InputMessageCode}
use bomberrobots.Client.Requests.{
  join_message, place_bomb_message, place_block_message, move_message,
}

-- `receive` fills `buf_udp` from its start, as far as the buffer goes; the rest stays.
unfoldable pub receive : Bytes → Bytes → Bytes
receive datagram [] = []
receive [] (b ∷ buf) = b ∷ buf
receive (d ∷ datagram) (b ∷ buf) = d ∷ receive datagram buf

-- What is sent to the server, if anything. A read behind the bytes received finds what is left in
-- the buffer of older messages.
unfoldable pub handle_gui_message : Bytes → Bool → Bytes → Bytes → Result (Option Bytes)
handle_gui_message player_name is_lobby_status datagram buf_udp =
    let buf = receive datagram buf_udp in
    or_fail (get_elem? buf 0) out_of_range >>= λ msg_code.
    if msg_code == input_message_code InputMessageCode.place_bomb
    then ok (some (if is_lobby_status then join_message player_name else place_bomb_message))
    else if msg_code == input_message_code InputMessageCode.place_block
    then ok (some (if is_lobby_status then join_message player_name else place_block_message))
    else if msg_code == input_message_code InputMessageCode.move
    then (if is_lobby_status
        then ok (some (join_message player_name))
        else (or_fail (get_elem? buf 1) out_of_range >>= λ direction.
            ok (some (move_message direction))))
    else ok none
