-- ===== src/Client/Keys/Reach.antt =====
-- From a key to the server: what the GUI sends, the client passes on, and the server reads.
use bomberrobots.Base.{
  ℕ, ◌≡◌, refl, Bool, true, false, [], ◌∷◌, some, ok, length, append-nil, subst, sym, ◌>>=◌, ◌≤◌,
  arith,
}
use bomberrobots.Messages.{Bytes}
use bomberrobots.Messages.Codes.{input_message_code}
use bomberrobots.Server.Handlers.{
  ClientMessage, join, place_bomb, place_block, move, execute, handle_msg,
}
use bomberrobots.Server.Handlers.Batches.{
  request, requests, FitsFormat, emptied, handle_msg-requests,
}
use bomberrobots.Server.Connections.{success}
use bomberrobots.Server.Engine.{Engine}
use bomberrobots.Encoding.{string_to_bytes}
use bomberrobots.Client.Requests.{join_message}
use bomberrobots.Client.Keys.{receive, handle_gui_message}

-- A message of the GUI; a direction is a byte.
pub data Key : Type 0 where
  bomb_key block_key : Key
  arrow_key : ℕ → Key

abbrev pub gui_bytes : Key → Bytes
gui_bytes bomb_key = 0 ∷ []
gui_bytes block_key = 1 ∷ []
gui_bytes (arrow_key direction) = 2 ∷ direction ∷ []

-- In the lobby each key asks to join.
abbrev pub wanted : Bytes → Bool → Key → ClientMessage
wanted player_name true key = join player_name
wanted player_name false bomb_key = place_bomb
wanted player_name false block_key = place_block
wanted player_name false (arrow_key direction) = move direction

pub handle_gui_message_lem :
    (player_name : Bytes) (is_lobby_status : Bool) (key : Key) (b b' : ℕ) (buf : Bytes)
    → handle_gui_message player_name is_lobby_status (gui_bytes key) (b ∷ b' ∷ buf)
      ≡ ok (some (request (wanted player_name is_lobby_status key)))
unfolding handle_gui_message receive input_message_code request
handle_gui_message_lem player_name true bomb_key b b' buf = refl
handle_gui_message_lem player_name true block_key b b' buf = refl
handle_gui_message_lem player_name true (arrow_key direction) b b' buf = refl
handle_gui_message_lem player_name false bomb_key b b' buf = refl
handle_gui_message_lem player_name false block_key b b' buf = refl
handle_gui_message_lem player_name false (arrow_key direction) b b' buf = refl

length-wanted :
    (player_name : Bytes) (is_lobby_status : Bool) (key : Key)
    → length player_name ≤ 254
    → length (request (wanted player_name is_lobby_status key)) ≤ 256
unfolding request join_message string_to_bytes
length-wanted player_name true bomb_key h = omega arith
length-wanted player_name true block_key h = omega arith
length-wanted player_name true (arrow_key direction) h = omega arith
length-wanted player_name false bomb_key h = omega arith
length-wanted player_name false block_key h = omega arith
length-wanted player_name false (arrow_key direction) h = omega arith

-- The bytes of a key become a message, and when it arrives alone the server carries out what the key
-- stands for: in the lobby a request to join, in a game what the key says. The player's name has at
-- most 254 bytes, so that the message fits into the 256 bytes of the server's buffer, a direction is a
-- byte, and the client's buffer has two bytes at least.
pub handle_gui_message-handle_msg :
    (player_name : Bytes) (is_lobby_status : Bool) (key : Key) (b b' : ℕ) (buf : Bytes)
    → length player_name ≤ 254
    → FitsFormat (wanted player_name is_lobby_status key)
    → (message : Bytes) × (handle_gui_message player_name is_lobby_status
          (gui_bytes key)
          (b ∷ b' ∷ buf)
        ≡ ok (some message))
      × ((i : ℕ) (e : Engine)
          → handle_msg (some message) i e ≡ (
              execute (wanted player_name is_lobby_status key) i (emptied e) >>= λ e'.
              ok (success, e')))
unfolding requests
handle_gui_message-handle_msg player_name is_lobby_status key b b' buf short f =
    let msg = wanted player_name is_lobby_status key in
    (
      request msg,
      handle_gui_message_lem player_name is_lobby_status key b b' buf,
      λ i e.
          subst
            (λ bs.
              handle_msg (some bs) i e ≡ (execute msg i (emptied e) >>= λ e'. ok (success, e')))
            (append-nil (request msg))
            (handle_msg-requests msg [] i e (f, tt)
              (subst (λ bs. length bs ≤ 256) (sym (append-nil (request msg)))
                (length-wanted player_name is_lobby_status key short))),
    )
