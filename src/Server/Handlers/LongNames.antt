-- ===== src/Server/Handlers/LongNames.antt =====
-- game-engine.cpp, server-tcp-handler.cpp: the join of a client with the longest name, against the size
-- of the buffer that it is read into.
use bomberrobots.Base.{
  ℕ, zero, suc, none, ◌+◌, ◌%◌, ◌^◌, ◌≡◌, refl, ap, true, [], ◌∷◌, some, ok, arith, ltb, take,
  length,
}
use bomberrobots.Messages.{Bytes}
use bomberrobots.Messages.Codes.{client_message_code}
use bomberrobots.Encoding.{string_to_bytes, uint8_to_byte}
use bomberrobots.Client.Requests.{join_message}
use bomberrobots.Server.Connections.{read_from, error_msg}
use bomberrobots.Server.Connections.Buffer.{read_uint8, read_string, take_string}
use bomberrobots.Server.Engine.{Engine}
use bomberrobots.Server.Handlers.{
  join, read_body, read_message, read_on, read_batch, invalid, carry_out, handle_read, handle_msg,
}
use bomberrobots.Server.Handlers.Batches.{request}

length-take : (s : Bytes) (n : ℕ) → length s ≡ n + 1 → length (take s n) ≡ n
length-take [] n h = absurd (omega arith)
length-take (b ∷ s) zero h = refl
length-take (b ∷ s) (suc n) h = ap suc (length-take s n (omega arith))

-- The length of a string that is not there, of which only 254 bytes are.
read_string_short : (s : Bytes) → length s ≡ 254 → read_string (255 ∷ s) ≡ (none, s)
unfolding read_string read_uint8 take_string
read_string_short s h = let missing : ltb (length s) 255 ≡ true = ground arith in rw missing refl

read_body_short : (s : Bytes) → length s ≡ 254 → read_body 0 (255 ∷ s) ≡ (none, s)
unfolding read_body client_message_code
read_body_short s h = ground (arith, read_string_short s h)

read_batch_short :
    (s : Bytes) (fuel : ℕ) → length s ≡ 254 → read_batch (suc fuel) (0 ∷ 255 ∷ s) ≡ invalid s
unfolding read_batch read_message read_uint8 read_on
read_batch_short s fuel h = ap (read_on (read_batch fuel)) (read_body_short s h)

-- A name of 255 bytes, which the format allows, makes a join of 257 bytes. The server reads 256 of
-- them, takes the message for invalid, and nobody joins.
pub handle_msg-request_long :
    (name : Bytes) (i : ℕ) (e : Engine)
    → length name ≡ 255
    → handle_msg (some (request (join name))) i e
      ≡ ok (
        error_msg,
        record e { tcp_handler = record (e.tcp_handler) { current_buf = take name 254 } },
      )
unfolding handle_msg read_from handle_read carry_out request join_message string_to_bytes
    uint8_to_byte client_message_code
handle_msg-request_long name i e h =
    let short : length (take name 254) ≡ 254 = length-take name 254 (omega arith) in
    let byte : length name % 2 ^ 8 % 2 ^ 8 ≡ 255 = omega arith in
    rw byte (rw (read_batch_short (take name 254) (suc (length (take name 254))) short) refl)
