-- ===== src/Server/Handlers/Batches.antt =====
-- The server reads what the client writes: the do-while loop of `handle_msg` ends, and takes the
-- client's messages off the buffer one by one.
use bomberrobots.Base.{
  ℕ, zero, suc, ◌%◌, ◌^◌, ◌≤◌, ◌<◌, ◌≡◌, ◌≢◌, refl, ap, ◌∙◌, List, [], ◌∷◌, ◌++◌, Option, none,
  some, ok, take, take-length, ◌>>=◌, arith, length, length-append, All,
}
use bomberrobots.Messages.{Bytes}
use bomberrobots.Encoding.{string_to_bytes}
use bomberrobots.Client.Requests.{
  join_message, place_bomb_message, place_block_message, move_message,
}
use bomberrobots.Server.Connections.{buf_size, read_from, potentially_success, success}
use bomberrobots.Server.Engine.{Engine}
use bomberrobots.Server.Connections.Buffer.{read_uint8, read_string, split_at, take_string}
use bomberrobots.Server.Handlers.{
  ClientMessage, join, place_bomb, place_block, move, read_body, read_message, Batch, last, endless,
  read_on, read_batch, carry_out, handle_read, handle_msg, execute,
}

length-split_at : (n : ℕ) (buf : Bytes) → length (split_at n buf).1 ≤ length buf
unfolding split_at
length-split_at zero buf = omega arith
length-split_at (suc n) [] = omega arith
length-split_at (suc n) (b ∷ buf) = omega (arith, length-split_at n buf)

-- Whatever follows the code takes nothing but bytes off the front.
length-read_body : (code : ℕ) (buf : Bytes) → length (read_body code buf).1 ≤ length buf
unfolding read_body read_string read_uint8
length-read_body code [] = ground arith
length-read_body code (b ∷ buf) = ground (arith, length-split_at b buf)

read_on_ends :
    (again : Bytes → Batch) (r : Option ClientMessage × Bytes)
    → ((c : ℕ) (rest : Bytes) → r.1 ≡ c ∷ rest → again (c ∷ rest) ≢ endless)
    → read_on again r ≢ endless
unfolding read_on
read_on_ends again (none, rest) h = ground arith
read_on_ends again (some msg, []) h = ground arith
read_on_ends again (some msg, c ∷ rest) h = h c rest refl

-- With as much fuel as there are bytes the loop ends.
pub read_batch_ends :
    (fuel : ℕ) (buf : Bytes) → length buf ≤ fuel → 0 < fuel → read_batch fuel buf ≢ endless
unfolding read_batch read_message read_uint8
read_batch_ends zero buf h pos = absurd (omega arith)
read_batch_ends (suc fuel) [] h pos = unfold read_on in ground arith
read_batch_ends (suc fuel) (b ∷ buf) h pos =
    read_on_ends (read_batch fuel) (read_body b buf) (λ c rest e.
      let shorter : suc (length rest) ≤ length buf =
        omega (arith, ap length e, length-read_body b buf) in
      read_batch_ends fuel (c ∷ rest) (omega arith) (omega arith))

-- What the client writes for a message.
unfoldable pub request : ClientMessage → Bytes
unfolding join_message place_bomb_message place_block_message move_message
request (join name) = join_message name
request place_bomb = place_bomb_message
request place_block = place_block_message
request (move direction) = move_message direction

unfoldable pub requests : List ClientMessage → Bytes
unfolding request
requests [] = []
requests (msg ∷ msgs) = request msg ++ requests msgs

-- A message that fits its format: a name has at most 255 bytes, a direction is a byte.
abbrev pub FitsFormat : ClientMessage → Type 0
FitsFormat (join name) = length name < 2 ^ 8
FitsFormat (move direction) = direction < 2 ^ 8
FitsFormat _ = Unit

split_at-append : (s rest : Bytes) → split_at (length s) (s ++ rest) ≡ (s, rest)
unfolding split_at
split_at-append [] rest = refl
split_at-append (b ∷ s) rest = rw (split_at-append s rest)

pub read_string-string_to_bytes :
    (s rest : Bytes) → length s < 2 ^ 8 → read_string (string_to_bytes s ++ rest) ≡ (some s, rest)
unfolding read_string read_uint8 take_string string_to_bytes
read_string-string_to_bytes s rest h =
    let same : length s % 2 ^ 8 % 2 ^ 8 ≡ length s = omega arith in
    rw same (ground (arith, split_at-append s rest, length-append s rest))

-- Reading a message that the client wrote gives it back, and leaves what follows it.
pub read_message-request :
    (msg : ClientMessage) (rest : Bytes)
    → FitsFormat msg
    → read_message (request msg ++ rest) ≡ (some msg, rest)
unfolding read_message read_uint8 read_body request
read_message-request (join name) rest f = ground (arith, read_string-string_to_bytes name rest f)
read_message-request place_bomb rest f = refl
read_message-request place_block rest f = refl
read_message-request (move direction) rest f = ground arith

-- The last of some messages.
abbrev pub last_of : ClientMessage → List ClientMessage → ClientMessage
last_of msg [] = msg
last_of msg (next ∷ msgs) = last_of next msgs

length-request : (msg : ClientMessage) → 0 < length (request msg)
unfolding request
length-request (join name) = omega arith
length-request place_bomb = omega arith
length-request place_block = omega arith
length-request (move direction) = omega arith

read_on-more :
    (again : Bytes → Batch) (msg : ClientMessage) (rest : Bytes)
    → 0 < length rest
    → read_on again (some msg, rest) ≡ again rest
unfolding read_on
read_on-more again msg [] h = elim h [ ]
read_on-more again msg (c ∷ rest) h = refl

read_batch_fuel :
    (msgs : List ClientMessage) (msg : ClientMessage) (fuel : ℕ)
    → All FitsFormat (msg ∷ msgs)
    → length (requests (msg ∷ msgs)) ≤ fuel
    → read_batch fuel (requests (msg ∷ msgs)) ≡ last (last_of msg msgs)
unfolding read_batch requests
read_batch_fuel msgs msg zero f h =
    absurd (omega (arith, length-append (request msg) (requests msgs), length-request msg))
read_batch_fuel [] msg (suc fuel) f h =
    rw (read_message-request msg [] f.0) (unfold read_on in refl)
read_batch_fuel (next ∷ msgs) msg (suc fuel) f h =
    let sizes = length-append (request msg) (requests (next ∷ msgs)) in
    let sizes' = length-append (request next) (requests msgs) in
    rw (read_message-request msg (requests (next ∷ msgs)) f.0) (
      read_on-more (read_batch fuel) msg (requests (next ∷ msgs))
        (omega (arith, sizes', length-request next))
      ∙ read_batch_fuel msgs next fuel f.1 (omega (arith, sizes, length-request msg)))

pub read_batch-requests :
    (msg : ClientMessage) (msgs : List ClientMessage)
    → All FitsFormat (msg ∷ msgs)
    → read_batch (length (requests (msg ∷ msgs))) (requests (msg ∷ msgs)) ≡ last (last_of msg msgs)
read_batch-requests msg msgs f =
    read_batch_fuel msgs msg (length (requests (msg ∷ msgs))) f (omega arith)

-- The same for what `read_from` takes of them, if it takes all.
pub read_batch-take :
    (msg : ClientMessage) (msgs : List ClientMessage)
    → All FitsFormat (msg ∷ msgs)
    → length (requests (msg ∷ msgs)) ≤ buf_size
    → let buf = take (requests (msg ∷ msgs)) buf_size in
      read_batch (length buf) buf ≡ last (last_of msg msgs)
read_batch-take msg msgs f h =
    rw (take-length (requests (msg ∷ msgs)) buf_size h) (read_batch-requests msg msgs f)

handle_msg_nonempty :
    (bytes : Bytes) (i : ℕ) (e : Engine)
    → 0 < length bytes
    → handle_msg (some bytes) i e
      ≡ handle_read potentially_success i
          (record e { tcp_handler = record (e.tcp_handler) { current_buf = take bytes buf_size } })
unfolding handle_msg read_from
handle_msg_nonempty [] i e h = elim h [ ]
handle_msg_nonempty (b ∷ bytes) i e h = refl

-- The engine before a message is carried out: all bytes are taken.
abbrev pub emptied : Engine → Engine
emptied e = record e { tcp_handler = record (e.tcp_handler) { current_buf = [] } }

-- The bytes of messages that arrive together, in all at most the 256 that the server's buffer keeps,
-- each in its format, stand for the last of them: the server carries that one out, takes all the
-- bytes, and drops the other messages.
pub handle_msg-requests :
    (msg : ClientMessage) (msgs : List ClientMessage) (i : ℕ) (e : Engine)
    → All FitsFormat (msg ∷ msgs)
    → length (requests (msg ∷ msgs)) ≤ 256
    → handle_msg (some (requests (msg ∷ msgs))) i e
      ≡ (execute (last_of msg msgs) i (emptied e) >>= λ e'. ok (success, e'))
unfolding requests handle_read carry_out
handle_msg-requests msg msgs i e f h =
    let some_bytes : 0 < length (request msg ++ requests msgs) =
      omega (arith, length-append (request msg) (requests msgs), length-request msg) in
    handle_msg_nonempty (requests (msg ∷ msgs)) i e some_bytes
    ∙ rw (read_batch-take msg msgs f h) refl
