-- ===== src/Client/Stream.antt =====
-- robots-client.cpp: the buffered bytes from the server. A reader takes its value off the buffer,
-- and calls `read_some` where the buffer is empty. What arrives is a list: `none` for an error, and
-- the bytes that are there together when a call asks for them. A call takes as many of them as `buf`
-- has room for, and leaves the rest to the next one. A call beyond the list waits for ever.
pub mod RoundTrip
pub mod Split
pub mod Words
use bomberrobots.Base.{
  ℕ, zero, suc, ◌+◌, ◌-◌, ◌%◌, ◌*◌, ◌^◌, List, [], ◌∷◌, ◌++◌, Option, none, some, Result, ok, err,
  uninitialised, out_of_fuel, blocked, exited, ltb, if◌then◌else◌, length, take, drop,
}
use bomberrobots.Messages.{Bytes, Player, Position}

pub record Stream : Type 0 where
  -- `current_buf` and `current_buf_length`
  pub current_buf : Bytes
  -- what arrives for the coming calls of `read_some`
  pub arriving : List (Option Bytes)

abbrev pub Reader : Type 0 → Type 0
Reader A = Stream → Result (A × Stream)

abbrev pub pure : {A : Type 0} → A → Reader A
pure a s = ok (a, s)

-- A call that reads nothing, and may fail.
abbrev pub lift : {A : Type 0} → Result A → Reader A
lift (ok a) s = ok (a, s)
lift (err e) s = err e

infixl 5 ◌>>=◌ ◌>>◌
abbrev pub ◌>>=◌ : {A B : Type 0} → Reader A → (A → Reader B) → Reader B
◌>>=◌ m f s = elim (m s) [ err e ↦ err e | ok (a, s') ↦ f a s' ]

abbrev pub ◌>>◌ : {B : Type 0} → Reader (Unit {0}) → Reader B → Reader B
m >> k = m >>= λ _. k

-- `BUFFER_SIZE`
abbrev pub buffer_size : ℕ
buffer_size = 256

-- Bytes that a call has left are there at once for the next.
abbrev pub leave : Bytes → List (Option Bytes) → List (Option Bytes)
leave [] arriving = arriving
leave (b ∷ buf) arriving = some (b ∷ buf) ∷ arriving

unfoldable pub read_server : List (Option Bytes) → Result (Unit {0} × Stream)
read_server [] = err blocked
read_server (none ∷ arriving) = err exited
read_server (some [] ∷ arriving) = err exited
read_server (some (b ∷ buf) ∷ arriving) = ok (
  tt,
  record {
    current_buf = take (b ∷ buf) buffer_size;
    arriving = leave (drop (b ∷ buf) buffer_size) arriving;
  },
)

unfoldable pub read_if_buf_empty : Reader (Unit {0})
unfolding read_server
read_if_buf_empty s = elim s.current_buf [ [] ↦ read_server s.arriving | b ∷ buf ↦ ok (tt, s) ]

-- `current_buf[0]`, and `current_buf_update(1)`.
unfoldable pub take_byte : Reader ℕ
take_byte s = elim s.current_buf [
  | [] ↦ err uninitialised
  | b ∷ buf ↦ ok (b, record s { current_buf = buf })
]

unfoldable pub read_uint8 : Reader ℕ
unfolding read_if_buf_empty take_byte
read_uint8 = do read_if_buf_empty; take_byte

-- `uint16_bytes[i] = b`, for the two bytes, `none` before they are written.
abbrev pub write_byte : ℕ → ℕ → Option ℕ × Option ℕ → Option ℕ × Option ℕ
write_byte zero b (high, low) = (some b, low)
write_byte (suc zero) b (high, low) = (high, some b)
write_byte (suc (suc i)) b bytes = bytes

-- `for (size_t i = 0; i < 2; i--)`, on fuel: the index steps down, modulo 2 ^ 64.
unfoldable pub read_two : ℕ → ℕ → Option ℕ × Option ℕ → Reader (Option ℕ × Option ℕ)
unfolding read_if_buf_empty take_byte
read_two zero i bytes = λ s. err out_of_fuel
read_two (suc fuel) i bytes =
    let round : Reader (Option ℕ × Option ℕ) = (do
      read_if_buf_empty
      b ← take_byte
      read_two fuel ((i + (2 ^ 64 - 1)) % 2 ^ 64) (write_byte i b bytes)) in
    if ltb i 2 then round else pure bytes

-- The number of two bytes, if both have been written.
abbrev pub two_written : Option ℕ × Option ℕ → Result ℕ
two_written (some high, some low) = ok (high * 2 ^ 8 + low)
two_written (some high, none) = err uninitialised
two_written (none, low) = err uninitialised

-- The fuel suffices for one round more than there are bytes to write.
unfoldable pub read_uint16 : Reader ℕ
unfolding read_if_buf_empty take_byte read_two
read_uint16 = do
  read_if_buf_empty
  λ s.
      if ltb (length s.current_buf) 2
      then (read_two 3 0 (none, none) >>= λ bytes. lift (two_written bytes)) s
      else (do high ← take_byte; low ← take_byte; pure (high * 2 ^ 8 + low)) s

unfoldable pub read_uint32 : Reader ℕ
unfolding read_if_buf_empty take_byte read_uint8
read_uint32 = do
  read_if_buf_empty
  λ s.
      if ltb (length s.current_buf) 4
      then (do
        b3 ← read_uint8
        b2 ← read_uint8
        b1 ← read_uint8
        b0 ← read_uint8
        pure (b3 * 2 ^ 24 + b2 * 2 ^ 16 + b1 * 2 ^ 8 + b0))
          s
      else (do
        b3 ← take_byte
        b2 ← take_byte
        b1 ← take_byte
        b0 ← take_byte
        pure (b3 * 2 ^ 24 + b2 * 2 ^ 16 + b1 * 2 ^ 8 + b0))
          s

-- `n` bytes off the buffer: `str.append(current_buf, n)` and `current_buf_update(n)`.
unfoldable pub take_bytes : ℕ → Bytes → Bytes × Bytes
take_bytes zero buf = ([], buf)
take_bytes (suc n) [] = ([], [])
take_bytes (suc n) (b ∷ buf) = let (front, rest) = take_bytes n buf in (b ∷ front, rest)

-- The body of the loop of `read_string`: as many bytes as the whole string has, if the buffer has
-- so many, whatever was read before.
unfoldable pub read_chunk : ℕ → Reader Bytes
unfolding read_if_buf_empty take_bytes
read_chunk str_length = do
  read_if_buf_empty
  λ s.
      let available = length s.current_buf in
      let to_read = if ltb available str_length then available else str_length in
      let (chunk, rest) = take_bytes to_read s.current_buf in
      ok (chunk, record s { current_buf = rest })

-- `while (read_bytes < str_length)`, on fuel.
unfoldable pub read_chunks : ℕ → ℕ → Bytes → Reader Bytes
unfolding read_chunk
read_chunks zero str_length str = λ s. err out_of_fuel
read_chunks (suc fuel) str_length str =
    let more = (read_chunk str_length >>= λ chunk. read_chunks fuel str_length (str ++ chunk)) in
    if ltb (length str) str_length then more else pure str

-- Each round reads a byte at least.
unfoldable pub read_string : Reader Bytes
unfolding read_uint8 read_chunks
read_string = do str_length ← read_uint8; read_chunks (suc str_length) str_length []

unfoldable pub read_player : Reader Player
unfolding read_string
read_player = do
  name ← read_string
  address ← read_string
  pure (record { name = name; address = address })

unfoldable pub read_position : Reader Position
unfolding read_uint16
read_position = do x ← read_uint16; y ← read_uint16; pure (record { x = x; y = y })

-- A counted loop: the rounds left, the body, and what has been collected.
unfoldable pub repeat : {A : Type 0} → ℕ → (A → Reader A) → A → Reader A
repeat zero body acc = pure acc
repeat (suc n) body acc = body acc >>= λ acc'. repeat n body acc'
