-- ===== src/Client/Stream/Words.antt =====
-- robots-client.cpp: numbers of several bytes that arrive in parts.
use bomberrobots.Base.{
  ℕ, ◌+◌, ◌*◌, ◌^◌, ◌≡◌, refl, List, [], ◌∷◌, Option, none, some, err, uninitialised, arith, length,
  take, drop, take-length, drop-length, ◌≤◌,
}
use bomberrobots.Messages.{Bytes}
use bomberrobots.Client.Stream.{
  Stream, Reader, leave, pure, ◌>>=◌, read_server, read_if_buf_empty, take_byte, read_uint8,
  read_uint16, read_uint32, read_two,
}

-- Four bytes, one by one, the highest first.
abbrev pub four_bytes : Reader ℕ
four_bytes = do
  b3 ← read_uint8
  b2 ← read_uint8
  b1 ← read_uint8
  b0 ← read_uint8
  pure (b3 * 2 ^ 24 + b2 * 2 ^ 16 + b1 * 2 ^ 8 + b0)

buffered_lem :
    (b : ℕ) (buf : Bytes) (arriving : List (Option Bytes))
    → read_uint32 (record { current_buf = b ∷ buf; arriving = arriving })
      ≡ four_bytes (record { current_buf = b ∷ buf; arriving = arriving })
unfolding read_uint32 read_uint8 read_if_buf_empty take_byte
buffered_lem b [] arriving = refl
buffered_lem b (b1 ∷ []) arriving = refl
buffered_lem b (b1 ∷ b2 ∷ []) arriving = refl
buffered_lem b (b1 ∷ b2 ∷ b3 ∷ buf) arriving = ground arith

fields_lem :
    (buf : Bytes) (arriving : List (Option Bytes))
    → read_uint32 (record { current_buf = buf; arriving = arriving })
      ≡ four_bytes (record { current_buf = buf; arriving = arriving })
unfolding read_uint32 read_uint8 read_if_buf_empty take_byte read_server
fields_lem (b ∷ buf) arriving = buffered_lem b buf arriving
fields_lem [] [] = refl
fields_lem [] (none ∷ arriving) = refl
fields_lem [] (some [] ∷ arriving) = refl
fields_lem [] (some (b ∷ buf) ∷ arriving) =
    buffered_lem b (take buf 255) (leave (drop buf 255) arriving)

-- However the bytes of a 32-bit number arrive, and whatever becomes of the calls, `read_uint32`, with
-- its two cases, does what four reads of a byte do.
pub read_uint32-four_bytes : (s : Stream) → read_uint32 s ≡ four_bytes s
read_uint32-four_bytes s = fields_lem s.current_buf s.arriving

-- Two bytes, one by one, the highest first.
abbrev pub two_bytes : Reader ℕ
two_bytes = do high ← read_uint8; low ← read_uint8; pure (high * 2 ^ 8 + low)

-- A 16-bit number of which both bytes are in the buffer is read as two reads of a byte read it. If only
-- the first byte is there, the loop of `read_uint16` is left before the second one: whatever comes
-- next, the client goes on with a byte that was never written, and where the second byte comes, two
-- reads of a byte would have given the number that they give when the bytes are together.
pub read_uint16-two_bytes :
    (high low : ℕ) (buf : Bytes) (arriving : List (Option Bytes))
    → length (low ∷ buf) ≤ 256
    → let together : Stream = record { current_buf = high ∷ low ∷ buf; arriving = arriving } in
      let apart : Stream = record {
        current_buf = high ∷ [];
        arriving = some (low ∷ buf) ∷ arriving;
      } in
      (read_uint16 together ≡ two_bytes together)
      × (two_bytes apart ≡ two_bytes together)
      × ((later : List (Option Bytes))
          → read_uint16 (record { current_buf = high ∷ []; arriving = later }) ≡ err uninitialised)
unfolding read_uint16 read_two read_uint8 read_if_buf_empty take_byte read_server
read_uint16-two_bytes high low buf arriving h = (
  ground arith,
  (let whole : take buf 255 ≡ buf = take-length buf 255 (omega arith) in
      let gone : drop buf 255 ≡ [] = drop-length buf 255 (omega arith) in rw (whole, gone) refl),
  λ later. refl,
)
