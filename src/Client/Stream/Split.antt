-- ===== src/Client/Stream/Split.antt =====
-- The client's readers where a value arrives in two parts.
use bomberrobots.Base.{
  ℕ, ◌<◌, ◌≡◌, refl, ap, true, false, List, [], ◌∷◌, ◌++◌, Option, some, ok, ltb, length, take,
  drop, take-length, drop-length, ◌≤◌, length-append, arith, ◌∙◌,
}
use bomberrobots.Messages.{Bytes}
use bomberrobots.Client.Stream.{
  Stream, Reader, ◌>>=◌, read_server, read_if_buf_empty, read_chunk, read_chunks, take_bytes,
  read_string,
}
use bomberrobots.Client.Stream.RoundTrip.{take_bytes-append, ltb-length}

take_bytes_all : (s : Bytes) → take_bytes (length s) s ≡ (s, [])
unfolding take_bytes
take_bytes_all [] = refl
take_bytes_all (b ∷ s) = rw (take_bytes_all s) refl

-- The bytes in the buffer are fewer than the string has.
read_chunk_first :
    (n b : ℕ) (first : Bytes) (arriving : List (Option Bytes))
    → ltb (length (b ∷ first)) n ≡ true
    → read_chunk n (record { current_buf = b ∷ first; arriving = arriving })
      ≡ ok (b ∷ first, record { current_buf = []; arriving = arriving })
unfolding read_chunk read_if_buf_empty
read_chunk_first n b first arriving h = rw h (
    ap (λ p. ok (b ∷ p.0, record { current_buf = p.1; arriving = arriving }))
      (take_bytes_all first))

-- The buffer is empty, and a read brings enough for the whole string.
read_chunk_second :
    (b : ℕ) (second rest : Bytes) (arriving : List (Option Bytes))
    → length (b ∷ second ++ rest) ≤ 256
    → read_chunk
        (length (b ∷ second))
        (record { current_buf = []; arriving = some (b ∷ second ++ rest) ∷ arriving })
      ≡ ok (b ∷ second, record { current_buf = rest; arriving = arriving })
unfolding read_chunk read_if_buf_empty read_server
read_chunk_second b second rest arriving short =
    let whole : take (second ++ rest) 255 ≡ second ++ rest =
      take-length (second ++ rest) 255 (omega arith) in
    let gone : drop (second ++ rest) 255 ≡ [] = drop-length (second ++ rest) 255 (omega arith) in
    rw (whole, gone)
      (rw (ltb-length (b ∷ second) rest) (
        ap (λ p. ok (b ∷ p.0, record { current_buf = p.1; arriving = arriving }))
          (take_bytes-append second rest)))

-- A reader that has read, and what follows.
after_lem :
    {A B : Type 0} (m : Reader A) (f : A → Reader B) (a : A) (s s' : Stream)
    → m s ≡ ok (a, s')
    → (m >>= f) s ≡ f a s'
after_lem m f a s s' h = rw (h, ◌>>=◌) refl

-- A string of which the first part has arrived, not all of it and not nothing, and then a read that
-- brings as many bytes as the whole string has or more, and at most 256: the client takes that many
-- bytes on top of the first part, so that the string is too long and the next value is cut.
pub read_string_split :
    (b : ℕ) (first second rest : Bytes) (arriving : List (Option Bytes))
    → length (b ∷ first) < length second
    → length (second ++ rest) ≤ 256
    → read_string (record {
      current_buf = length second ∷ b ∷ first;
      arriving = some (second ++ rest) ∷ arriving;
    })
      ≡ ok (b ∷ first ++ second, record { current_buf = rest; arriving = arriving })
unfolding read_string read_chunks
read_string_split b first [] rest arriving short fits = absurd (omega arith)
read_string_split b first (c ∷ []) rest arriving short fits = absurd (omega arith)
read_string_split b first (c ∷ d ∷ second) rest arriving short fits =
    let n = length (c ∷ d ∷ second) in
    let started : ltb 0 n ≡ true = ground arith in
    let more : ltb (length (b ∷ first)) n ≡ true = ground arith in
    let done : ltb (length (b ∷ first ++ c ∷ d ∷ second)) n ≡ false =
      ground (arith, length-append (b ∷ first) (c ∷ d ∷ second)) in
    let arrives = some (c ∷ d ∷ second ++ rest) ∷ arriving in
    rw started (
      after_lem (read_chunk n) (λ chunk. read_chunks n n ([] ++ chunk)) (b ∷ first)
        (record { current_buf = b ∷ first; arriving = arrives })
        (record { current_buf = []; arriving = arrives }) (read_chunk_first n b first arrives more)
      ∙ rw more (
          after_lem (read_chunk n)
            (λ chunk. read_chunks (length (d ∷ second)) n ((b ∷ first) ++ chunk)) (c ∷ d ∷ second)
            (record { current_buf = []; arriving = arrives })
            (record { current_buf = rest; arriving = arriving })
            (read_chunk_second c (d ∷ second) rest arriving fits)
          ∙ rw done refl))
