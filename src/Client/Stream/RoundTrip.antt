-- ===== src/Client/Stream/RoundTrip.antt =====
-- The client's readers against what byte-parser.cpp writes, where the bytes have arrived together.
use bomberrobots.Base.{
  ℕ, suc, ◌%◌, ◌^◌, ◌<◌, ◌≡◌, refl, List, [], ◌∷◌, ◌++◌, append_assoc, Option, Result, ok, arith,
  ok->>=, each, fold, each-fold, ok_inj, ltb, length, length-append, All, true, false, subst,
}
use bomberrobots.Messages.{Bytes, Player, Position}
use bomberrobots.Encoding.{
  uint8_to_byte, uint16_to_bytes, uint32_to_bytes, string_to_bytes, player_to_bytes,
  position_to_bytes, append_each, sized,
}
use bomberrobots.Client.Stream.{
  Reader, pure, ◌>>=◌, lift, read_if_buf_empty, read_uint8, read_uint16, read_uint32, take_bytes,
  read_chunk, read_chunks, read_string, read_player, read_position, repeat,
}

-- `reader` takes `bytes` off the front of the buffer and returns `value`.
abbrev pub Decodes : {A : Type 0} → Reader A → Bytes → A → Type 0
Decodes reader bytes value =
    (rest : Bytes) (arriving : List (Option Bytes))
    → reader (record { current_buf = bytes ++ rest; arriving = arriving })
      ≡ ok (value, record { current_buf = rest; arriving = arriving })

pub Decodes->>= :
    {A B : Type 0} (m : Reader A) (f : A → Reader B) (xs ys : Bytes) (a : A) (b : B)
    → Decodes m xs a
    → Decodes (f a) ys b
    → Decodes (m >>= f) (xs ++ ys) b
Decodes->>= m f xs ys a b dm df rest arriving =
    rw (append_assoc) (rw (dm (ys ++ rest) arriving, ◌>>=◌) (df rest arriving))

-- A second reader that takes nothing.
pub Decodes-end :
    {A B : Type 0} (m : Reader A) (f : A → Reader B) (xs : Bytes) (a : A) (b : B)
    → Decodes m xs a
    → Decodes (f a) [] b
    → Decodes (m >>= f) xs b
Decodes-end m f xs a b dm df rest arriving = rw (dm rest arriving, ◌>>=◌) (df rest arriving)

-- The last reader of a block, and what is made of its value.
pub Decodes-last :
    {A B : Type 0} (m : Reader A) (f : A → B) (xs : Bytes) (a : A)
    → Decodes m xs a
    → Decodes (m >>= λ a'. pure (f a')) xs (f a)
Decodes-last m f xs a dm rest arriving = rw (dm rest arriving, ◌>>=◌) refl

-- A call that reads nothing before a reader.
pub Decodes-lift :
    {A B : Type 0} (m : Result A) (f : A → Reader B) (a : A) (xs : Bytes) (b : B)
    → m ≡ ok a
    → Decodes (f a) xs b
    → Decodes (lift m >>= f) xs b
Decodes-lift m f a xs b e d = rw e d

pub read_uint8-uint8_to_byte : (u : ℕ) → u < 2 ^ 8 → Decodes read_uint8 (uint8_to_byte u ∷ []) u
unfolding read_uint8
read_uint8-uint8_to_byte u h rest arriving = ground arith

pub read_uint16-uint16_to_bytes : (u : ℕ) → u < 2 ^ 16 → Decodes read_uint16 (uint16_to_bytes u) u
unfolding read_uint16 uint16_to_bytes
read_uint16-uint16_to_bytes u h rest arriving = ground arith

pub read_uint32-uint32_to_bytes : (u : ℕ) → u < 2 ^ 32 → Decodes read_uint32 (uint32_to_bytes u) u
unfolding read_uint32 uint32_to_bytes
read_uint32-uint32_to_bytes u h rest arriving = ground arith

pub take_bytes-append : (s rest : Bytes) → take_bytes (length s) (s ++ rest) ≡ (s, rest)
unfolding take_bytes
take_bytes-append [] rest = refl
take_bytes-append (b ∷ s) rest = rw (take_bytes-append s rest)

pub ltb-length : (s rest : Bytes) → ltb (length (s ++ rest)) (length s) ≡ false
ltb-length s rest = ground (arith, length-append s rest)

read_chunk-append : (b : ℕ) (s : Bytes) → Decodes (read_chunk (length (b ∷ s))) (b ∷ s) (b ∷ s)
unfolding read_chunk read_if_buf_empty
read_chunk-append b s rest arriving =
    rw (ltb-length (b ∷ s) rest) (rw (take_bytes-append s rest) refl)

read_chunks_done : (s : Bytes) (fuel : ℕ) → Decodes (read_chunks (suc fuel) (length s) s) [] s
unfolding read_chunks
read_chunks_done s fuel rest arriving =
    let done : ltb (length s) (length s) ≡ false = ground arith in rw done refl

read_chunks_lem : (s : Bytes) → Decodes (read_chunks (suc (length s)) (length s) []) s s
unfolding read_chunks
read_chunks_lem [] rest arriving = refl
read_chunks_lem (b ∷ s) rest arriving =
    let more : ltb 0 (length (b ∷ s)) ≡ true = ground arith in
    rw more (
      Decodes-end (read_chunk (length (b ∷ s)))
        (λ chunk. read_chunks (length (b ∷ s)) (length (b ∷ s)) ([] ++ chunk)) (b ∷ s) (b ∷ s)
        (b ∷ s) (read_chunk-append b s) (read_chunks_done (b ∷ s) (length s)) rest arriving)

pub read_string-string_to_bytes :
    (s : Bytes) → length s < 2 ^ 8 → Decodes read_string (string_to_bytes s) s
unfolding read_string string_to_bytes
read_string-string_to_bytes s h =
    let byte : uint8_to_byte (length s % 2 ^ 8) ≡ length s = omega arith in
    rw byte (read_chunks_lem s)

pub read_position-position_to_bytes :
    (p : Position) → p.x < 2 ^ 16 → p.y < 2 ^ 16 → Decodes read_position (position_to_bytes p) p
unfolding read_position position_to_bytes
read_position-position_to_bytes p hx hy =
    Decodes->>= read_uint16 _ (uint16_to_bytes p.x) (uint16_to_bytes p.y) p.x p
      (read_uint16-uint16_to_bytes p.x hx)
      (Decodes-last read_uint16 (λ y. record { x = p.x; y = y }) (uint16_to_bytes p.y) p.y
        (read_uint16-uint16_to_bytes p.y hy))

-- A player whose strings have a length that fits into a byte.
abbrev pub IsShort : Player → Type 0
IsShort player = (length player.name < 2 ^ 8) × (length player.address < 2 ^ 8)

pub read_player-player_to_bytes :
    (player : Player) → IsShort player → Decodes read_player (player_to_bytes player) player
unfolding read_player player_to_bytes
read_player-player_to_bytes player (hn, ha) =
    Decodes->>= read_string _ (string_to_bytes player.name) (string_to_bytes player.address)
      player.name player (read_string-string_to_bytes player.name hn)
      (Decodes-last read_string (λ a. record { name = player.name; address = a })
        (string_to_bytes player.address) player.address
        (read_string-string_to_bytes player.address ha))

-- A loop that reads as many elements as were written. What its body does with an element is `add`.
pub repeat-append_each :
    {A B : Type 0} (body : A → Reader A) (add : B → A → Result A) (to_bytes : B → Bytes)
    (IsFit : B → Type 0)
    → ((b : B) (acc acc' : A)
        → IsFit b
        → add b acc ≡ ok acc'
        → Decodes (body acc) (to_bytes b) acc')
    → (bs : List B) (acc acc' : A) → All IsFit bs
    → each add bs acc ≡ ok acc'
    → Decodes (repeat (length bs) body acc) (append_each to_bytes bs) acc'
unfolding repeat append_each
repeat-append_each body add to_bytes IsFit d [] acc acc' h e = λ rest arriving. cc
repeat-append_each body add to_bytes IsFit d (b ∷ bs) acc acc' (hb, hs) e =
    let (next, first, later) = ok->>= (add b acc) (each add bs) acc' e in
    Decodes->>= (body acc) _ (to_bytes b) (append_each to_bytes bs) next acc'
      (d b acc next hb first) (repeat-append_each body add to_bytes IsFit d bs next acc' hs later)

-- The same loop after its number of rounds.
pub sized_lem :
    {A B : Type 0} (body : A → Reader A) (add : B → A → Result A) (to_bytes : B → Bytes)
    (IsFit : B → Type 0)
    → ((b : B) (acc acc' : A)
        → IsFit b
        → add b acc ≡ ok acc'
        → Decodes (body acc) (to_bytes b) acc')
    → (bs : List B) (acc acc' : A) → length bs < 2 ^ 32
    → All IsFit bs
    → each add bs acc ≡ ok acc'
    → Decodes (read_uint32 >>= λ n. repeat n body acc) (sized to_bytes bs) acc'
unfolding sized
sized_lem body add to_bytes IsFit d bs acc acc' small h e =
    let n : length bs % 2 ^ 32 ≡ length bs = omega arith in
    rw n (
      Decodes->>= read_uint32 (λ n. repeat n body acc) (uint32_to_bytes (length bs))
        (append_each to_bytes bs) (length bs) acc' (read_uint32-uint32_to_bytes (length bs) small)
        (repeat-append_each body add to_bytes IsFit d bs acc acc' h e))

-- A loop whose body does not fail.
pub sized-fold :
    {A B : Type 0} (body : A → Reader A) (add : B → A → A) (to_bytes : B → Bytes)
    (IsFit : B → Type 0)
    → ((b : B) (acc : A) → IsFit b → Decodes (body acc) (to_bytes b) (add b acc))
    → (bs : List B) (acc : A) → length bs < 2 ^ 32
    → All IsFit bs
    → Decodes (read_uint32 >>= λ n. repeat n body acc) (sized to_bytes bs) (fold add bs acc)
sized-fold body add to_bytes IsFit d bs acc small h =
    sized_lem body (λ b acc'. ok (add b acc')) to_bytes IsFit
      (λ b before after fit e.
        subst (Decodes (body before) (to_bytes b)) (ok_inj e) (d b before fit))
      bs acc (fold add bs acc) small h (each-fold add bs acc)
