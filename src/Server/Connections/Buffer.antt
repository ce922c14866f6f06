-- ===== src/Server/Connections/Buffer.antt =====
-- server-tcp-handler.cpp: what `handle_msg` takes off the buffer that `read_from` filled. A step may throw
-- `MsgException` (`none`), and leaves the buffer as far as it came.
use bomberrobots.Base.{ℕ, zero, suc, [], ◌∷◌, Option, none, some, ltb, if◌then◌else◌, length}
use bomberrobots.Messages.{Bytes}

-- Steps over the bytes left in the buffer.
abbrev pub Reads : Type 0 → Type 0
Reads A = Bytes → Option A × Bytes

infixl 5 ◌>>=◌ ◌>>◌
abbrev pub ◌>>=◌ : {A B : Type 0} → Reads A → (A → Reads B) → Reads B
◌>>=◌ m f buf = let (r, rest) = m buf in elim r [ none ↦ (none, rest) | some a ↦ f a rest ]

abbrev pub ◌>>◌ : {B : Type 0} → Reads (Unit {0}) → Reads B → Reads B
m >> k = m >>= λ _. k

abbrev pub pure : {A : Type 0} → A → Reads A
pure a buf = (some a, buf)

abbrev pub throw : {A : Type 0} → Reads A
throw buf = (none, buf)

unfoldable pub read_uint8 : Reads ℕ
read_uint8 [] = (none, [])
read_uint8 (b ∷ buf) = (some b, buf)

-- The first `n` bytes of a buffer, and the others: `current_buf_update`.
unfoldable pub split_at : ℕ → Bytes → Bytes × Bytes
split_at zero buf = ([], buf)
split_at (suc n) [] = ([], [])
split_at (suc n) (b ∷ buf) = let (front, rest) = split_at n buf in (b ∷ front, rest)

unfoldable pub take_string : ℕ → Reads Bytes
unfolding split_at
take_string str_length buf =
    if ltb (length buf) str_length
    then (none, buf)
    else (let (str, rest) = split_at str_length buf in (some str, rest))

unfoldable pub read_string : Reads Bytes
unfolding read_uint8 take_string
read_string = do str_length ← read_uint8; take_string str_length
