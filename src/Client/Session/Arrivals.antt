-- ===== src/Client/Session/Arrivals.antt =====
-- The client's loop against messages of the server, of which each call of `read_some` brings one or
-- more, whole.
use bomberrobots.Base.{
  ℕ, ◌<◌, ◌≤◌, ◌≡◌, refl, sym, ap, ◌∙◌, List, [], ◌∷◌, ◌++◌, flatten, cons≢nil, head-eq_of_cons-eq,
  tail-eq_of_cons-eq, subst, map, take, drop, take-length, drop-length, length, arith, Option, some,
  ok, ok->>=, each, All,
}
use bomberrobots.Messages.{Bytes}
use bomberrobots.Encoding.{append_each}
use bomberrobots.Server.Engine.{hello_msg, accepted_player_msg, game_started_msg}
use bomberrobots.Events.{turn_to_bytes}
use bomberrobots.Client.Stream.{
  Stream, ◌>>=◌, read_uint8, read_if_buf_empty, read_server, take_byte, repeat,
}
use bomberrobots.Client.Session.{Client, handle_server_message, handle_server_messages}
use bomberrobots.Client.Session.Spec.{
  ServerMessage, hello, accepted_player, game_started, turn, game_ended, server_bytes, understand,
  IsSendable,
}
use bomberrobots.Client.Session.Follows.{handle_server_message_lem}

-- The bytes of messages that a call of `read_some` brings.
abbrev pub arrival : List ServerMessage → Option Bytes
arrival group = some (append_each server_bytes group)

-- A call brings something, and at most what the client's buffer keeps.
abbrev pub IsArrival : List ServerMessage → Type 0
IsArrival group = (0 < length group) × (length (append_each server_bytes group) ≤ 256)

-- The messages `now` are in the buffer, and the groups are what the coming calls bring.
abbrev pub waiting : List ServerMessage → List (List ServerMessage) → List (Option Bytes) → Stream
waiting now groups more = record {
  current_buf = append_each server_bytes now;
  arriving = map arrival groups ++ more;
}

server_bytes_lem :
    (msg : ServerMessage) → (code : ℕ) × (payload : Bytes) × (server_bytes msg ≡ code ∷ payload)
unfolding server_bytes hello_msg accepted_player_msg game_started_msg turn_to_bytes
server_bytes_lem (hello params) = (_, _, refl)
server_bytes_lem (accepted_player id player) = (_, _, refl)
server_bytes_lem (game_started players) = (_, _, refl)
server_bytes_lem (turn info) = (_, _, refl)
server_bytes_lem (game_ended scores) = (_, _, refl)

-- A call that brings something which fits into the buffer.
refill :
    (c : Client) (b : ℕ) (bs : Bytes) (more : List (Option Bytes))
    → length (b ∷ bs) ≤ 256
    → handle_server_message c (record { current_buf = []; arriving = some (b ∷ bs) ∷ more })
      ≡ handle_server_message c (record { current_buf = b ∷ bs; arriving = more })
unfolding handle_server_message read_uint8 read_if_buf_empty read_server take_byte
refill c b bs more h =
    let whole : take bs 255 ≡ bs = take-length bs 255 (omega arith) in
    let gone : drop bs 255 ≡ [] = drop-length bs 255 (omega arith) in rw (whole, gone) refl

refill_messages :
    (c : Client) (msg : ServerMessage) (now : List ServerMessage) (more : List (Option Bytes))
    → length (append_each server_bytes (msg ∷ now)) ≤ 256
    → handle_server_message c (record { current_buf = []; arriving = arrival (msg ∷ now) ∷ more })
      ≡ handle_server_message c
          (record { current_buf = append_each server_bytes (msg ∷ now); arriving = more })
unfolding append_each
refill_messages c msg now more h =
    let (code, payload, same) = server_bytes_lem msg in
    let front : server_bytes msg ++ append_each server_bytes now
        ≡ code ∷ (payload ++ append_each server_bytes now) =
      ap (λ bs. bs ++ append_each server_bytes now) same in
    ap (λ bs. handle_server_message c (record { current_buf = []; arriving = some bs ∷ more }))
      front
    ∙ refill c code (payload ++ append_each server_bytes now) more
        (subst (λ bs. length bs ≤ 256) front h)
    ∙ sym (ap (λ bs. handle_server_message c (record { current_buf = bs; arriving = more })) front)

-- The next message is handled with its bytes at the front of the buffer. After it other messages wait.
abbrev Next :
    ServerMessage → List ServerMessage → List ServerMessage → List (List ServerMessage) → Type 0
Next msg msgs now groups =
    (now' : List ServerMessage) × (groups' : List (List ServerMessage)) × All IsArrival groups'
    × (now' ++ flatten groups' ≡ msgs)
    × ((c : Client) (more : List (Option Bytes))
        → handle_server_message c (waiting now groups more)
          ≡ handle_server_message c (record {
            current_buf = server_bytes msg ++ append_each server_bytes now';
            arriving = map arrival groups' ++ more;
          }))

pub waiting-Next :
    (msg : ServerMessage) (msgs now : List ServerMessage) (groups : List (List ServerMessage))
    → All IsArrival groups
    → now ++ flatten groups ≡ msg ∷ msgs
    → Next msg msgs now groups
unfolding append_each flatten
waiting-Next msg msgs (m ∷ now) groups h same =
    let first : m ≡ msg = head-eq_of_cons-eq same in
    (
      now,
      groups,
      h,
      tail-eq_of_cons-eq same,
      λ c more.
          ap
            (λ x. handle_server_message c (record {
              current_buf = server_bytes x ++ append_each server_bytes now;
              arriving = map arrival groups ++ more;
            }))
            first,
    )
waiting-Next msg msgs [] [] h same = absurd (cons≢nil (sym same))
waiting-Next msg msgs [] ([] ∷ groups) ((some_bytes, fits), h) same = absurd (omega arith)
waiting-Next msg msgs [] ((m ∷ now) ∷ groups) ((some_bytes, fits), h) same =
    let first : m ≡ msg = head-eq_of_cons-eq same in
    (
      now,
      groups,
      h,
      tail-eq_of_cons-eq same,
      λ c more.
          refill_messages c m now (map arrival groups ++ more) fits
          ∙ ap
              (λ x. handle_server_message c (record {
                current_buf = server_bytes x ++ append_each server_bytes now;
                arriving = map arrival groups ++ more;
              }))
              first,
    )

-- When no message is left, nothing of the groups is.
waiting_end :
    (now : List ServerMessage) (groups : List (List ServerMessage)) (more : List (Option Bytes))
    → All IsArrival groups
    → now ++ flatten groups ≡ []
    → waiting now groups more ≡ record { current_buf = []; arriving = more }
unfolding append_each flatten
waiting_end [] [] more h same = refl
waiting_end [] ([] ∷ groups) more ((some_bytes, fits), h) same = absurd (omega arith)
waiting_end [] ((m ∷ now) ∷ groups) more h same = absurd (cons≢nil same)
waiting_end (m ∷ now) groups more h same = absurd (cons≢nil same)

pub messages_lem :
    (msgs now : List ServerMessage) (groups : List (List ServerMessage)) (c c' : Client)
    (more : List (Option Bytes))
    → All IsArrival groups
    → now ++ flatten groups ≡ msgs
    → All IsSendable msgs
    → each understand msgs c ≡ ok c'
    → handle_server_messages (length msgs) c (waiting now groups more)
      ≡ ok (c', record { current_buf = []; arriving = more })
unfolding handle_server_messages repeat
messages_lem [] now groups c c' more h same s u =
    let done = waiting_end now groups more h same in cc
messages_lem (msg ∷ msgs) now groups c c' more h same (s, ss) u =
    let (now', groups', h', same', next) = waiting-Next msg msgs now groups h same in
    let (c1, understood, u') = ok->>= (understand msg c) (each understand msgs) c' u in
    let handled : handle_server_message c (waiting now groups more)
        ≡ ok (c1, waiting now' groups' more) =
      next c more
      ∙ handle_server_message_lem msg c c1 s understood (append_each server_bytes now')
          (map arrival groups' ++ more) in
    rw (handled, ◌>>=◌) (messages_lem msgs now' groups' c1 c' more h' same' ss u')

-- The client keeps up with the server, where each of its calls of `read_some` brings one or more whole
-- messages, of at most 256 bytes together, which is what its buffer keeps: let the values of the
-- messages be in the ranges of their types and the strings shorter than 256 bytes. Where the messages,
-- understood one after the other, lead from one state to another, as many rounds of the client's loop
-- lead there too, and have read exactly what was brought.
pub handle_server_messages-arrival :
    (groups : List (List ServerMessage)) (c c' : Client) (more : List (Option Bytes))
    → All IsArrival groups
    → All IsSendable (flatten groups)
    → each understand (flatten groups) c ≡ ok c'
    → handle_server_messages
        (length (flatten groups))
        c
        (record { current_buf = []; arriving = map arrival groups ++ more })
      ≡ ok (c', record { current_buf = []; arriving = more })
unfolding append_each
handle_server_messages-arrival groups c c' more h s u =
    messages_lem (flatten groups) [] groups c c' more h refl s u
