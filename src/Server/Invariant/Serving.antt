-- ===== src/Server/Invariant/Serving.antt =====
-- Serving the clients in a round keeps the invariant, for as long as they send messages that the
-- server can carry out.
use bomberrobots.Base.{
  ℕ, zero, suc, ◌+◌, ◌≡◌, ◌≢◌, refl, sym, subst, ◌∙◌, ◌⊎◌, Bool, true, false, inl, inr, List, [],
  ◌∷◌, Option, none, some, ok, arith, Bool-cases, Option-cases, take, length, or_fail, Returns,
  Returns-mono, Returns->>=, get_elem?,
}
use bomberrobots.Containers.Maps.{find-contains}
use bomberrobots.Messages.{Bytes}
use bomberrobots.Server.Connections.{
  TcpHandler, Pollfd, buf_size, descriptor, is_message_from, get_address, MessageRecvStatus,
  success,
}
use bomberrobots.Server.Connections.Table.{Addressed, report_msg_status-Addressed}
use bomberrobots.Server.Engine.{Engine}
use bomberrobots.Server.Handlers.{
  ClientMessage, join, place_bomb, place_block, move, Batch, last, invalid, endless, read_batch,
  carry_out, execute, handle_msg,
}
use bomberrobots.Server.Handlers.Batches.{read_batch_ends}
use bomberrobots.Server.Rounds.{Round, serve, serve_from}
use bomberrobots.Server.Invariant.{Consistent, Playing, Lobby}
use bomberrobots.Server.Invariant.Robots.{Continues}
use bomberrobots.Server.Invariant.Handlers.{IsValid, IsJoin, execute-Playing, join-Lobby, Begins}

-- Within a round: a game is played, or the round began in the lobby and no game has started yet.
abbrev pub Within : Bool → Engine → Type 0
Within began e = Playing e ⊎ (Lobby e × (began ≡ false))

abbrev pub with_tcp : Engine → TcpHandler → Engine
with_tcp e h = record e { tcp_handler = h }

Consistent-with_tcp :
    (e : Engine) (h : TcpHandler) → Addressed h → Consistent e → Consistent (with_tcp e h)
Consistent-with_tcp e h a c = record {
  playable = c.playable;
  addressed = a;
  robots = c.robots;
  blocks = c.blocks;
  ids = c.ids;
  scored = c.scored;
  doomed = c.doomed;
}

pub Playing-with_tcp :
    (e : Engine) (h : TcpHandler) → Addressed h → Playing e → Playing (with_tcp e h)
Playing-with_tcp e h a v = record {
  consistent = Consistent-with_tcp e h a v.consistent;
  started = v.started;
  history = v.history;
  turn_le = v.turn_le;
  placed = v.placed;
}

pub Lobby-with_tcp : (e : Engine) (h : TcpHandler) → Addressed h → Lobby e → Lobby (with_tcp e h)
Lobby-with_tcp e h a v = record {
  consistent = Consistent-with_tcp e h a v.consistent;
  waiting = v.waiting;
  no_turns = v.no_turns;
  turn_zero = v.turn_zero;
  no_robots = v.no_robots;
  no_bombs = v.no_bombs;
  none_doomed = v.none_doomed;
}

pub Within-with_tcp :
    (began : Bool) (e : Engine) (h : TcpHandler)
    → Addressed h
    → Within began e
    → Within began (with_tcp e h)
Within-with_tcp began e h a (inl v) = inl (Playing-with_tcp e h a v)
Within-with_tcp began e h a (inr (v, w)) = inr (Lobby-with_tcp e h a v, w)

pub Within-Addressed : (began : Bool) (e : Engine) → Within began e → Addressed e.tcp_handler
Within-Addressed began e (inl v) = v.consistent.addressed
Within-Addressed began e (inr (v, w)) = v.consistent.addressed

-- A message that the server can carry out: its direction is valid, and in a round that began in
-- the lobby it is a `join`.
abbrev pub IsTimely : Bool → ClientMessage → Type 0
IsTimely began msg = IsValid msg × (began ≡ false → IsJoin msg)

-- Whatever is read in a round from any position is invalid, or ends in such a message.
abbrev pub IsCivil : Bool → Round → Type 0
IsCivil began r =
    (i : ℕ) (buf : Bytes) (msg : ClientMessage)
    → r.received i ≡ some buf
    → read_batch (length (take buf buf_size)) (take buf buf_size) ≡ last msg
    → IsTimely began msg

execute-Within :
    (began : Bool) (msg : ClientMessage) (i : ℕ) (address : Bytes) (e : Engine)
    → get_address i e.tcp_handler ≡ ok address
    → IsTimely began msg
    → Within began e
    → Returns (Within began) (execute msg i e)
execute-Within began msg i address e at_i (valid, joins) (inl v) =
    Returns-mono (Continues e) (Within began) (execute msg i e) (execute-Playing msg i e v valid)
      (λ e' h. inl h.0)
execute-Within began (join name) i address e at_i (valid, joins) (inr (v, w)) =
    Returns-mono Begins (Within began) (execute (join name) i e)
      (join-Lobby name address i e v at_i) go
  where
    go : (e' : Engine) → Begins e' → Within began e'
    go e' (inl v') = inr (v', w)
    go e' (inr h) = inl h.0
execute-Within began place_bomb i address e at_i (valid, joins) (inr (v, w)) = absurd (joins w)
execute-Within began place_block i address e at_i (valid, joins) (inr (v, w)) = absurd (joins w)
execute-Within began (move d) i address e at_i (valid, joins) (inr (v, w)) = absurd (joins w)

-- The status does not matter to the engine's state.
abbrev pub Outcome : Bool → MessageRecvStatus × Engine → Type 0
Outcome began r = Within began r.1

carry_out-Within :
    (began : Bool) (batch : Batch) (i : ℕ) (address : Bytes) (e : Engine)
    → get_address i e.tcp_handler ≡ ok address
    → batch ≢ endless
    → ((msg : ClientMessage) → batch ≡ last msg → IsTimely began msg)
    → Within began e
    → Returns (Outcome began) (carry_out batch i e)
unfolding carry_out
carry_out-Within began (last msg) i address e at_i ends civil v =
    let e' : Engine = with_tcp e (record (e.tcp_handler) { current_buf = [] }) in
    Returns->>= (Within began) (Outcome began) (execute msg i e') (λ e''. ok (success, e''))
      (execute-Within began msg i address e' at_i (civil msg refl)
        (Within-with_tcp began e _ (Within-Addressed began e v) v))
      (λ e'' h. h)
carry_out-Within began (invalid rest) i address e at_i ends civil v =
    Within-with_tcp began e _ (Within-Addressed began e v) v
carry_out-Within began endless i address e at_i ends civil v = absurd (ends refl)

handle_msg-Within :
    (began : Bool) (received : Option Bytes) (i : ℕ) (address : Bytes) (e : Engine)
    → get_address i e.tcp_handler ≡ ok address
    → ((buf : Bytes) (msg : ClientMessage)
        → received ≡ some buf
        → read_batch (length (take buf buf_size)) (take buf buf_size) ≡ last msg
        → IsTimely began msg)
    → Within began e
    → Returns (Outcome began) (handle_msg received i e)
unfolding handle_msg
handle_msg-Within began none i address e at_i civil v =
    Within-with_tcp began e _ (Within-Addressed began e v) v
handle_msg-Within began (some []) i address e at_i civil v =
    Within-with_tcp began e _ (Within-Addressed began e v) v
handle_msg-Within began (some (b ∷ buf)) i address e at_i civil v =
    let front = take (b ∷ buf) buf_size in
    let e' : Engine = with_tcp e (record (e.tcp_handler) { current_buf = front }) in
    carry_out-Within began (read_batch (length front) front) i address e' at_i
      (read_batch_ends (length front) front (omega arith) (omega arith))
      (λ msg h. civil (b ∷ buf) msg refl h)
      (Within-with_tcp began e _ (Within-Addressed began e v) v)

descriptor-get_elem? :
    (i : ℕ) (ds : List Pollfd) {d : Pollfd} → get_elem? ds i ≡ some d → descriptor i ds ≡ d.fd
unfolding descriptor
descriptor-get_elem? i [] h = cc
descriptor-get_elem? zero (x ∷ ds) h = ground arith
descriptor-get_elem? (suc i) (x ∷ ds) h = descriptor-get_elem? i ds h

sender_open :
    (i : ℕ) (h : TcpHandler)
    → is_message_from i h ≡ true
    → (fd : ℕ) × (descriptor i h.poll_descriptors ≡ some fd)
unfolding is_message_from
sender_open i h e = elim (Option-cases (get_elem? h.poll_descriptors i)) [
  | inl outside ↦ absurd (let e' = rw (outside, is_message_from) at e in cc)
  | inr (d, at_i) ↦ (elim (Option-cases d.fd) [
    | inl shut ↦ absurd (let e' = rw (at_i, is_message_from) at e in ground arith)
    | inr (fd, opened) ↦ (fd, descriptor-get_elem? i h.poll_descriptors at_i ∙ opened)
  ])
]

-- A client that sent something has an address.
sender_address :
    (i : ℕ) (h : TcpHandler)
    → Addressed h
    → is_message_from (suc i) h ≡ true
    → (address : Bytes) × (get_address (suc i) h ≡ ok address)
unfolding get_address
sender_address i h a e =
    let (fd, opened) = sender_open (suc i) h e in
    let (address, found) = find-contains (suc i) h.addresses (a i fd opened) in
    (address, rw (found, or_fail))

module _ (began : Bool) (r : Round) (civil : IsCivil began r) where
  serve-Within : (i : ℕ) (e : Engine) → Within began e → Returns (Within began) (serve r (suc i) e)
  unfolding serve
  serve-Within i e v = elim (Bool-cases (is_message_from (suc i) e.tcp_handler)) [
    | inr silent ↦ rw (silent, serve) v
    | inl spoke ↦
        (let (address, at_i) = sender_address i e.tcp_handler (Within-Addressed began e v) spoke in
          rw (spoke, serve)
            (Returns->>= (Outcome began) (Within began) (handle_msg (r.received (suc i)) (suc i) e)
              _
              (handle_msg-Within began (r.received (suc i)) (suc i) address e at_i (civil (suc i))
                v)
              (λ a w.
                Within-with_tcp began a.1 _
                  (report_msg_status-Addressed a.0 (suc i) _ (Within-Addressed began a.1 w)) w)))
  ]

  pub serve_from-Within :
      (n i j : ℕ) (e : Engine)
      → i ≡ suc j
      → Within began e
      → Returns (Within began) (serve_from n i r e)
  unfolding serve_from
  serve_from-Within zero i j e at_j v = v
  serve_from-Within (suc n) i j e at_j v =
      Returns->>= (Within began) (Within began) (serve r i e) (serve_from n (i + 1) r)
        (subst (λ k. Returns (Within began) (serve r k e)) (sym at_j) (serve-Within j e v))
        (λ e' w. serve_from-Within n (i + 1) i e' (omega arith) w)
