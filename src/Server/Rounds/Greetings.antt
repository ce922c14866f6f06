-- ===== src/Server/Rounds/Greetings.antt =====
-- game-engine.cpp, `manage_connections`: to whom Hello and the state of the game are sent.
use bomberrobots.Base.{
  ℕ, ◌≡◌, ◌≢◌, refl, sym, ap, subst, ◌∙◌, false, inl, inr, List, [], ◌∷◌, ◌++◌, append-nil,
  append_assoc, some, arith, ◌==◌, Bool-cases, Option-cases, All, All-mono, All-append,
}
use bomberrobots.Containers.Maps.{Map}
use bomberrobots.Messages.{Bytes, Player}
use bomberrobots.Events.{TurnInfo, turn_to_bytes}
use bomberrobots.Server.Connections.{TcpHandler, descriptor, accept_client, send_message}
use bomberrobots.Server.Connections.Table.{accept_client_lem, accept_client-sent}
use bomberrobots.Server.Engine.{
  Engine, hello_msg, accepted_player_msg, game_started_msg, send_hello, send_turns,
  send_accepted_players, send_hello_state,
}
use bomberrobots.Server.Rounds.{Round, greet}

-- `h'` comes from `h` by sends to the descriptor at position `i` alone.
abbrev SentTo : ℕ → TcpHandler → TcpHandler → Type 0
SentTo i h h' =
    (news : List (ℕ × Bytes)) × (h'.sent ≡ h.sent ++ news)
    × (h'.poll_descriptors ≡ h.poll_descriptors)
    × All (λ m. descriptor i h.poll_descriptors ≡ some m.0) news

send_message-SentTo : (i : ℕ) (msg : Bytes) (h : TcpHandler) → SentTo i h (send_message i msg h)
unfolding send_message
send_message-SentTo i msg h = elim (Option-cases (descriptor i h.poll_descriptors)) [
  | inl shut ↦
      ([], rw (shut, send_message) (sym (append-nil h.sent)), rw (shut, send_message) refl, tt)
  | inr (fd, opened) ↦
      ((fd, msg) ∷ [], rw (opened, send_message) refl, rw (opened, send_message) refl, (opened, tt))
]

SentTo-trans : (i : ℕ) (h h' h'' : TcpHandler) → SentTo i h h' → SentTo i h' h'' → SentTo i h h''
SentTo-trans i h h' h'' (news, same, table, to) (news', same', table', to') = (
  news ++ news',
  same' ∙ ap (λ sent. sent ++ news') same ∙ append_assoc h.sent news news',
  table' ∙ table,
  All-append (λ m. descriptor i h.poll_descriptors ≡ some m.0) news news' to
      (subst (λ ds. All (λ m. descriptor i ds ≡ some m.0) news') table to'),
)

send_turns-SentTo :
    (i : ℕ) (turns : List TurnInfo) (h : TcpHandler) → SentTo i h (send_turns i turns h)
unfolding send_turns
send_turns-SentTo i [] h = ([], sym (append-nil h.sent), refl, tt)
send_turns-SentTo i (turn ∷ turns) h =
    let h' = send_message i (turn_to_bytes turn) h in
    SentTo-trans i h h' (send_turns i turns h') (send_message-SentTo i (turn_to_bytes turn) h)
      (send_turns-SentTo i turns h')

send_accepted_players-SentTo :
    (i : ℕ) (players : Map Player) (h : TcpHandler) → SentTo i h (send_accepted_players i players h)
unfolding send_accepted_players
send_accepted_players-SentTo i [] h = ([], sym (append-nil h.sent), refl, tt)
send_accepted_players-SentTo i ((id, player) ∷ players) h =
    let h' = send_message i (accepted_player_msg id player) h in
    SentTo-trans i h h' (send_accepted_players i players h')
      (send_message-SentTo i (accepted_player_msg id player) h)
      (send_accepted_players-SentTo i players h')

send_hello_state-SentTo :
    (i : ℕ) (e : Engine) → SentTo i e.tcp_handler (send_hello_state i e).tcp_handler
unfolding send_hello_state
send_hello_state-SentTo i e = elim (Bool-cases e.gameplay_started) [
  | inl started ↦
      (let h = send_message i (game_started_msg e.players) e.tcp_handler in
        let same : (send_hello_state i e).tcp_handler ≡ send_turns i e.turns h =
          rw (started, send_hello_state) refl in
        subst (SentTo i e.tcp_handler) (sym same) (
          SentTo-trans i e.tcp_handler h (send_turns i e.turns h)
            (send_message-SentTo i (game_started_msg e.players) e.tcp_handler)
            (send_turns-SentTo i e.turns h)))
  | inr waiting ↦
      (let same : (send_hello_state i e).tcp_handler
            ≡ send_accepted_players i e.players e.tcp_handler =
          rw (waiting, send_hello_state) refl in
        subst (SentTo i e.tcp_handler) (sym same)
          (send_accepted_players-SentTo i e.players e.tcp_handler))
]

-- A client that is accepted at any other position than 1 is greeted with nothing: of all that is sent
-- then, nothing goes to its descriptor. (Two open positions do not share a descriptor.)
pub greet_misses :
    (r : Round) (e : Engine) (i fd : ℕ)
    → (accept_client r.accepted r.address e.tcp_handler).1 ≡ some i
    → i ≢ 1
    → r.accepted ≡ some fd
    → descriptor 1 e.tcp_handler.poll_descriptors ≢ some fd
    → (news : List (ℕ × Bytes)) × ((greet r e).tcp_handler.sent ≡ e.tcp_handler.sent ++ news)
      × All (λ m. m.0 ≢ fd) news
unfolding greet send_hello
greet_misses r e i fd accepted other is_fd distinct =
    let h = (accept_client r.accepted r.address e.tcp_handler).0 in
    let (pos, free, found, table) =
      accept_client_lem r.accepted r.address e.tcp_handler i accepted in
    let e1 : Engine = record e { tcp_handler = h } in
    let e2 = send_hello 1 e1 in
    let (news, sent, same, to) =
      SentTo-trans 1 h e2.tcp_handler (send_hello_state 1 e2).tcp_handler
        (send_message-SentTo 1 (hello_msg e.game_params) h) (send_hello_state-SentTo 1 e2) in
    let elsewhere : (i == 1) ≡ false = ground arith in
    let kept : descriptor 1 h.poll_descriptors ≡ descriptor 1 e.tcp_handler.poll_descriptors =
      rw elsewhere at (table 1) in
    (
      news,
      rw (accepted, greet)
          (sent ∙ ap (λ s. s ++ news) (accept_client-sent r.accepted r.address e.tcp_handler)),
      All-mono (λ m. descriptor 1 h.poll_descriptors ≡ some m.0) (λ m. m.0 ≢ fd) news
          (λ m at_m same_fd. distinct (sym kept ∙ at_m ∙ ap some same_fd)) to,
    )
