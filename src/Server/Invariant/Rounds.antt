-- ===== src/Server/Invariant/Rounds.antt =====
-- The loop of `manage_connections` keeps the invariant, for as long as the clients send messages
-- that the server can carry out.
use bomberrobots.Base.{
  ℕ, ◌≡◌, ◌≢◌, refl, sym, subst, ◌∙◌, Bool, inl, inr, List, [], ◌∷◌, ok, arith, if◌then◌else◌,
  Bool-cases, Option-cases, ◌>>=◌, Returns, Returns-mono, Returns->>=, Returns-if, Returns-ok,
  false≢true,
}
use bomberrobots.Containers.Maps.{Map, contains}
use bomberrobots.Events.{TurnInfo, turn_to_bytes}
use bomberrobots.Messages.{Player}
use bomberrobots.Server.Connections.{
  TcpHandler, new_handler, is_new_connection, accept_client, reset_revents, poll_exec, send_message,
}
use bomberrobots.Server.Connections.Table.{
  Addressed, new_handler-Addressed, Addressed-send_message, accept_client-Addressed,
  reset_revents-Addressed, poll_exec-Addressed,
}
use bomberrobots.Server.Engine.{
  Engine, ServerParameters, new_engine, send_hello, send_hello_state, hello_msg,
  accepted_player_msg, game_started_msg, send_turns, send_accepted_players,
}
use bomberrobots.Server.Turns.{begin_turn, summarise_turn}
use bomberrobots.Server.Rounds.{
  Round, PollStatus, poll_failed, poll_timeout, poll_events, greet, answer, round,
  manage_connections,
}
use bomberrobots.Server.Invariant.{IsPlayable, Lobby, Between}
use bomberrobots.Server.Invariant.Turns.{begin_turn-Playing, summarise_turn-Between}
use bomberrobots.Server.Invariant.Serving.{
  Within, with_tcp, Playing-with_tcp, Lobby-with_tcp, Within-with_tcp, Within-Addressed, IsCivil,
  serve_from-Within,
}

Addressed-send_turns :
    (i : ℕ) (turns : List TurnInfo) (h : TcpHandler)
    → Addressed h
    → Addressed (send_turns i turns h)
unfolding send_turns
Addressed-send_turns i [] h a = a
Addressed-send_turns i (turn ∷ turns) h a =
    Addressed-send_turns i turns _ (Addressed-send_message i (turn_to_bytes turn) h a)

Addressed-send_accepted_players :
    (i : ℕ) (players : Map Player) (h : TcpHandler)
    → Addressed h
    → Addressed (send_accepted_players i players h)
unfolding send_accepted_players
Addressed-send_accepted_players i [] h a = a
Addressed-send_accepted_players i ((id, player) ∷ players) h a =
    Addressed-send_accepted_players i players _
      (Addressed-send_message i (accepted_player_msg id player) h a)

-- Greeting a client changes nothing but the connections.
send_hello_state_lem :
    (i : ℕ) (e : Engine)
    → Addressed e.tcp_handler
    → (h : TcpHandler) × (send_hello_state i e ≡ with_tcp e h) × Addressed h
unfolding send_hello_state
send_hello_state_lem i e a = elim (Bool-cases e.gameplay_started) [
  | inl started ↦ (
    send_turns i e.turns (send_message i (game_started_msg e.players) e.tcp_handler),
    ground arith,
    Addressed-send_turns i e.turns _
        (Addressed-send_message i (game_started_msg e.players) e.tcp_handler a),
  )
  | inr waiting ↦ (
    send_accepted_players i e.players e.tcp_handler,
    ground arith,
    Addressed-send_accepted_players i e.players e.tcp_handler a,
  )
]

greet_lem :
    (r : Round) (e : Engine)
    → Addressed e.tcp_handler
    → (h : TcpHandler) × (greet r e ≡ with_tcp e h) × Addressed h
unfolding greet send_hello
greet_lem r e a =
    let h' = (accept_client r.accepted r.address e.tcp_handler).0 in
    let a' = accept_client-Addressed r.accepted r.address e.tcp_handler a in
    elim (Option-cases (accept_client r.accepted r.address e.tcp_handler).1) [
      | inl full ↦ (h', rw (full, greet), a')
      | inr (pos, taken) ↦
          (let hello = send_message 1 (hello_msg e.game_params) h' in
            let (h, state, a'') =
              send_hello_state_lem 1 (with_tcp e hello)
                (Addressed-send_message 1 (hello_msg e.game_params) h' a') in
            (h, rw (taken, greet) state, a''))
    ]

module _ (began : Bool) (r : Round) (civil : IsCivil began r) where
  greet-Within : (e : Engine) → Within began e → Within began (greet r e)
  greet-Within e v =
      let (h, same, a) = greet_lem r e (Within-Addressed began e v) in
      subst (Within began) (sym same) (Within-with_tcp began e h a v)

  answer_to :
      (p : PollStatus) (e : Engine)
      → r.poll ≡ p
      → p ≢ poll_failed
      → Within began e
      → Returns (Within began) (answer r e)
  unfolding answer
  answer_to poll_failed e at_p fine v = absurd (fine refl)
  answer_to poll_timeout e at_p fine v = rw (at_p, answer) v
  answer_to (poll_events events) e at_p fine v =
      let e' : Engine = with_tcp e (poll_exec e.tcp_handler events) in
      let v' : Within began e' =
        Within-with_tcp began e _
          (poll_exec-Addressed e.tcp_handler events (Within-Addressed began e v)) v in
      rw (at_p, answer)
        (Returns-if (Within began) r.interrupted _ _ (λ _. v')
          (λ _. serve_from-Within began r civil 25 1 0 _ refl (greeted e' v')))
    where
      greeted :
          (e' : Engine)
          → Within began e'
          → Within began (if is_new_connection e'.tcp_handler then greet r e' else e')
      greeted e' v' = elim (Bool-cases (is_new_connection e'.tcp_handler)) [
        | inl new ↦ rw new (greet-Within e' v')
        | inr old ↦ rw old v'
      ]

  settle :
      (e : Engine)
      → Within began e
      → Returns Between (if e.gameplay_started then summarise_turn e else ok e)
  settle e (inl v) =
      Returns-if Between e.gameplay_started _ _ (λ _. summarise_turn-Between e v)
        (λ no_game. absurd (false≢true (sym no_game ∙ v.started)))
  settle e (inr (v, w)) =
      Returns-if Between e.gameplay_started _ _ (λ game. absurd (false≢true (sym v.waiting ∙ game)))
        (λ _. inl v)

-- The engine in which a round begins.
abbrev reset_of : Engine → Engine
reset_of e = with_tcp e (reset_revents e.tcp_handler)

begin-Within :
    (e : Engine)
    → Between e
    → Returns
        (Within e.gameplay_started)
        (if e.gameplay_started then begin_turn (reset_of e) else ok (reset_of e))
begin-Within e (inl v) =
    Returns-if (Within e.gameplay_started) e.gameplay_started _ _
      (λ game. absurd (false≢true (sym v.waiting ∙ game)))
      (λ w.
        inr
          (Lobby-with_tcp e _ (reset_revents-Addressed e.tcp_handler v.consistent.addressed) v, w))
begin-Within e (inr (v, lt)) =
    Returns-if (Within e.gameplay_started) e.gameplay_started _ _
      (λ _.
        Returns-mono _ (Within e.gameplay_started) (begin_turn (reset_of e))
          (begin_turn-Playing (reset_of e)
            (Playing-with_tcp e _ (reset_revents-Addressed e.tcp_handler v.consistent.addressed) v)
            lt)
          (λ e' h. inl h.0))
      (λ no_game. absurd (false≢true (sym no_game ∙ v.started)))

-- A round ends without a failure, between two rounds of the lobby or of a game, if `poll` works
-- and the clients send messages that the server can carry out.
pub round-Between :
    (r : Round) (e : Engine)
    → Between e
    → r.poll ≢ poll_failed
    → IsCivil e.gameplay_started r
    → Returns Between (round r e)
unfolding round
round-Between r e v fine civil =
    Returns->>= (Within e.gameplay_started) Between
      (if e.gameplay_started then begin_turn (reset_of e) else ok (reset_of e)) _ (begin-Within e v)
      (λ begun w.
        Returns->>= (Within e.gameplay_started) Between (answer r begun) _
          (answer_to e.gameplay_started r civil r.poll begun refl fine w)
          (λ answered w'. settle e.gameplay_started r civil answered w'))

-- The rounds of a run, one after the other: in each `poll` works, and the clients are civil.
abbrev pub IsCivilRun : List Round → Engine → Type 0
IsCivilRun [] e = Unit
IsCivilRun (r ∷ rs) e =
    (r.poll ≢ poll_failed)
    × IsCivil e.gameplay_started r
    × ((e' : Engine) → round r e ≡ ok e' → IsCivilRun rs e')

pub manage_connections-Between :
    (rs : List Round) (e : Engine)
    → Between e
    → IsCivilRun rs e
    → Returns Between (manage_connections rs e)
unfolding manage_connections
manage_connections-Between [] e v civil = v
manage_connections-Between (r ∷ rs) e v (fine, civil, later) =
    let (e', ends, v') = Returns-ok Between (round r e) (round-Between r e v fine civil) in
    rw (ends, ◌>>=◌)
      (Returns-if Between r.interrupted (ok e') (manage_connections rs e') (λ _. v')
        (λ _. manage_connections-Between rs e' v' (later e' ends)))

new_engine-Lobby :
    (params : ServerParameters) (h : TcpHandler)
    → IsPlayable params
    → Addressed h
    → Lobby (new_engine params h)
unfolding new_engine contains
new_engine-Lobby params h p a = record {
  consistent = record {
    playable = p;
    addressed = a;
    robots = tt;
    blocks = tt;
    ids = tt;
    scored = λ id k. absurd (cc);
    doomed = tt;
  };
  waiting = refl;
  no_turns = refl;
  turn_zero = refl;
  no_robots = refl;
  no_bombs = refl;
  none_doomed = refl;
}

-- With playable parameters (a board that has cells, an explosion radius below 65535, sizes and a game
-- length of 16 bits) the server never fails, whatever the number of rounds, as long as `poll` works and
-- the clients send messages that it can carry out: in the end it is in the lobby, or in a game with turns
-- left.
pub server_runs :
    (params : ServerParameters) (socket_fd : ℕ) (rs : List Round)
    → IsPlayable params
    → IsCivilRun rs (new_engine params (new_handler socket_fd))
    → Returns Between (manage_connections rs (new_engine params (new_handler socket_fd)))
server_runs params socket_fd rs h civil =
    manage_connections-Between rs (new_engine params (new_handler socket_fd))
      (inl (new_engine-Lobby params (new_handler socket_fd) h (new_handler-Addressed socket_fd)))
      civil
