-- ===== src/Server/Rounds/Preserved.antt =====
-- game-engine.cpp: `manage_connections` keeps what its parts keep, for as long as they return.
use bomberrobots.Base.{
  ℕ, zero, suc, ◌+◌, ◌≡◌, refl, true, false, inl, inr, List, [], ◌∷◌, Option, none, some, ok, arith,
  Bool-cases, Option-cases, take, length, subst, sym, if◌then◌else◌, Ensures, Ensures->>=,
  Ensures-if,
}
use bomberrobots.Server.Connections.{
  TcpHandler, MessageRecvStatus, buf_size, accept_client, report_msg_status, is_message_from,
  reset_revents, poll_exec, is_new_connection, send_message,
}
use bomberrobots.Server.Engine.{
  Engine, send_hello, send_hello_state, send_turns, send_accepted_players, game_started_msg,
}
use bomberrobots.Server.Turns.{begin_turn, summarise_turn}
use bomberrobots.Server.Handlers.{
  ClientMessage, execute, Batch, last, invalid, endless, carry_out, handle_msg, read_batch,
}
use bomberrobots.Server.Rounds.{
  Round, PollStatus, poll_failed, poll_timeout, poll_events, greet, serve, serve_from, answer,
  round, manage_connections,
}

-- Greeting changes nothing but the connections.
send_hello_state_lem :
    (i : ℕ) (e : Engine) → (h : TcpHandler) × (send_hello_state i e ≡ record e { tcp_handler = h })
unfolding send_hello_state
send_hello_state_lem i e = elim (Bool-cases e.gameplay_started) [
  | inl started ↦ (
    send_turns i e.turns (send_message i (game_started_msg e.players) e.tcp_handler),
    ground arith,
  )
  | inr waiting ↦ (send_accepted_players i e.players e.tcp_handler, ground arith)
]

greet_lem : (r : Round) (e : Engine) → (h : TcpHandler) × (greet r e ≡ record e { tcp_handler = h })
unfolding greet send_hello
greet_lem r e = elim (Option-cases (accept_client r.accepted r.address e.tcp_handler).1) [
  | inl full ↦ ((accept_client r.accepted r.address e.tcp_handler).0, rw (full, greet) refl)
  | inr (pos, accepted) ↦
      (let e1 =
          send_hello 1
            (record e { tcp_handler = (accept_client r.accepted r.address e.tcp_handler).0 }) in
        let (h, same) = send_hello_state_lem 1 e1 in (h, rw (accepted, greet) same))
]

-- `P` holds between rounds, and `Q` within one, behind `begin_turn`. Neither looks at the connections.
module _ (P Q : Engine → Type 0)
    (P-tcp : (e : Engine) (h : TcpHandler) → P e → P (record e { tcp_handler = h }))
    (Q-tcp : (e : Engine) (h : TcpHandler) → Q e → Q (record e { tcp_handler = h }))
    (begins : (e : Engine) → P e → e.gameplay_started ≡ true → Ensures Q (begin_turn e))
    (idles : (e : Engine) → P e → e.gameplay_started ≡ false → Q e)
    (executes : (msg : ClientMessage) (i : ℕ) (e : Engine) → Q e → Ensures Q (execute msg i e))
    (ends : (e : Engine) → Q e → e.gameplay_started ≡ true → Ensures P (summarise_turn e))
    (rests : (e : Engine) → Q e → e.gameplay_started ≡ false → P e) where
  -- The status does not matter.
  abbrev AfterMessage : MessageRecvStatus × Engine → Type 0
  AfterMessage r = Q r.1

  carry_out-AfterMessage :
      (batch : Batch) (i : ℕ) (e : Engine) → Q e → Ensures AfterMessage (carry_out batch i e)
  unfolding carry_out
  carry_out-AfterMessage (last msg) i e w =
      let e' : Engine = record e { tcp_handler = record (e.tcp_handler) { current_buf = [] } } in
      Ensures->>= Q AfterMessage (execute msg i e') _
        (executes msg i e' (Q-tcp e (record (e.tcp_handler) { current_buf = [] }) w)) (λ e'' w'. w')
  carry_out-AfterMessage (invalid rest) i e w =
      Q-tcp e (record (e.tcp_handler) { current_buf = rest }) w
  carry_out-AfterMessage endless i e w = tt

  handle_msg-AfterMessage :
      (received : Option (List ℕ)) (i : ℕ) (e : Engine)
      → Q e
      → Ensures AfterMessage (handle_msg received i e)
  unfolding handle_msg
  handle_msg-AfterMessage none i e w = Q-tcp e (record (e.tcp_handler) { current_buf = [] }) w
  handle_msg-AfterMessage (some []) i e w = Q-tcp e (record (e.tcp_handler) { current_buf = [] }) w
  handle_msg-AfterMessage (some (b ∷ buf)) i e w =
      let front = take (b ∷ buf) buf_size in
      let h : TcpHandler = record (e.tcp_handler) { current_buf = front } in
      carry_out-AfterMessage (read_batch (length front) front) i (record e { tcp_handler = h })
        (Q-tcp e h w)

  serve_from_kept : (n i : ℕ) (r : Round) (e : Engine) → Q e → Ensures Q (serve_from n i r e)
  unfolding serve_from serve
  serve_from_kept zero i r e w = w
  serve_from_kept (suc n) i r e w =
      Ensures->>= Q Q (serve r i e) (serve_from n (i + 1) r)
        (Ensures-if Q (is_message_from i e.tcp_handler) _ (ok e)
          (λ spoke.
            Ensures->>= AfterMessage Q (handle_msg (r.received i) i e) _
              (handle_msg-AfterMessage (r.received i) i e w)
              (λ a w'. Q-tcp a.1 (report_msg_status a.0 i a.1.tcp_handler) w'))
          (λ silent. w))
        (λ e' w'. serve_from_kept n (i + 1) r e' w')

  greet_kept : (r : Round) (e : Engine) → Q e → Q (greet r e)
  greet_kept r e w = let (h, same) = greet_lem r e in subst Q (sym same) (Q-tcp e h w)

  answer_kept :
      (p : PollStatus) (r : Round) (e : Engine) → r.poll ≡ p → Q e → Ensures Q (answer r e)
  unfolding answer
  answer_kept poll_failed r e h w = rw (h, answer) tt
  answer_kept poll_timeout r e h w = rw (h, answer) w
  answer_kept (poll_events events) r e h w =
      let e' : Engine = record e { tcp_handler = poll_exec e.tcp_handler events } in
      let w' : Q e' = Q-tcp e (poll_exec e.tcp_handler events) w in
      rw (h, answer)
        (Ensures-if Q r.interrupted (ok e') _ (λ _. w')
          (λ _.
            serve_from_kept 25 1 r (if is_new_connection e'.tcp_handler then greet r e' else e')
              (greeted e' w')))
    where
      greeted :
          (e' : Engine) → Q e' → Q (if is_new_connection e'.tcp_handler then greet r e' else e')
      greeted e' w' = elim (Bool-cases (is_new_connection e'.tcp_handler)) [
        | inl new ↦ rw new (greet_kept r e' w')
        | inr old ↦ rw old w'
      ]

  round_kept : (r : Round) (e : Engine) → P e → Ensures P (round r e)
  unfolding round
  round_kept r e w =
      let e0 : Engine = record e { tcp_handler = reset_revents e.tcp_handler } in
      let w0 : P e0 = P-tcp e (reset_revents e.tcp_handler) w in
      Ensures->>= Q P (if e.gameplay_started then begin_turn e0 else ok e0) _
        (Ensures-if Q e.gameplay_started (begin_turn e0) (ok e0) (begins e0 w0) (idles e0 w0))
        (λ begun w1.
          Ensures->>= Q P (answer r begun) _ (answer_kept r.poll r begun refl w1) (λ answered w2.
            Ensures-if P answered.gameplay_started (summarise_turn answered) (ok answered)
              (ends answered w2) (rests answered w2)))

  pub manage_connections_kept :
      (rs : List Round) (e : Engine) → P e → Ensures P (manage_connections rs e)
  unfolding manage_connections
  manage_connections_kept [] e w = w
  manage_connections_kept (r ∷ rs) e w = Ensures->>= P P (round r e) _ (round_kept r e w) (λ e' w'.
      Ensures-if P r.interrupted (ok e') (manage_connections rs e') (λ _. w')
        (λ _. manage_connections_kept rs e' w'))
