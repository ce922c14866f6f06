-- ===== src/Server/Rounds.antt =====
-- game-engine.cpp: `manage_connections`. A round is one pass of its loop, with what the system
-- calls gave in it; the server runs through the rounds until it is told to finish. The waiting
-- (`sleep_for`, the time-out of `poll`) is left out.
pub mod Slots
pub mod Greetings
pub mod Preserved
use bomberrobots.Base.{
  ℕ, zero, suc, ◌+◌, Bool, List, [], ◌∷◌, Option, none, some, Result, ok, err, exited, ◌>>=◌,
  if◌then◌else◌,
}
use bomberrobots.Messages.{Bytes}
use bomberrobots.Server.Connections.{
  reset_revents, poll_exec, is_new_connection, is_message_from, accept_client, report_msg_status,
}
use bomberrobots.Server.Engine.{Engine, send_hello, send_hello_state}
use bomberrobots.Server.Turns.{begin_turn, summarise_turn}
use bomberrobots.Server.Handlers.{handle_msg}

pub data PollStatus : Type 0 where
  -- -1, 0, and the events of each descriptor where the result is positive
  poll_failed poll_timeout : PollStatus
  poll_events : List (Bool × Bool) → PollStatus

pub record Round : Type 0 where
  pub poll : PollStatus
  -- `finish_server` after `poll`
  pub interrupted : Bool
  -- the result of `accept`, and the client's address
  pub accepted : Option ℕ
  pub address : Bytes
  -- what waits to be read at each position, or `none` where `read` fails
  pub received : ℕ → Option Bytes

-- `if (int i = tcp_handler.accept_client() >= 0)`: `i` is the truth value of the comparison.
unfoldable pub greet : Round → Engine → Engine
unfolding accept_client send_hello send_hello_state
greet r e =
    let (h, accepted_pos) = accept_client r.accepted r.address e.tcp_handler in
    let e' = record e { tcp_handler = h } in
    elim accepted_pos [
      | none ↦ e'
      | some pos ↦ (let i : ℕ = 1 in send_hello_state i (send_hello i e'))
    ]

-- The body of the loop over the positions.
unfoldable pub serve : Round → ℕ → Engine → Result Engine
unfolding is_message_from handle_msg report_msg_status
serve r i e =
    if is_message_from i e.tcp_handler
    then (handle_msg (r.received i) i e >>= λ (status, e').
        ok (record e' { tcp_handler = report_msg_status status i e'.tcp_handler }))
    else ok e

-- The rounds of that loop that are left, from position `i`.
unfoldable pub serve_from : ℕ → ℕ → Round → Engine → Result Engine
unfolding serve
serve_from zero i r e = ok e
serve_from (suc n) i r e = do e' ← serve r i e; serve_from n (i + 1) r e'

-- What follows `poll`.
unfoldable pub answer : Round → Engine → Result Engine
unfolding greet serve_from poll_exec is_new_connection
answer r e = elim r.poll [
  | poll_failed ↦ err exited
  | poll_timeout ↦ ok e
  | poll_events events ↦
      (let e' = record e { tcp_handler = poll_exec e.tcp_handler events } in
        if r.interrupted
        then ok e'
        else serve_from 25 1 r (if is_new_connection e'.tcp_handler then greet r e' else e'))
]

-- The body of the loop.
unfoldable pub round : Round → Engine → Result Engine
unfolding reset_revents begin_turn answer summarise_turn
round r e = do
  let reset = record e { tcp_handler = reset_revents e.tcp_handler }
  begun ← if reset.gameplay_started then begin_turn reset else ok reset
  answered ← answer r begun
  if answered.gameplay_started then summarise_turn answered else ok answered

-- `while (!finish_server)`, over the rounds that the system makes of it.
unfoldable pub manage_connections : List Round → Engine → Result Engine
unfolding round
manage_connections [] e = ok e
manage_connections (r ∷ rs) e = do
  e' ← round r e
  let rest = manage_connections rs e'
  if r.interrupted then ok e' else rest
