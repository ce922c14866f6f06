-- ===== src/Server/Startup.antt =====
-- robots-server.cpp, `start_game` of game-engine.cpp, and the beginning and the end of the connections
-- in server-tcp-handler.cpp. What the system calls give is an argument; a call that only prints its
-- error gives a list of reports.
pub mod Laws
use bomberrobots.Base.{
  ℕ, List, [], ◌∷◌, ◌++◌, Option, none, some, Result, ok, err, or_fail, exited, uninitialised,
  false, ◌>>=◌, ◌==◌, length,
}
use bomberrobots.Errors.{Report, check_errno, check_errno_exit, print_errno, ensure}
use bomberrobots.Messages.{Bytes}
use bomberrobots.Server.Connections.{Pollfd, TcpHandler, new_handler}
use bomberrobots.Server.Engine.{Engine, new_engine}
use bomberrobots.Server.Rounds.{Round, manage_connections}
use bomberrobots.Server.Options.{CommandLine, parse_parameters, parameters}

-- The results of `socket` (`none` for -1) and `accept`, and the `errno` after the other calls, that of
-- `close` for each descriptor.
pub record System : Type 0 where
  pub socket : Option ℕ
  pub bind_errno : ℕ
  pub listen_errno : ℕ
  pub sigaction_errno : ℕ
  pub close_errno : ℕ → ℕ

unfoldable pub open_socket : Option ℕ → Result ℕ
open_socket socket_fd = or_fail socket_fd exited

unfoldable pub bind_socket : ℕ → Result (Unit {0})
unfolding check_errno_exit
bind_socket errno = check_errno_exit errno

-- The constructor of `Server_tcp_handler`, with its calls.
unfoldable pub new_tcp_handler : System → Result TcpHandler
unfolding open_socket bind_socket
new_tcp_handler s = do
  socket_fd ← open_socket s.socket
  bound ← bind_socket s.bind_errno
  ok (new_handler socket_fd)

unfoldable pub start_listening : System → Result (Unit {0})
unfolding check_errno_exit
start_listening s = check_errno_exit s.listen_errno

unfoldable pub install_signal_handler : System → List Report
unfolding check_errno
install_signal_handler s = check_errno s.sigaction_errno

-- The descriptors closed, in order.
unfoldable pub close_conn : (ℕ → ℕ) → List Pollfd → Result (List ℕ)
unfolding check_errno_exit
close_conn close_errno [] = ok []
close_conn close_errno (d ∷ ds) =
    let rest = close_conn close_errno ds in
    elim d.fd [
      | none ↦ rest
      | some fd ↦ check_errno_exit (close_errno fd) >>= λ done. rest >>= λ fds. ok (fd ∷ fds)
    ]

-- `accept_connection`: the descriptor, and what is printed.
unfoldable pub accept_connection : Option ℕ → ℕ → Option ℕ × List Report
unfolding print_errno
accept_connection none errno = (none, print_errno errno)
accept_connection (some client_fd) errno = (some client_fd, [])

-- What `send_message` prints, by the result of `send` (`none` for -1) and `errno`.
unfoldable pub report_send : Option ℕ → ℕ → Bytes → List Report
unfolding print_errno ensure
report_send none errno msg = print_errno errno ++ ensure false
report_send (some sent_length) errno msg = ensure (sent_length == length msg)

-- What is left when `start_game` returns.
pub record Finished : Type 0 where
  -- what `install_signal_handler` printed
  pub reports : List Report
  -- the descriptors closed, in order
  pub closed : List ℕ
  pub engine : Engine

-- `start_game`, with `close_conn` at the end of `manage_connections`.
unfoldable pub start_game : System → List Round → Engine → Result Finished
unfolding install_signal_handler start_listening close_conn
start_game s rs e = do
  let reports = install_signal_handler s
  listening ← start_listening s
  e' ← manage_connections rs e
  closed ← close_conn s.close_errno e'.tcp_handler.poll_descriptors
  ok (record { reports = reports; closed = closed; engine = e' })

-- The port that `main` hands on must have been given too.
unfoldable pub main : System → ℕ → List Round → CommandLine → Result Finished
unfolding parse_parameters parameters new_tcp_handler start_game
main s now rs line = do
  parsed ← parse_parameters now line
  port ← or_fail parsed.port uninitialised
  tcp_handler ← new_tcp_handler s
  game_params ← parameters parsed
  start_game s rs (new_engine game_params tcp_handler)
