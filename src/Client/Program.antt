-- ===== src/Client/Program.antt =====
-- robots-client.cpp: `main`, and its two threads. What the system and Boost give is an argument. A
-- round of a thread is taken as a whole: the two share `is_lobby_status` alone, which a round reads
-- or writes once.
pub mod Threads
use bomberrobots.Base.{
  ℕ, zero, suc, Bool, List, [], ◌∷◌, ◌++◌, Option, none, some, Result, ok, err, or_fail, exited,
  system_error, uninitialised, ◌>>=◌, each, if◌then◌else◌,
}
use bomberrobots.Messages.{Bytes}
use bomberrobots.Client.Options.{CommandLine, parse_parameters}
use bomberrobots.Client.Stream.{Stream}
use bomberrobots.Client.Session.{Client, start, handle_server_message}
use bomberrobots.Client.Keys.{receive, handle_gui_message}

-- What becomes of the calls before the threads start.
pub record Network : Type 0 where
  -- `asio::connect` reports an error
  pub connect_error : Bool
  -- `set_option` throws, as it may on a socket that is not connected
  pub option_error : Bool
  -- the constructor of the socket for the GUI throws
  pub gui_error : Bool

-- The option is set before the error is looked at.
unfoldable pub connect_to_server : Network → Result (Unit {0})
connect_to_server net =
    if net.option_error then err system_error else if net.connect_error then err exited else ok tt

unfoldable pub open_gui_socket : Network → Result (Unit {0})
open_gui_socket net = if net.gui_error then err system_error else ok tt

-- The variables of the running client.
pub record Running : Type 0 where
  pub client : Client
  -- the bytes from the server
  pub stream : Stream
  pub buf_udp : Bytes
  -- what has been handed to `send_server_message`, in order
  pub sent_to_server : List Bytes

-- A round of `server_receiver`; and one of `gui_receiver`, with what `receive` gives (`none` if it
-- throws) and whether writing to the server fails.
pub data Thread : Type 0 where
  server_receiver : Thread
  gui_receiver : Option Bytes → Bool → Thread

-- `send_server_message`.
unfoldable pub send_server_message : Bool → Option Bytes → Running → Result Running
send_server_message write_error none r = ok r
send_server_message write_error (some message) r =
    if write_error
    then err exited
    else ok (record r { sent_to_server = r.sent_to_server ++ message ∷ [] })

-- The body of `handle_server_messages`.
unfoldable pub server_round : Running → Result Running
server_round r =
    handle_server_message r.client r.stream >>= λ (c, s). ok (record r { client = c; stream = s })

-- The body of `handle_gui_messages`.
unfoldable pub gui_round : Bytes → Option Bytes → Bool → Running → Result Running
unfolding send_server_message
gui_round player_name received write_error r = do
  datagram ← or_fail received exited
  message ← handle_gui_message player_name r.client.is_lobby_status datagram r.buf_udp
  send_server_message write_error message (record r { buf_udp = receive datagram r.buf_udp })

unfoldable pub thread_round : Bytes → Thread → Running → Result Running
unfolding server_round gui_round
thread_round player_name server_receiver r = server_round r
thread_round player_name (gui_receiver received write_error) r =
    gui_round player_name received write_error r

zeros : ℕ → Bytes
zeros zero = []
zeros (suc n) = 0 ∷ zeros n

-- The variables when the threads start.
unfoldable pub begin_running : List (Option Bytes) → Running
unfolding zeros
begin_running arriving = record {
  client = start;
  stream = record { current_buf = []; arriving = arriving };
  buf_udp = zeros 256;
  sent_to_server = [];
}

-- `main`, with the rounds of the threads in the order in which they are done.
module _ {Endpoint : Type 0} (is_port : Bytes → Bool)
    (resolve_udp : Bytes → Bytes → Option Endpoint)
    (resolve_tcp : Bytes → Bytes → List Endpoint) where
  unfoldable pub main : CommandLine → Network → List (Option Bytes) → List Thread → Result Running
  unfolding connect_to_server open_gui_socket thread_round begin_running
  main line net arriving rounds = do
    parameters ← parse_parameters is_port resolve_udp resolve_tcp line
    connected ← connect_to_server net
    port ← or_fail parameters.port uninitialised
    opened ← open_gui_socket net
    each (thread_round parameters.name) rounds (begin_running arriving)
