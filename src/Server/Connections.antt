-- ===== src/Server/Connections.antt =====
-- server-tcp-handler.h and server-tcp-handler.cpp: the table of descriptors, the buffer that the
-- last `read` filled, and what was handed to `send`. The results of the system calls `accept`,
-- `read` and `poll` are arguments. The start and the end of the connections, and the reports of
-- `errno`, are in Server/Startup.
pub mod Buffer
pub mod Table
pub mod Broadcast
use bomberrobots.Base.{
  ℕ, zero, suc, ◌+◌, ◌-◌, ◌%◌, ◌^◌, ◌≡◌, Bool, true, false, ◌||◌, List, [], ◌∷◌, ◌++◌, map, Option,
  none, some, Result, or_fail, out_of_range, get_elem?, set, take, length,
}
use bomberrobots.Containers.Maps.{Map, insert_or_assign, find}
use bomberrobots.Messages.{Bytes}

pub data MessageRecvStatus : Type 0 where
  error_conn error_msg end_conn potentially_success success : MessageRecvStatus

-- `struct pollfd`: no descriptor is -1 in the code. `revents` holds POLLIN and POLLERR.
pub record Pollfd : Type 0 where
  pub fd : Option ℕ
  pub pollin : Bool
  pub pollerr : Bool

pub record TcpHandler : Type 0 where
  -- what is left of `current_buf`
  pub current_buf : Bytes
  pub active_clients : ℕ
  pub poll_descriptors : List Pollfd
  pub addresses : Map Bytes
  -- the calls of `send` on open descriptors so far, oldest first: a descriptor and the bytes
  pub sent : List (ℕ × Bytes)

abbrev pub conn_max : ℕ
conn_max = 26

abbrev closed : Pollfd
closed = record { fd = none; pollin = false; pollerr = false }

closed_slots : ℕ → List Pollfd
closed_slots zero = []
closed_slots (suc n) = closed ∷ closed_slots n

-- The constructor, with the descriptor of the listening socket.
unfoldable pub new_handler : ℕ → TcpHandler
unfolding closed_slots
new_handler socket_fd = record {
  current_buf = [];
  active_clients = 0;
  poll_descriptors = record closed { fd = some socket_fd } ∷ closed_slots 25;
  addresses = [];
  sent = [];
}

reset_slot : Pollfd → Pollfd
reset_slot d = record d { pollin = false; pollerr = false }

unfoldable pub reset_revents : TcpHandler → TcpHandler
unfolding reset_slot
reset_revents h = record h { poll_descriptors = map reset_slot h.poll_descriptors }

-- `poll` reports the events of each descriptor, in order.
report_events : List Pollfd → List (Bool × Bool) → List Pollfd
report_events [] events = []
report_events (d ∷ ds) [] = d ∷ ds
report_events (d ∷ ds) ((pollin, pollerr) ∷ events) =
    record d { pollin = pollin; pollerr = pollerr } ∷ report_events ds events

unfoldable pub poll_exec : TcpHandler → List (Bool × Bool) → TcpHandler
unfolding report_events
poll_exec h events = record h { poll_descriptors = report_events h.poll_descriptors events }

-- The open descriptor at a position of the table.
unfoldable pub descriptor : ℕ → List Pollfd → Option ℕ
descriptor i [] = none
descriptor zero (d ∷ ds) = d.fd
descriptor (suc i) (d ∷ ds) = descriptor i ds

unfoldable pub is_new_connection : TcpHandler → Bool
is_new_connection h = elim h.poll_descriptors [ [] ↦ false | d ∷ ds ↦ d.pollin ]

unfoldable pub is_message_from : ℕ → TcpHandler → Bool
is_message_from i h = elim (get_elem? h.poll_descriptors i) [
  | none ↦ false
  | some d ↦ elim d.fd [ none ↦ false | some fd ↦ d.pollin || d.pollerr ]
]

-- The first position from `i` on without a descriptor: the loop of `accept_client`.
unfoldable pub free_slot : ℕ → List Pollfd → Option ℕ
free_slot i [] = none
free_slot i (d ∷ ds) =
    let rest = free_slot (i + 1) ds in elim d.fd [ none ↦ some i | some fd ↦ rest ]

-- The loop begins at position 1, behind the listening socket.
unfoldable pub accept_slot : List Pollfd → Option ℕ
unfolding free_slot
accept_slot [] = none
accept_slot (d ∷ ds) = free_slot 1 ds

-- `accept_client`, with the result of `accept` (`none` for -1) and the client's address. It
-- returns the position taken, or `none` for -1, which is the key 2 ^ 64 - 1 in `addresses`.
unfoldable pub accept_client : Option ℕ → Bytes → TcpHandler → TcpHandler × Option ℕ
unfolding accept_slot
accept_client client_fd address h = elim (accept_slot h.poll_descriptors) [
  | none ↦ (record h { addresses = insert_or_assign (2 ^ 64 - 1) address h.addresses }, none)
  | some i ↦ (
    record h {
      active_clients = (h.active_clients + 1) % 2 ^ 64;
      poll_descriptors =
          set h.poll_descriptors i (record { fd = client_fd; pollin = false; pollerr = false });
      addresses = insert_or_assign i address h.addresses;
    },
    some i,
  )
]

-- `close`, and `fd = -1`.
close_slot : Option Pollfd → Pollfd
close_slot none = closed
close_slot (some d) = record d { fd = none }

-- `report_msg_status`: any status but success closes the connection.
unfoldable pub report_msg_status : MessageRecvStatus → ℕ → TcpHandler → TcpHandler
unfolding close_slot
report_msg_status success i h = h
report_msg_status _ i h = record h {
  active_clients = (h.active_clients + (2 ^ 64 - 1)) % 2 ^ 64;
  poll_descriptors = set h.poll_descriptors i (close_slot (get_elem? h.poll_descriptors i));
}

-- The size of the array that `current_buf` points into.
abbrev pub buf_size : ℕ
buf_size = 256

-- `read_from`, with what waits at the descriptor: `none` for a negative result of `read`, and else
-- the bytes, of which `read` takes the first `buf_size`. What is left waits for a later call.
unfoldable pub read_from : Option Bytes → TcpHandler → MessageRecvStatus × TcpHandler
read_from none h = (error_conn, record h { current_buf = [] })
read_from (some []) h = (end_conn, record h { current_buf = [] })
read_from (some (b ∷ buf)) h =
    (potentially_success, record h { current_buf = take (b ∷ buf) buf_size })

-- `send_message`: `send` on the descriptor at a position; on -1 it fails and nothing is sent.
unfoldable pub send_message : ℕ → Bytes → TcpHandler → TcpHandler
unfolding descriptor
send_message i msg h = elim (descriptor i h.poll_descriptors) [
  | none ↦ h
  | some fd ↦ record h { sent = h.sent ++ (fd, msg) ∷ [] }
]

send_from : ℕ → ℕ → Bytes → TcpHandler → TcpHandler
unfolding send_message
send_from zero i msg h = h
send_from (suc n) i msg h = send_from n (i + 1) msg (send_message i msg h)

-- `send_message_to_all`: the positions 1 to `conn_max - 1` in turn. (`send_message` does nothing
-- at a position without a descriptor, which the loop skips.)
unfoldable pub send_message_to_all : Bytes → TcpHandler → TcpHandler
unfolding send_from
send_message_to_all msg h = send_from 25 1 msg h

unfoldable pub get_address : ℕ → TcpHandler → Result Bytes
unfolding find
get_address i h = or_fail (find i h.addresses) out_of_range
