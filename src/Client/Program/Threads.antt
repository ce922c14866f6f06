-- ===== src/Client/Program/Threads.antt =====
-- The client's two threads, in any order of their rounds.
use bomberrobots.Base.{
  ℕ, ◌≡◌, refl, ap, sym, ◌∙◌, ◌⊎◌, inl, inr, Bool, false, List, [], ◌∷◌, ◌++◌, flatten, append-nil,
  append_assoc, map, Option, some, ok, err, or_fail, ◌>>=◌, ok->>=, each, All, Returns,
  Returns-mono,
}
use bomberrobots.Messages.{Bytes}
use bomberrobots.Encoding.{append_each}
use bomberrobots.Server.Handlers.{ClientMessage}
use bomberrobots.Server.Handlers.Batches.{request}
use bomberrobots.Client.Session.{Client, start, handle_server_message}
use bomberrobots.Client.Session.Spec.{ServerMessage, server_bytes, understand, IsSendable}
use bomberrobots.Client.Session.Arrivals.{arrival, IsArrival, waiting, waiting-Next}
use bomberrobots.Client.Session.Follows.{handle_server_message_lem}
use bomberrobots.Client.Keys.{receive, handle_gui_message}
use bomberrobots.Client.Keys.Reach.{
  Key, bomb_key, block_key, arrow_key, gui_bytes, wanted, handle_gui_message_lem,
}
use bomberrobots.Client.Options.Laws.{Place, IsService, given, parse_parameters_lem}
use bomberrobots.Client.Program.{
  Running, Thread, server_receiver, gui_receiver, connect_to_server, open_gui_socket,
  send_server_message, server_round, gui_round, thread_round, begin_running, zeros, main,
}

-- What happens to a client: a message of the server, or a key.
abbrev pub Happening : Type 0
Happening = ServerMessage ⊎ Key

abbrev pub round_of : Happening → Thread
round_of (inl msg) = server_receiver
round_of (inr key) = gui_receiver (some (gui_bytes key)) false

-- The messages among them.
abbrev pub heard : List Happening → List ServerMessage
heard [] = []
heard (inl msg ∷ history) = msg ∷ heard history
heard (inr key ∷ history) = heard history

-- What the keys ask of the server, each by what the client has understood by then.
abbrev pub asked : Bytes → List Happening → Client → List ClientMessage
asked player_name [] c = []
asked player_name (inl msg ∷ history) c = elim (understand msg c) [
  | err e ↦ []
  | ok c' ↦ asked player_name history c'
]
asked player_name (inr key ∷ history) c =
    wanted player_name c.is_lobby_status key ∷ asked player_name history c

-- The buffer for the GUI keeps two bytes and more.
abbrev IsRoomy : Bytes → Type 0
IsRoomy buf = (b : ℕ) × (b' : ℕ) × (rest : Bytes) × (buf ≡ b ∷ b' ∷ rest)

receive-IsRoomy : (key : Key) (buf : Bytes) → IsRoomy buf → IsRoomy (receive (gui_bytes key) buf)
unfolding receive
receive-IsRoomy bomb_key buf (b, b', rest, same) =
    (0, b', rest, ap (receive (0 ∷ [])) same ∙ again rest)
  where
    again : (rest : Bytes) → receive (0 ∷ []) (b ∷ b' ∷ rest) ≡ 0 ∷ b' ∷ rest
    again rest = refl
receive-IsRoomy block_key buf (b, b', rest, same) = (1, b', rest, ap (receive (1 ∷ [])) same)
receive-IsRoomy (arrow_key direction) buf (b, b', rest, same) =
    (2, direction, receive [] rest, ap (receive (2 ∷ direction ∷ [])) same)

gui_round_lem :
    (player_name : Bytes) (key : Key) (r : Running)
    → IsRoomy r.buf_udp
    → gui_round player_name (some (gui_bytes key)) false r
      ≡ ok (record r {
        buf_udp = receive (gui_bytes key) r.buf_udp;
        sent_to_server =
            r.sent_to_server ++ request (wanted player_name r.client.is_lobby_status key) ∷ [];
      })
unfolding gui_round send_server_message
gui_round_lem player_name key r (b, b', rest, same) =
    rw
      (ap (handle_gui_message player_name r.client.is_lobby_status (gui_bytes key)) same
        ∙ handle_gui_message_lem player_name r.client.is_lobby_status key b b' rest)
      refl

asked_next :
    (player_name : Bytes) (msg : ServerMessage) (history : List Happening) (c c1 : Client)
    → understand msg c ≡ ok c1
    → asked player_name (inl msg ∷ history) c ≡ asked player_name history c1
asked_next player_name msg history c c1 understood = rw (understood, asked) refl

-- What a client has come to, when this has happened.
abbrev Reached : Bytes → List Happening → Running → Client → Running → Type 0
Reached player_name history r c' r' =
    (r'.client ≡ c')
    × (r'.sent_to_server ≡ r.sent_to_server ++ map request (asked player_name history r.client))

rounds_lem :
    (player_name : Bytes) (history : List Happening) (r : Running) (c' : Client)
    (now : List ServerMessage) (groups : List (List ServerMessage)) (more : List (Option Bytes))
    → All IsArrival groups
    → now ++ flatten groups ≡ heard history
    → All IsSendable (heard history)
    → each understand (heard history) r.client ≡ ok c'
    → r.stream ≡ waiting now groups more
    → IsRoomy r.buf_udp
    → Returns
        (Reached player_name history r c')
        (each (thread_round player_name) (map round_of history) r)
unfolding thread_round server_round
rounds_lem player_name [] r c' now groups more a same h u holds roomy =
    (cc, sym (append-nil r.sent_to_server))
rounds_lem player_name (inl msg ∷ history) r c' now groups more a same (h, hs) u holds roomy =
    let (c1, understood, u') =
      ok->>= (understand msg r.client) (each understand (heard history)) c' u in
    let (now', groups', a', same', next) = waiting-Next msg (heard history) now groups a same in
    let r1 : Running = record r { client = c1; stream = waiting now' groups' more } in
    let handled : handle_server_message r.client r.stream ≡ ok (c1, r1.stream) =
      ap (handle_server_message r.client) holds
      ∙ next r.client more
      ∙ handle_server_message_lem msg r.client c1 h understood (append_each server_bytes now')
          (map arrival groups' ++ more) in
    rw (handled, ◌>>=◌)
      (Returns-mono (Reached player_name history r1 c')
        (Reached player_name (inl msg ∷ history) r c')
        (each (thread_round player_name) (map round_of history) r1)
        (rounds_lem player_name history r1 c' now' groups' more a' same' hs u' refl roomy)
        (λ r' (client, sent). (
          client,
          sent
              ∙ ap (λ msgs. r.sent_to_server ++ map request msgs)
                  (sym (asked_next player_name msg history r.client c1 understood)),
        )))
rounds_lem player_name (inr key ∷ history) r c' now groups more a same hs u holds roomy =
    let message = request (wanted player_name r.client.is_lobby_status key) in
    let r1 : Running = record r {
      buf_udp = receive (gui_bytes key) r.buf_udp;
      sent_to_server = r.sent_to_server ++ message ∷ [];
    } in
    rw (gui_round_lem player_name key r roomy, ◌>>=◌)
      (Returns-mono (Reached player_name history r1 c')
        (Reached player_name (inr key ∷ history) r c')
        (each (thread_round player_name) (map round_of history) r1)
        (rounds_lem player_name history r1 c' now groups more a same hs u holds
          (receive-IsRoomy key r.buf_udp roomy))
        (λ r' (client, sent). (
          client,
          sent
              ∙ append_assoc r.sent_to_server (message ∷ [])
                  (map request (asked player_name history r.client)),
        )))

begin_running-IsRoomy : (arriving : List (Option Bytes)) → IsRoomy (begin_running arriving).buf_udp
unfolding begin_running zeros
begin_running-IsRoomy arriving = (0, 0, zeros 254, refl)

module _ {Endpoint : Type 0} (is_port : Bytes → Bool)
    (resolve_udp : Bytes → Bytes → Option Endpoint)
    (resolve_tcp : Bytes → Bytes → List Endpoint) where
  -- The whole client: with a complete command line, an address of the GUI that is found, and a
  -- network that works, let each call of `read_some` bring one or more whole messages of the server,
  -- of at most 256 bytes together, their values in the ranges of their types, and let the messages,
  -- understood one after the other, lead from the initial state to another. Then in whatever order the
  -- two threads do their rounds for these messages and for any keys, the client comes to that state,
  -- which the keys do not change, and what it sends to the server is, for each key in turn, the request
  -- that the key stands for in the state of that moment.
  pub main_lem :
      (gui server : Place) (player_name : Bytes) (port : ℕ) (endpoint : Endpoint)
      (history : List Happening) (groups : List (List ServerMessage)) (c : Client)
      (more : List (Option Bytes))
      → IsService is_port gui.service
      → IsService is_port server.service
      → resolve_udp gui.host gui.service ≡ some endpoint
      → All IsArrival groups
      → flatten groups ≡ heard history
      → All IsSendable (heard history)
      → each understand (heard history) start ≡ ok c
      → Returns
          (λ r. (r.client ≡ c) × (r.sent_to_server ≡ map request (asked player_name history start)))
          (main is_port resolve_udp resolve_tcp
            (given gui player_name port server)
            (record { connect_error = false; option_error = false; gui_error = false })
            (map arrival groups ++ more)
            (map round_of history))
  unfolding main connect_to_server open_gui_socket begin_running append_each
  main_lem gui server player_name port endpoint history groups c more h k found a same sendable u =
      let arriving = map arrival groups ++ more in
      rw (parse_parameters_lem is_port resolve_udp resolve_tcp gui server player_name port h k) (
        rw (found, or_fail, ◌>>=◌)
          (rounds_lem player_name history (begin_running arriving) c [] groups more a same sendable
            u refl (begin_running-IsRoomy arriving)))
