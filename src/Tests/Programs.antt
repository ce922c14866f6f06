-- ===== src/Tests/Programs.antt =====
-- The client's program and numbers that arrive in parts, sends to all clients, and points.
use bomberrobots.Base.{
  All, flatten, ◌++◌, ℕ, ◌≡◌, refl, inl, inr, List, [], ◌∷◌, map, Option, none, some, ok, err,
  false, Bool, uninitialised, arith, ltb, length, each, Returns,
}
use bomberrobots.Containers.Maps
use bomberrobots.Containers.Sets
use bomberrobots.Messages.{Bytes}
use bomberrobots.Encoding.{
  append_each, player_to_bytes, string_to_bytes, player_map_to_bytes, sized, uint16_to_bytes,
  uint32_to_bytes,
}
use bomberrobots.Events.{bomb_exploded, TurnInfo}
use bomberrobots.Client.Stream.{Stream, read_uint16, read_uint32}
use bomberrobots.Client.Stream.Words.{
  four_bytes, read_uint32-four_bytes, two_bytes, read_uint16-two_bytes,
}
use bomberrobots.Client.State.{GameInfo, new_game, add_player}
use bomberrobots.Client.Reading.Spec.{follow_turn}
use bomberrobots.Client.Session.{Client, start}
use bomberrobots.Client.Session.Spec.{
  ServerMessage, hello, accepted_player, game_started, server_bytes, understand,
}
use bomberrobots.Client.Session.Arrivals.{arrival, IsArrival}
use bomberrobots.Client.Session.Scores.{follow_turn_scores}
use bomberrobots.Client.Keys.Reach.{bomb_key, arrow_key}
use bomberrobots.Client.Options.{parse_parameters}
use bomberrobots.Client.Options.Laws.{Place, given, parse_parameters_lem}
use bomberrobots.Client.Program.{main}
use bomberrobots.Client.Program.Threads.{Happening, heard, round_of, main_lem}
use bomberrobots.Server.Connections.{send_message_to_all}
use bomberrobots.Server.Connections.Broadcast.{send_message_to_all_sent}
use bomberrobots.Server.Engine.{Engine, hello_msg, accepted_player_msg, game_started_msg}
use bomberrobots.Server.Handlers.{join, move}
use bomberrobots.Server.Handlers.Batches.{request}
use bomberrobots.Server.Turns.{summarise_turn}
use bomberrobots.Server.Invariant.{Playing}
use bomberrobots.Server.Invariant.Scores.{summarise_turn_scores}
use bomberrobots.Tests.Clients.{ann, standing}
use bomberrobots.Tests.Samples.{small, two_clients, opened, duel, duel-Playing}

-- A number of four bytes in two parts.
read_uint32-four_bytes_example :
    read_uint32 (record { current_buf = 1 ∷ 2 ∷ []; arriving = some (3 ∷ 4 ∷ 5 ∷ []) ∷ [] })
    ≡ four_bytes (record { current_buf = 1 ∷ 2 ∷ []; arriving = some (3 ∷ 4 ∷ 5 ∷ []) ∷ [] })
read_uint32-four_bytes_example =
    read_uint32-four_bytes
      (record { current_buf = 1 ∷ 2 ∷ []; arriving = some (3 ∷ 4 ∷ 5 ∷ []) ∷ [] })

-- The number 258, in one part and in two.
read_uint16-two_bytes_example :
    let together : Stream = record { current_buf = 1 ∷ 2 ∷ []; arriving = [] } in
    let apart : Stream = record { current_buf = 1 ∷ []; arriving = some (2 ∷ []) ∷ [] } in
    (read_uint16 together ≡ two_bytes together)
    × (two_bytes apart ≡ two_bytes together)
    × ((later : List (Option Bytes))
        → read_uint16 (record { current_buf = 1 ∷ []; arriving = later }) ≡ err uninitialised)
read_uint16-two_bytes_example = read_uint16-two_bytes 1 2 [] [] (omega arith)

send_message_to_all_sent_example :
    (send_message_to_all (3 ∷ []) two_clients).sent ≡ (4, 3 ∷ []) ∷ (5, 3 ∷ []) ∷ []
send_message_to_all_sent_example =
    send_message_to_all_sent (3 ∷ []) two_clients (opened 3)
      (opened 4 ∷ opened 5 ∷ record { fd = none; pollin = false; pollerr = false } ∷ []) refl
      (omega arith)

-- Two bombs hit robot 0 at once.
abbrev twice : TurnInfo
twice = record {
  turn = 3;
  events = bomb_exploded 0 (0 ∷ []) [] ∷ bomb_exploded 1 (0 ∷ 0 ∷ []) [] ∷ [];
}

abbrev scoring : GameInfo
scoring = record standing { scores = (0, 1) ∷ [] }

follow_turn_scores_example :
    Returns (λ g'. Maps.find 0 g'.scores ≡ some 3) (follow_turn twice scoring)
unfolding Maps.contains Maps.find Sets.has Sets.equivalent
follow_turn_scores_example =
    follow_turn_scores 0 1 twice scoring refl (omega arith) ((refl, tt), ((refl, (refl, tt)), tt))

-- Robot 0 was hit.
abbrev hit : Engine
hit = record duel { current_players_to_destroy = 0 ∷ [] }

hit-Playing : Playing hit
unfolding Maps.contains
hit-Playing = record {
  consistent = record {
    playable = duel-Playing.consistent.playable;
    addressed = duel-Playing.consistent.addressed;
    robots = duel-Playing.consistent.robots;
    blocks = duel-Playing.consistent.blocks;
    ids = duel-Playing.consistent.ids;
    scored = duel-Playing.consistent.scored;
    doomed = (refl, tt);
  };
  started = refl;
  history = refl;
  turn_le = duel-Playing.turn_le;
  placed = duel-Playing.placed;
}

summarise_turn_scores_example : Returns (λ e'. Maps.find 0 e'.scores ≡ some 1) (summarise_turn hit)
unfolding Maps.find
summarise_turn_scores_example =
    summarise_turn_scores 0 0 hit hit-Playing (λ h. absurd (omega arith)) refl (omega arith)

-- A resolver that knows one host.
abbrev found : Bytes → Bytes → Option ℕ
found host service = some (length host)

abbrev is_number : Bytes → Bool
is_number service = ltb 0 (length service)

abbrev screen : Place
screen = record { host = b'g' ∷ []; service = b'1' ∷ b'2' ∷ [] }

abbrev site : Place
site = record { host = b':' ∷ b':' ∷ []; service = b'8' ∷ b'0' ∷ [] }

parse_parameters_lem_example :
    parse_parameters is_number found (λ h s. []) (given screen (b'A' ∷ []) 5 site)
    ≡ ok (record { gui_address = 1; name = b'A' ∷ []; port = some 5; server_address = [] })
parse_parameters_lem_example =
    parse_parameters_lem is_number found (λ h s. []) screen site (b'A' ∷ []) 5
      ((refl, (refl, tt)), refl) ((refl, (refl, tt)), refl)

-- Ann presses a key in the lobby and another one in the game.
abbrev history : List Happening
history =
    inl (hello small)
    ∷ inr bomb_key
    ∷ inl (accepted_player 0 ann)
    ∷ inl (game_started ((0, ann) ∷ []))
    ∷ inr (arrow_key 2)
    ∷ []

abbrev after : Client
after = elim (each understand (heard history) start) [ err e ↦ start | ok c ↦ c ]

-- Each message in a call of its own.
abbrev heard_apart : List (List ServerMessage)
heard_apart =
    (hello small ∷ []) ∷ (accepted_player 0 ann ∷ []) ∷ (game_started ((0, ann) ∷ []) ∷ []) ∷ []

heard_apart-IsArrival : All IsArrival heard_apart
unfolding append_each server_bytes hello_msg accepted_player_msg game_started_msg player_to_bytes
    string_to_bytes player_map_to_bytes sized uint16_to_bytes uint32_to_bytes
heard_apart-IsArrival = ground arith

main_lem_example :
    Returns
      (λ r.
        (r.client ≡ after)
        × (r.sent_to_server ≡ request (join (b'A' ∷ [])) ∷ request (move 2) ∷ []))
      (main is_number found
        (λ h s. [])
        (given screen (b'A' ∷ []) 5 site)
        (record { connect_error = false; option_error = false; gui_error = false })
        (map arrival heard_apart ++ [])
        (map round_of history))
unfolding understand new_game add_player Maps.insert flatten
main_lem_example =
    main_lem is_number found (λ h s. []) screen site (b'A' ∷ []) 5 1 history heard_apart after []
      ((refl, (refl, tt)), refl) ((refl, (refl, tt)), refl) refl heard_apart-IsArrival refl
      (ground arith) refl
