-- ===== src/Lib.antt =====
-- Bomberrobots: a network game of robots that drop bombs. A server (robots-server) keeps the
-- game; clients (robots-client) pass a player's keys on to it and draw what it tells them.
--
-- The parts, and the files that model them:
--   Base          shared names, Boolean tests, lists, outcomes of code that may fail
--   Containers    std::map with integer keys and std::set with a comparator, as ordered lists
--   Messages      game-messages.h, game-messages.cpp: positions, bombs, players, codes, comparators
--   Encoding      byte-parser.h, byte-parser.cpp: values as bytes
--   Events        event.h, event.cpp: events, turns and their bytes
--   Errors        error-handler.h, error-handler.cpp: what becomes of errno
--   Client/Requests     robots-client.cpp: the requests to the server
--   Client/Stream       the buffered readers of robots-client.cpp
--   Client/State        Lobby_info and Game_info, of game-messages.h and game-messages.cpp
--   Client/Reading      the readers of events and containers; in Reading/Spec what an event is to do
--   Client/Session      the handlers of the server's messages; in Session/Spec what these are to do,
--                       in Session/Arrivals how they come to the client's calls of read_some
--   Client/Display      the messages to the GUI
--   Client/Address      client-parser.cpp: the cut of an address into host and port
--   Client/Keys         handle_gui_message: the messages of the GUI
--   Client/Options      client-parser.h, client-parser.cpp: the command line
--   Client/Program      main of robots-client.cpp, and the rounds of its two threads
--   Server/Random       random.h: std::minstd_rand
--   Server/Connections  server-tcp-handler.h, server-tcp-handler.cpp: descriptors, buffer, sends
--   Server/Engine       game-engine.h: the state; the messages to clients of game-engine.cpp
--   Server/Explosion    handle_explosion; in Explosion/Rays what it is to reach
--   Server/Turns        start_gameplay, begin_turn, summarise_turn, end_gameplay, the seeding
--   Server/Handlers     handle_msg and the handlers of the four client messages
--   Server/Rounds       manage_connections, as a function of what the system calls return
--   Server/Options      server-parser.h, server-parser.cpp: the command line
--   Server/Startup      robots-server.cpp, start_game, and the start and the end of the connections
--   Server/Invariant    what holds between and within the rounds of the loop; in Invariant/Replay what
--                       the events of a game tell a client, beside what the engine has
--   Tests               concrete runs, and the theorems at concrete inputs
--
-- How the code becomes functions. A method of the engine takes and returns the record Engine,
-- with the names of the fields of Game_engine. Code that can fail returns a Result: `at` without
-- an entry is out_of_range, `%` by zero division_by_zero, reading a variable that was not written
-- uninitialised, exit_with_msg exited. An unsigned integer is a natural number, and its wrap-around
-- is written out (`% 2 ^ 16`, and for a decrement `+ (2 ^ 16 - 1)`). A std::string and a buffer are
-- lists of bytes. A descriptor of -1 is `none`. The bytes handed to `send` are kept in a list, in
-- order; that the system may send fewer of them, or none, is not modelled. The server's `read` takes
-- the first 256 bytes (buf_size) of what waits at a descriptor, and the client's `read_some` the
-- first 256 (BUFFER_SIZE) of what has arrived together, and leaves the rest to its next call.
--
-- Fuel. The loop of handle_explosion runs on explosion_radius + 1 rounds, which is enough for every
-- radius below 65535 (with 65535 the C++ loop does not end). The do-while loop of handle_msg runs
-- on as many rounds as the buffer has bytes; each message takes one at least. The loop of the
-- client's read_string takes a byte at least in each round, and gets one round more than the string
-- has bytes. The loop of the client's read_uint16 gets three rounds, one more than there are bytes to
-- write; the C++ loop is left after one. The counted loops of the client run on their count, and its
-- endless loops on a number of rounds.
--
-- std::set is modelled by the words of the requirements on ordered containers: an element is
-- found, added or erased by equivalence under the comparator. The comparator of positions is no
-- strict weak ordering (Messages/Order), so that C++ leaves sets of positions undefined; the model
-- says what those words say. Theorems about blocks speak of the blocks that such a set reports. A
-- library's search tree may answer otherwise: in a tree of (1, 9) alone to which (5, 3) is added, a
-- search for (5, 3) can turn away from it at (1, 9), where the model finds it.
--
-- System calls and libraries. What accept, read and poll give in a round of the server, the errno
-- after socket, bind, listen, sigaction and close, what Boost stores for the options of a command
-- line, of which strings lexical_cast takes a port, what the resolvers find, and what the client's
-- sockets give are arguments. The client's two threads share is_lobby_status alone, which a round of
-- theirs reads or writes once: a run is a list of their rounds in the order in which they are done.
--
-- Not modelled: signals (a round carries the flag that the handler sets), waiting and time-outs,
-- what is printed but for the reports of errno, the options of sockets (setsockopt, set_option but for
-- its exception), the getters, which are the fields, and a failed send to the GUI, which
-- ends the client.
pub mod Base
pub mod Containers
pub mod Messages
pub mod Encoding
pub mod Events
pub mod Errors
pub mod Client
pub mod Server
mod Tests
