-- ===== src/Tests/Samples.antt =====
-- A small board, a game on it, and a lobby.
use bomberrobots.Base.{ℕ, zero, suc, refl, true, false, [], ◌∷◌, none, some, arith}
use bomberrobots.Containers.Maps.{contains}
use bomberrobots.Messages.{Position}
use bomberrobots.Server.Connections.{TcpHandler, Pollfd, descriptor}
use bomberrobots.Server.Connections.Table.{Addressed}
use bomberrobots.Server.Engine.{ServerParameters, Engine}
use bomberrobots.Server.Invariant.{IsPlayable, Playing, Lobby}

abbrev pub at : ℕ → ℕ → Position
at x y = record { x = x; y = y }

abbrev pub small : ServerParameters
small = record {
  bomb_timer = 2;
  players_count = 2;
  turn_duration = 500;
  explosion_radius = 2;
  initial_blocks = 1;
  game_length = 5;
  server_name = b's' ∷ [];
  seed = 7;
  size_x = 6;
  size_y = 4;
}

pub small-IsPlayable : IsPlayable small
small-IsPlayable = omega arith

abbrev pub opened : ℕ → Pollfd
opened fd = record { fd = some fd; pollin = false; pollerr = false }

abbrev pub two_clients : TcpHandler
two_clients = record {
  current_buf = [];
  active_clients = 2;
  poll_descriptors =
      opened 3 ∷ opened 4 ∷ opened 5 ∷ record { fd = none; pollin = false; pollerr = false } ∷ [];
  addresses = (1, b'a' ∷ []) ∷ (2, b'b' ∷ []) ∷ [];
  sent = [];
}

pub two_clients-Addressed : Addressed two_clients
unfolding descriptor contains
two_clients-Addressed zero fd h = refl
two_clients-Addressed (suc zero) fd h = refl
two_clients-Addressed (suc (suc zero)) fd h = absurd (cc)
two_clients-Addressed (suc (suc (suc i))) fd h = absurd (cc)

-- Turn 1 of a game of two: a bomb is about to explode beside robot 0, and a block stands by.
abbrev pub duel : Engine
duel = record {
  game_params = small;
  tcp_handler = two_clients;
  gameplay_started = true;
  players =
      (0, record { name = b'A' ∷ []; address = b'a' ∷ [] })
      ∷ (1, record { name = b'B' ∷ []; address = b'b' ∷ [] })
      ∷ [];
  scores = (0, 0) ∷ (1, 0) ∷ [];
  players_positions = (0, at 1 1) ∷ (1, at 3 1) ∷ [];
  blocks_positions = at 2 2 ∷ [];
  player_ids = (1, 0) ∷ (2, 1) ∷ [];
  next_player_id = 2;
  current_turn = 1;
  current_blocks_to_erase = [];
  current_players_to_destroy = [];
  turns = record { turn = 0; events = [] } ∷ record { turn = 1; events = [] } ∷ [];
  bombs = (0, record { position = at 2 1; timer = 1 }) ∷ [];
  next_bomb_id = 1;
  random = 7;
}

pub duel-Playing : Playing duel
unfolding contains
duel-Playing = record {
  consistent = record {
    playable = small-IsPlayable;
    addressed = two_clients-Addressed;
    robots = ((refl, omega arith), ((refl, omega arith), tt));
    blocks = (omega arith, tt);
    ids = (refl, (refl, tt));
    scored = λ id h. ground arith;
    doomed = tt;
  };
  started = refl;
  history = refl;
  turn_le = omega arith;
  placed = λ id h. ground arith;
}

-- A lobby with one player of two.
abbrev pub gathering : Engine
gathering = record duel {
  gameplay_started = false;
  players = (0, record { name = b'A' ∷ []; address = b'a' ∷ [] }) ∷ [];
  scores = (0, 0) ∷ [];
  players_positions = [];
  blocks_positions = [];
  player_ids = (1, 0) ∷ [];
  next_player_id = 1;
  current_turn = 0;
  turns = [];
  bombs = [];
  next_bomb_id = 0;
}

pub gathering-Lobby : Lobby gathering
unfolding contains
gathering-Lobby = record {
  consistent = record {
    playable = small-IsPlayable;
    addressed = two_clients-Addressed;
    robots = tt;
    blocks = tt;
    ids = (refl, tt);
    scored = λ id h. ground arith;
    doomed = tt;
  };
  waiting = refl;
  no_turns = refl;
  turn_zero = refl;
  no_robots = refl;
  no_bombs = refl;
  none_doomed = refl;
}
