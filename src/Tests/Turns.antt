-- ===== src/Tests/Turns.antt =====
-- Moves, bombs and positions of clients at concrete inputs.
use bomberrobots.Base.{
  ℕ, ◌≡◌, ◌≢◌, refl, List, [], ◌∷◌, ◌++◌, none, some, true, false, arith, Returns, ◌>>=◌, All, ◌==◌,
  if◌then◌else◌, each, fold, length,
}
use bomberrobots.Containers.Maps.{find}
use bomberrobots.Containers.Sets.{count}
use bomberrobots.Messages.{Bytes}
use bomberrobots.Events.{Event}
use bomberrobots.Client.Reading.Spec.{follow_turn}
use bomberrobots.Server.Connections.{TcpHandler, descriptor, accept_client, new_handler}
use bomberrobots.Server.Engine.{Engine, new_engine}
use bomberrobots.Server.Turns.{begin_turn}
use bomberrobots.Server.Handlers.{active_robot, handle_move}
use bomberrobots.Server.Handlers.Moves.{landing, handle_move_lands}
use bomberrobots.Server.Rounds.{Round, greet, manage_connections}
use bomberrobots.Server.Rounds.Greetings.{greet_misses}
use bomberrobots.Server.Invariant.Log.{happened}
use bomberrobots.Server.Invariant.Bombs.{Explosions, begin_turn_bombs}
use bomberrobots.Server.Invariant.Replay.{follow_bomb, places}
use bomberrobots.Server.Invariant.Replay.Client.{begin_game, follow_turn-manage_connections}
use bomberrobots.Containers.Maps
use bomberrobots.Server.Connections.Buffer
use bomberrobots.Server.Handlers.Batches.{requests}
use bomberrobots.Tests.Runs.{busy, quiet, connects, joins, plants, planting-IsCivilRun}
use bomberrobots.Tests.Samples.{at, opened, two_clients, duel, duel-Playing}

-- Robot 0 goes to the right of (1, 1).
handle_move_lands_example :
    Returns
      (λ e'.
        (j : ℕ)
        → find j e'.players_positions
          ≡ (if 0 == j then some (landing duel 1 (at 1 1)) else find j duel.players_positions))
      (handle_move 1 1 duel)
unfolding active_robot find count
handle_move_lands_example =
    handle_move_lands duel duel-Playing 0 1 (at 1 1) refl refl 1 (omega arith)

-- The bomb at (2, 1) has one turn left, and another one more.
abbrev mined : Engine
mined = record duel {
  bombs =
      (0, record { position = at 2 1; timer = 1 })
      ∷ (1, record { position = at 5 3; timer = 3 })
      ∷ [];
}

begin_turn_bombs_example :
    Returns
      (λ e'.
        (e'.bombs ≡ (1, record { position = at 5 3; timer = 2 }) ∷ [])
        × ((news : List Event) × Explosions news (0 ∷ []) × (happened e'.turns ≡ [] ++ news)))
      (begin_turn mined)
begin_turn_bombs_example =
    begin_turn_bombs mined
      (record {
        consistent = record {
          playable = duel-Playing.consistent.playable;
          addressed = duel-Playing.consistent.addressed;
          robots = duel-Playing.consistent.robots;
          blocks = duel-Playing.consistent.blocks;
          ids = duel-Playing.consistent.ids;
          scored = duel-Playing.consistent.scored;
          doomed = duel-Playing.consistent.doomed;
        };
        started = refl;
        history = refl;
        turn_le = duel-Playing.turn_le;
        placed = duel-Playing.placed;
      })
      (omega arith) (omega arith, (omega arith, tt))

-- The first client speaks.
abbrev speaking : TcpHandler
speaking = record two_clients {
  poll_descriptors =
      opened 3
      ∷ record (opened 4) { pollin = true }
      ∷ opened 5
      ∷ record { fd = none; pollin = false; pollerr = false }
      ∷ [];
}

abbrev called : Engine
called = record duel { tcp_handler = speaking }

abbrev leaves : Round
leaves = record quiet { received = λ i. some [] }

-- A third client comes.
abbrev third : Round
third = record connects { accepted = some 6 }

greet_misses_example :
    (news : List (ℕ × Bytes)) × ((greet third duel).tcp_handler.sent ≡ [] ++ news)
    × All (λ m. m.0 ≢ 6) news
greet_misses_example =
    greet_misses third duel 3 6 (unfold accept_client in refl) (λ h. absurd (omega arith)) refl
      (unfold descriptor in (λ h. absurd (cc)))

-- The run leaves a bomb.
follow_turn-manage_connections_example :
    Returns
      (λ e.
        (places e.bombs ≡ fold follow_bomb (happened e.turns) [])
        × Returns
            (λ g. places g.bombs ≡ places e.bombs)
            (begin_game busy e.players >>= each follow_turn e.turns))
      (manage_connections
        (connects ∷ joins ∷ plants ∷ quiet ∷ [])
        (new_engine busy (new_handler 3)))
follow_turn-manage_connections_example =
    follow_turn-manage_connections busy 3 (connects ∷ joins ∷ plants ∷ quiet ∷ []) (omega arith)
      (omega arith) planting-IsCivilRun

-- It does.
planted :
    Returns
      (λ e. length e.bombs ≡ 1)
      (manage_connections
        (connects ∷ joins ∷ plants ∷ quiet ∷ [])
        (new_engine busy (new_handler 3)))
unfolding Maps.insert Maps.insert_or_assign new_handler Buffer.read_string new_engine requests
    manage_connections count
planted = refl
