-- ===== src/Tests/Games.antt =====
-- Messages, turns and whole runs.
use bomberrobots.Base.{
  division_by_zero, inl, ℕ, ◌≢◌, ◌≡◌, refl, some, false, length, [], ◌∷◌, err, out_of_range,
  uninitialised, arith, Returns,
}
use bomberrobots.Containers.Maps.{find, contains}
use bomberrobots.Containers.Sets.{count}
use bomberrobots.Server.Connections.{get_address, new_handler}
use bomberrobots.Server.Engine.{Engine, new_engine}
use bomberrobots.Server.Turns.{begin_turn, summarise_turn, start_gameplay}
use bomberrobots.Server.Handlers.{join, place_block, move, active_robot, execute}
use bomberrobots.Server.Rounds.{manage_connections}
use bomberrobots.Server.Handlers.Rejoins.{execute_join_again}
use bomberrobots.Server.Invariant.{IsKey, Playing, Between}
use bomberrobots.Server.Invariant.Turns.{
  begin_turn-Playing, Settled, summarise_turn-Settled, start_gameplay-Playing,
}
use bomberrobots.Server.Invariant.Robots.{Continues}
use bomberrobots.Server.Invariant.Handlers.{
  Begins, execute-Playing, execute_move_invalid, execute_in-Lobby, join-Lobby,
}
use bomberrobots.Server.Invariant.Rounds.{server_runs}
use bomberrobots.Server.Handlers.EmptyBoards.{execute_join_empty}
use bomberrobots.Tests.Runs.{solo, solo-IsPlayable, quiet, connects, joins, visit-IsCivilRun}
use bomberrobots.Tests.Samples.{small, duel, duel-Playing, gathering, gathering-Lobby}

execute-Playing_example : Returns (Continues duel) (execute (move 2) 1 duel)
execute-Playing_example = execute-Playing (move 2) 1 duel duel-Playing (omega arith)

execute_move_invalid_example : execute (move 9) 2 duel ≡ err uninitialised
unfolding active_robot find count
execute_move_invalid_example = execute_move_invalid 9 2 1 duel duel-Playing refl (omega arith)

execute_in-Lobby_example : execute place_block 1 gathering ≡ err out_of_range
unfolding find
execute_in-Lobby_example = execute_in-Lobby place_block 1 0 gathering gathering-Lobby refl (λ h. h)

join-Lobby_example : Returns Begins (execute (join (b'B' ∷ [])) 2 gathering)
unfolding get_address
join-Lobby_example = join-Lobby (b'B' ∷ []) (b'b' ∷ []) 2 gathering gathering-Lobby refl

begin_turn-Playing_example :
    Returns (λ e'. Playing e' × (e'.current_turn ≡ 2) × (e'.game_params ≡ small)) (begin_turn duel)
begin_turn-Playing_example = begin_turn-Playing duel duel-Playing (omega arith)

summarise_turn-Settled_example : Returns (Settled 1 5) (summarise_turn duel)
summarise_turn-Settled_example = summarise_turn-Settled duel duel-Playing

start_gameplay-Playing_example :
    Returns (λ e'. Playing e' × (e'.current_turn ≡ 0)) (start_gameplay gathering)
start_gameplay-Playing_example = start_gameplay-Playing gathering gathering-Lobby

server_runs_example :
    Returns Between
      (manage_connections (connects ∷ joins ∷ quiet ∷ quiet ∷ []) (new_engine solo (new_handler 3)))
server_runs_example =
    server_runs solo 3 (connects ∷ joins ∷ quiet ∷ quiet ∷ []) solo-IsPlayable
      (visit-IsCivilRun (new_engine solo (new_handler 3)))

-- A lobby for three players, of whom the first client has become one.
abbrev roomy : Engine
roomy = record gathering { game_params = record small { players_count = 3 } }

execute_join_again_example :
    Returns
      (λ e'.
        (length e'.players ≡ 2)
        × (find 1 e'.player_ids ≡ some 1)
        × IsKey e'.players 0
        × ((j : ℕ) → find j e'.player_ids ≢ some 0)
        × (e'.gameplay_started ≡ false))
      (execute (join (b'A' ∷ [])) 1 roomy)
unfolding get_address find contains
execute_join_again_example =
    execute_join_again (b'A' ∷ []) (b'a' ∷ []) 1 0 roomy refl refl refl refl
      (λ j h. ground (arith, h)) refl (λ h. absurd (omega arith))

-- The same lobby for two players, with a board that has no columns.
abbrev narrow : Engine
narrow = record gathering { game_params = record small { size_x = 0 } }

execute_join_empty_example : execute (join (b'B' ∷ [])) 2 narrow ≡ err division_by_zero
unfolding get_address find contains
execute_join_empty_example =
    execute_join_empty (b'B' ∷ []) (b'b' ∷ []) 2 narrow (inl refl) refl refl refl refl
