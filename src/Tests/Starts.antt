-- ===== src/Tests/Starts.antt =====
-- The server's command line, its start and its generator of random numbers.
use bomberrobots.Base.{◌≡◌, refl, [], ◌∷◌, some, ok, arith, Returns, ◌>>=◌}
use bomberrobots.Server.Connections.{new_handler}
use bomberrobots.Server.Engine.{ServerParameters, new_engine}
use bomberrobots.Server.Random.{seeded}
use bomberrobots.Server.Random.Range.{IsState, drawn, drawn_bounds}
use bomberrobots.Server.Rounds.{manage_connections}
use bomberrobots.Server.Options.{parse_parameters, parameters}
use bomberrobots.Server.Options.Laws.{given, parse_parameters-parameters}
use bomberrobots.Server.Startup.{System, main}
use bomberrobots.Server.Startup.Laws.{EndsWell, main_runs}
use bomberrobots.Server.Invariant.{Lobby}
use bomberrobots.Server.Invariant.Waiting.{server_waits}
use bomberrobots.Tests.Runs.{
  busy, plants, planting-IsCivilRun, quiet, connects, joins, visit-IsCivilRun,
}
use bomberrobots.Tests.Samples.{small}

drawn_bounds_example : IsState (drawn 2 (seeded 7))
drawn_bounds_example = drawn_bounds 2 7

parse_parameters-parameters_example :
    (parse_parameters 5 (given small 256 (some small.seed) 2022) >>= parameters)
    ≡ ok (record small { players_count = 0 })
parse_parameters-parameters_example = parse_parameters-parameters small 5 256 2022

abbrev working : System
working = record {
  socket = some 3;
  bind_errno = 0;
  listen_errno = 0;
  sigaction_errno = 0;
  close_errno = λ fd. 0;
}

main_runs_example :
    Returns EndsWell
      (main working 5 (connects ∷ joins ∷ plants ∷ quiet ∷ []) (given busy 1 (some busy.seed) 2022))
main_runs_example =
    main_runs busy 5 1 2022 3 working (connects ∷ joins ∷ plants ∷ quiet ∷ []) (omega arith)
      (omega arith) refl refl refl (λ fd. refl) planting-IsCivilRun

-- 256 players on the command line.
abbrev nobody : ServerParameters
nobody = record small { players_count = 0 }

server_waits_example :
    Returns Lobby (
      manage_connections
        (connects ∷ joins ∷ quiet ∷ quiet ∷ [])
        (new_engine nobody (new_handler 3)))
server_waits_example =
    server_waits nobody 3 (connects ∷ joins ∷ quiet ∷ quiet ∷ []) (omega arith) refl
      (visit-IsCivilRun (new_engine nobody (new_handler 3)))
