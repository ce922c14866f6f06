-- ===== src/Server/Startup/Laws.antt =====
-- The start and the end of the server.
use bomberrobots.Base.{
  ℕ, zero, suc, ◌%◌, ◌^◌, ◌≡◌, ◌<◌, refl, ltb, false, List, [], ◌∷◌, none, some, ok, arith, ◌>>=◌,
  All, All-mono, Option-cases, inl, inr, get_elem?, Returns, Returns-ok, or_fail,
}
use bomberrobots.Errors.{check_errno_exit}
use bomberrobots.Server.Connections.{Pollfd, new_handler, descriptor}
use bomberrobots.Server.Engine.{ServerParameters, new_engine}
use bomberrobots.Server.Rounds.{Round, manage_connections}
use bomberrobots.Server.Options.{parse_parameters, parameters}
use bomberrobots.Server.Options.Laws.{given}
use bomberrobots.Server.Startup.{
  System, new_tcp_handler, open_socket, bind_socket, start_listening, close_conn, start_game,
  Finished, main,
}
use bomberrobots.Server.Invariant.{IsPlayable, Between}
use bomberrobots.Server.Invariant.Rounds.{IsCivilRun, server_runs}

-- `closed` are the open descriptors of a table: each of them stands at a position, and each position
-- that has one is among them.
abbrev pub ClosesAll : List Pollfd → List ℕ → Type 0
ClosesAll ds closed =
    All (λ fd. (i : ℕ) × (descriptor i ds ≡ some fd)) closed
    × ((i fd : ℕ) → descriptor i ds ≡ some fd → (j : ℕ) × (get_elem? closed j ≡ some fd))

abbrev Covers : List Pollfd → List ℕ → Type 0
Covers ds closed = (i fd : ℕ) → descriptor i ds ≡ some fd → (j : ℕ) × (get_elem? closed j ≡ some fd)

Covers-shut :
    (d : Pollfd) (ds : List Pollfd) (closed : List ℕ)
    → d.fd ≡ none
    → Covers ds closed
    → Covers (d ∷ ds) closed
unfolding descriptor
Covers-shut d ds closed shut to zero fd h = absurd (cc)
Covers-shut d ds closed shut to (suc i) fd h = to i fd h

Covers-open :
    (d : Pollfd) (ds : List Pollfd) (closed : List ℕ) (opened : ℕ)
    → d.fd ≡ some opened
    → Covers ds closed
    → Covers (d ∷ ds) (opened ∷ closed)
unfolding descriptor
Covers-open d ds closed opened at_d to zero fd h = (0, cc)
Covers-open d ds closed opened at_d to (suc i) fd h = let (j, at_j) = to i fd h in (suc j, at_j)

close_conn-ClosesAll :
    (close_errno : ℕ → ℕ) (ds : List Pollfd)
    → ((fd : ℕ) → close_errno fd ≡ 0)
    → (closed : List ℕ) × (close_conn close_errno ds ≡ ok closed) × ClosesAll ds closed
unfolding close_conn descriptor check_errno_exit
close_conn-ClosesAll close_errno [] fine = ([], refl, (tt, λ i fd h. absurd (cc)))
close_conn-ClosesAll close_errno (d ∷ ds) fine =
    let (closed, rest, (from, to)) = close_conn-ClosesAll close_errno ds fine in
    let later : All (λ fd. (i : ℕ) × (descriptor i (d ∷ ds) ≡ some fd)) closed =
      All-mono (λ fd. (i : ℕ) × (descriptor i ds ≡ some fd))
        (λ fd. (i : ℕ) × (descriptor i (d ∷ ds) ≡ some fd)) closed (λ fd (i, h). (suc i, h)) from in
    elim (Option-cases d.fd) [
      | inl shut ↦ (closed, rw (shut, close_conn) rest, (later, Covers-shut d ds closed shut to))
      | inr (fd, opened) ↦ (
        fd ∷ closed,
        rw (opened, close_conn) (rw (fine fd, check_errno_exit) (rw rest)),
        (((0, opened), later), Covers-open d ds closed fd opened to),
      )
    ]

-- What `Finished` says of a run that ended well.
abbrev pub EndsWell : Finished → Type 0
EndsWell f = Between f.engine × ClosesAll f.engine.tcp_handler.poll_descriptors f.closed

-- The whole program: let the command line be complete, with parameters that can be played and a number of
-- players other than 0, let the calls that open, bind, listen and close succeed, and let polls work and
-- clients send messages that the server can carry out. Then the program ends without a failure after any
-- number of rounds, in the lobby or in a game with turns left, and what it closes at the end are exactly the
-- descriptors that are open.
pub main_runs :
    (p : ServerParameters) (now count port socket_fd : ℕ) (s : System) (rs : List Round)
    → IsPlayable p
    → 0 < count
    → s.socket ≡ some socket_fd
    → s.bind_errno ≡ 0
    → s.listen_errno ≡ 0
    → ((fd : ℕ) → s.close_errno fd ≡ 0)
    → IsCivilRun rs
        (new_engine (record p { players_count = count % 2 ^ 8 }) (new_handler socket_fd))
    → Returns EndsWell (main s now rs (given p count (some p.seed) port))
unfolding main new_tcp_handler open_socket bind_socket start_game start_listening check_errno_exit
    parse_parameters parameters
main_runs p now count port socket_fd s rs h some_players opened bound listening closes civil =
    let params : ServerParameters = record p { players_count = count % 2 ^ 8 } in
    let playable : IsPlayable params = record {
      size_x_pos = h.size_x_pos;
      size_x_lt = h.size_x_lt;
      size_y_pos = h.size_y_pos;
      size_y_lt = h.size_y_lt;
      radius_lt = h.radius_lt;
      game_length_lt = h.game_length_lt;
    } in
    let (e, ran, v) =
      Returns-ok Between (manage_connections rs (new_engine params (new_handler socket_fd)))
        (server_runs params socket_fd rs playable civil) in
    let (closed, at_end, all) =
      close_conn-ClosesAll s.close_errno e.tcp_handler.poll_descriptors closes in
    let positive : ltb count 1 ≡ false = ground arith in
    rw positive (
      rw (opened, or_fail, ◌>>=◌)
        (rw bound (rw listening (rw (ran, ◌>>=◌) (rw (at_end, ◌>>=◌) (v, all))))))
