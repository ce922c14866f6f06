-- ===== src/Server/Handlers/EmptyBoards.antt =====
-- game-engine.cpp: the start of a game on a board without cells, which the command line takes.
use bomberrobots.Base.{
  ℕ, ◌+◌, ◌<◌, ◌≡◌, refl, ◌⊎◌, inl, inr, true, false, ◌%◌, ◌^◌, ◌++◌, [], ◌∷◌, ok, err,
  division_by_zero, arith, ◌==◌, length, ◌>>=◌, Bool-cases,
}
use bomberrobots.Containers.Maps
use bomberrobots.Containers.Maps.{Map}
use bomberrobots.Messages.{Bytes, Player}
use bomberrobots.Server.Connections.{get_address}
use bomberrobots.Server.Engine.{Engine, send_to_all, accepted_player_msg, game_started_msg}
use bomberrobots.Server.Turns.{draw, draw_position, seed_player, seed_players, start_gameplay}
use bomberrobots.Server.Handlers.{join, accept_player, handle_join, execute}

-- The board has no cells.
abbrev pub IsEmpty : Engine → Type 0
IsEmpty e = (e.game_params.size_x ≡ 0) ⊎ (e.game_params.size_y ≡ 0)

draw_position_empty : (e : Engine) → IsEmpty e → draw_position e ≡ err division_by_zero
unfolding draw_position draw
draw_position_empty e (inl h) = rw h refl
draw_position_empty e (inr h) = elim (Bool-cases (e.game_params.size_x == 0)) [
  | inl none_wide ↦ rw none_wide refl
  | inr wide ↦ rw wide (rw h refl)
]

seed_players_empty :
    (players : Map Player) (e : Engine)
    → 0 < length players
    → IsEmpty e
    → seed_players players e ≡ err division_by_zero
unfolding seed_players seed_player
seed_players_empty [] e some_player h = absurd (omega arith)
seed_players_empty ((id, player) ∷ players) e some_player h =
    rw (draw_position_empty e h, ◌>>=◌) refl

start_gameplay_empty :
    (e : Engine) → 0 < length e.players → IsEmpty e → start_gameplay e ≡ err division_by_zero
unfolding start_gameplay send_to_all
start_gameplay_empty e some_player h =
    let begun : Engine = record e {
      gameplay_started = true;
      turns = e.turns ++ (record { turn = 0; events = [] }) ∷ [];
    } in
    let told : Engine = send_to_all (game_started_msg e.players) begun in
    rw (seed_players_empty e.players told some_player h, ◌>>=◌) refl

-- Before a game, on a board without columns or without rows, the join that completes the players
-- divides by zero. (The client has an address, and the next id is not in use.)
pub execute_join_empty :
    (name address : Bytes) (i : ℕ) (e : Engine)
    → IsEmpty e
    → e.gameplay_started ≡ false
    → get_address i e.tcp_handler ≡ ok address
    → Maps.contains e.next_player_id e.players ≡ false
    → length e.players + 1 ≡ e.game_params.players_count
    → execute (join name) i e ≡ err division_by_zero
unfolding execute handle_join accept_player send_to_all
execute_join_empty name address i e h waiting at_i new full =
    let player : Player = record { name = name; address = address } in
    let more : length (Maps.insert e.next_player_id player e.players) ≡ length e.players + 1 =
      Maps.length-insert e.next_player_id player e.players new in
    let starts : (length (Maps.insert e.next_player_id player e.players)
          == e.game_params.players_count)
        ≡ true =
      ground (arith, more, full) in
    let added : Engine = record e {
      next_player_id = (e.next_player_id + 1) % 2 ^ 8;
      player_ids = Maps.insert_or_assign i e.next_player_id e.player_ids;
      players = Maps.insert e.next_player_id player e.players;
      scores = Maps.insert e.next_player_id 0 e.scores;
    } in
    let told : Engine = send_to_all (accepted_player_msg e.next_player_id player) added in
    let some_player : 0 < length (Maps.insert e.next_player_id player e.players) =
      omega (arith, more) in
    rw waiting (rw (at_i, ◌>>=◌) (rw starts (start_gameplay_empty told some_player h)))
