-- ===== src/Server/Invariant/Waiting.antt =====
-- A server that asks for no players: game-engine.cpp compares the number of players with
-- `players_count` only after a player was added.
use bomberrobots.Base.{
  ℕ, ◌≡◌, refl, ◌∙◌, false, inl, inr, List, ok, arith, Option-cases, length, ◌==◌, or_fail,
  false≢true, sym, get_elem?, out_of_range, uninitialised, Returns, Ensures, Ensures-after,
  Ensures-if, Returns-Ensures,
}
use bomberrobots.Containers.Maps
use bomberrobots.Containers.Maps.{Map}
use bomberrobots.Messages.{Bytes, Player}
use bomberrobots.Events.{Event}
use bomberrobots.Server.Connections.{get_address, new_handler}
use bomberrobots.Server.Engine.{ServerParameters, Engine, add_event_at, send_to_all, new_engine}
use bomberrobots.Server.Handlers.{
  ClientMessage, join, place_bomb, place_block, move, active_robot, accept_player, handle_join,
  drop_bomb, handle_place_bomb, drop_block, handle_place_block, new_position, move_robot,
  handle_move, check_position_to_move, execute,
}
use bomberrobots.Server.Rounds.{Round, manage_connections}
use bomberrobots.Server.Rounds.Preserved.{manage_connections_kept}
use bomberrobots.Server.Invariant.{IsPlayable, Lobby, Between}
use bomberrobots.Server.Invariant.Rounds.{IsCivilRun, server_runs}

abbrev pub IsWaiting : Engine → Type 0
IsWaiting e = (e.gameplay_started ≡ false) × (e.game_params.players_count ≡ 0)

add_event_at-IsWaiting :
    (k : ℕ) (event : Event) (e : Engine) → IsWaiting e → Ensures IsWaiting (add_event_at k event e)
unfolding add_event_at
add_event_at-IsWaiting k event e w =
    Ensures-after IsWaiting (or_fail (get_elem? e.turns k) out_of_range) _ (λ info. w)

accept_player-IsWaiting :
    (name : Bytes) (i : ℕ) (e : Engine) → IsWaiting e → Ensures IsWaiting (accept_player name i e)
unfolding accept_player send_to_all
accept_player-IsWaiting name i e (waiting, nobody) =
    Ensures-after IsWaiting (get_address i e.tcp_handler) _ (λ address.
      let id = e.next_player_id in
      let player : Player = record { name = name; address = address } in
      let some_players : (length (Maps.insert id player e.players) == e.game_params.players_count)
          ≡ false =
        ground (arith, Maps.length-insert_pos id player e.players) in
      rw some_players (waiting, nobody))

drop_bomb-IsWaiting : (p_id : ℕ) (e : Engine) → IsWaiting e → Ensures IsWaiting (drop_bomb p_id e)
unfolding drop_bomb
drop_bomb-IsWaiting p_id e w =
    Ensures-after IsWaiting (or_fail (Maps.find p_id e.players_positions) out_of_range) _
      (λ position. add_event_at-IsWaiting e.current_turn _ _ w)

drop_block-IsWaiting : (p_id : ℕ) (e : Engine) → IsWaiting e → Ensures IsWaiting (drop_block p_id e)
unfolding drop_block
drop_block-IsWaiting p_id e w =
    Ensures-after IsWaiting (or_fail (Maps.find p_id e.players_positions) out_of_range) _
      (λ position. add_event_at-IsWaiting e.current_turn _ _ w)

move_robot-IsWaiting :
    (direction p_id : ℕ) (e : Engine)
    → IsWaiting e
    → Ensures IsWaiting (move_robot direction p_id e)
unfolding move_robot
move_robot-IsWaiting direction p_id e w =
    Ensures-after IsWaiting (or_fail (Maps.find p_id e.players_positions) out_of_range) _
      (λ position.
        Ensures-after IsWaiting (or_fail (new_position direction position) uninitialised) _
          (λ target.
            Ensures-if IsWaiting (check_position_to_move target e) _ _
              (λ free. add_event_at-IsWaiting e.current_turn _ _ w) (λ taken. w)))

execute-IsWaiting :
    (msg : ClientMessage) (i : ℕ) (e : Engine) → IsWaiting e → Ensures IsWaiting (execute msg i e)
unfolding execute handle_join handle_place_bomb handle_place_block handle_move
execute-IsWaiting (join name) i e w =
    Ensures-if IsWaiting e.gameplay_started (ok e) _ (λ _. w)
      (λ _. accept_player-IsWaiting name i e w)
execute-IsWaiting place_bomb i e w = elim (Option-cases (active_robot i e)) [
  | inl idle ↦ rw (idle, handle_place_bomb) w
  | inr (p_id, active) ↦ rw (active, handle_place_bomb) (drop_bomb-IsWaiting p_id e w)
]
execute-IsWaiting place_block i e w = elim (Option-cases (active_robot i e)) [
  | inl idle ↦ rw (idle, handle_place_block) w
  | inr (p_id, active) ↦ rw (active, handle_place_block) (drop_block-IsWaiting p_id e w)
]
execute-IsWaiting (move direction) i e w = elim (Option-cases (active_robot i e)) [
  | inl idle ↦ rw (idle, handle_move) w
  | inr (p_id, active) ↦ rw (active, handle_move) (move_robot-IsWaiting direction p_id e w)
]

manage_connections-IsWaiting :
    (rs : List Round) (e : Engine) → IsWaiting e → Ensures IsWaiting (manage_connections rs e)
manage_connections-IsWaiting =
    manage_connections_kept IsWaiting IsWaiting (λ e h w. w) (λ e h w. w)
      (λ e w started. absurd (false≢true (sym w.0 ∙ started))) (λ e w waiting. w) execute-IsWaiting
      (λ e w started. absurd (false≢true (sym w.0 ∙ started))) (λ e w waiting. w)

-- A server whose number of players is 0, as 256 on the command line makes it, never starts a game,
-- however many players join: every run that `server_runs` is about ends in the lobby.
pub server_waits :
    (params : ServerParameters) (socket_fd : ℕ) (rs : List Round)
    → IsPlayable params
    → params.players_count ≡ 0
    → IsCivilRun rs (new_engine params (new_handler socket_fd))
    → Returns Lobby (manage_connections rs (new_engine params (new_handler socket_fd)))
unfolding new_engine
server_waits params socket_fd rs h nobody civil =
    let e = new_engine params (new_handler socket_fd) in
    Returns-Ensures Between IsWaiting Lobby (manage_connections rs e)
      (server_runs params socket_fd rs h civil) (manage_connections-IsWaiting rs e (refl, nobody))
      in_lobby
  where
    in_lobby : (e : Engine) → Between e → IsWaiting e → Lobby e
    in_lobby e (inl v) w = v
    in_lobby e (inr (v, left)) w = absurd (false≢true (sym w.0 ∙ v.started))
