-- ===== src/Server/Invariant/Handlers.antt =====
-- The messages of clients: in a game none of them makes the server fail but a `move` with a
-- direction that there is not; in the lobby each but `join` does.
use bomberrobots.Base.{
  ℕ, ◌+◌, ◌%◌, ◌^◌, ◌≤◌, ◌<◌, ◌≡◌, refl, ◌⊎◌, Bool, true, false, inl, inr, none, some, ok, err,
  arith, ◌==◌, if◌then◌else◌, length, All-mono, or_fail, out_of_range, uninitialised, ◌>>=◌,
  Returns, Returns-mono, ==_refl,
}
use bomberrobots.Containers.Maps
use bomberrobots.Containers.Maps.{Map, contains, find}
use bomberrobots.Containers.Sets.{count}
use bomberrobots.Messages.{Bytes, Player}
use bomberrobots.Server.Connections.{get_address}
use bomberrobots.Server.Connections.Table.{Addressed-send_message_to_all}
use bomberrobots.Server.Engine.{Engine, send_to_all, accepted_player_msg}
use bomberrobots.Server.Turns.{start_gameplay}
use bomberrobots.Server.Handlers.{
  ClientMessage, join, place_bomb, place_block, move, active_robot, accept_player, handle_join,
  handle_place_bomb, handle_place_block, handle_move, execute,
}
use bomberrobots.Server.Invariant.{IsKey, Playing, Lobby}
use bomberrobots.Server.Invariant.Turns.{start_gameplay-Playing}
use bomberrobots.Server.Invariant.Robots.{
  Continues, active_robot_placed, place_bomb-Playing, place_block-Playing, new_position-none,
  move-Playing,
}

-- A direction that there is.
abbrev pub IsValid : ClientMessage → Type 0
IsValid (move direction) = direction < 4
IsValid _ = Unit

-- In a game every message with a valid direction is carried out without a failure, and the game
-- goes on in the same turn.
pub execute-Playing :
    (msg : ClientMessage) (i : ℕ) (e : Engine)
    → Playing e
    → IsValid msg
    → Returns (Continues e) (execute msg i e)
unfolding execute handle_join
execute-Playing (join name) i e v ok_msg = simp (v.started) (v, refl, refl)
execute-Playing place_bomb i e v ok_msg = place_bomb-Playing i e v
execute-Playing place_block i e v ok_msg = place_block-Playing i e v
execute-Playing (move direction) i e v ok_msg = move-Playing direction i e v ok_msg

-- In a game a client with an active robot that sends any other direction makes the server read a
-- position that was never written.
pub execute_move_invalid :
    (direction i p_id : ℕ) (e : Engine)
    → Playing e
    → active_robot i e ≡ some p_id
    → 4 ≤ direction
    → execute (move direction) i e ≡ err uninitialised
unfolding execute handle_move
execute_move_invalid direction i p_id e v active d =
    let (pos, at_pos, known, on) = active_robot_placed i p_id e v active in
    rw (active, handle_move)
      (rw (at_pos, or_fail, ◌>>=◌) (rw (new_position-none direction pos d, or_fail, ◌>>=◌)))

Lobby-active :
    (i p_id : ℕ) (e : Engine)
    → Lobby e
    → find i e.player_ids ≡ some p_id
    → active_robot i e ≡ some p_id
unfolding active_robot count
Lobby-active i p_id e v joined = ground (arith, v.none_doomed)

nowhere : (p_id : ℕ) (e : Engine) → Lobby e → find p_id e.players_positions ≡ none
unfolding find
nowhere p_id e v = rw (v.no_robots)

abbrev pub IsJoin : ClientMessage → Type 0
IsJoin (join name) = Unit
IsJoin _ = ⊥

-- Before the game has started, any other message than `join` from a client that has joined ends
-- the server: `players_positions.at` throws, and nobody catches.
pub execute_in-Lobby :
    (msg : ClientMessage) (i p_id : ℕ) (e : Engine)
    → Lobby e
    → find i e.player_ids ≡ some p_id
    → ¬ IsJoin msg
    → execute msg i e ≡ err out_of_range
unfolding execute handle_place_bomb handle_place_block handle_move
execute_in-Lobby (join name) i p_id e v joined other = absurd (other tt)
execute_in-Lobby place_bomb i p_id e v joined other =
    rw (Lobby-active i p_id e v joined, handle_place_bomb) (rw (nowhere p_id e v, or_fail, ◌>>=◌))
execute_in-Lobby place_block i p_id e v joined other =
    rw (Lobby-active i p_id e v joined, handle_place_block) (rw (nowhere p_id e v, or_fail, ◌>>=◌))
execute_in-Lobby (move direction) i p_id e v joined other =
    rw (Lobby-active i p_id e v joined, handle_move) (rw (nowhere p_id e v, or_fail, ◌>>=◌))

handle_join_lobby :
    (name : Bytes) (i : ℕ) (e : Engine)
    → e.gameplay_started ≡ false
    → handle_join name i e ≡ accept_player name i e
unfolding handle_join
handle_join_lobby name i e w = ground arith

abbrev pub Begins : Engine → Type 0
Begins e = Lobby e ⊎ (Playing e × (e.current_turn ≡ 0))

joined-Begins :
    (e : Engine) (full : Bool) → Lobby e → Returns Begins (if full then start_gameplay e else ok e)
joined-Begins e true v =
    Returns-mono (λ e'. Playing e' × (e'.current_turn ≡ 0)) Begins (start_gameplay e)
      (start_gameplay-Playing e v) (λ e' h. inr h)
joined-Begins e false v = inl v

-- The join of a client with an address is carried out in the lobby without a failure, and either the
-- lobby waits for more players or a game begins at turn 0.
pub join-Lobby :
    (name address : Bytes) (i : ℕ) (e : Engine)
    → Lobby e
    → get_address i e.tcp_handler ≡ ok address
    → Returns Begins (execute (join name) i e)
unfolding execute accept_player send_to_all
join-Lobby name address i e v found =
    let c = v.consistent in
    let id = e.next_player_id in
    let player : Player = record { name = name; address = address } in
    let told : Engine = send_to_all (accepted_player_msg id player) (record e {
      next_player_id = (id + 1) % 2 ^ 8;
      player_ids = Maps.insert_or_assign i id e.player_ids;
      players = Maps.insert id player e.players;
      scores = Maps.insert id 0 e.scores;
    }) in
    let lobby : Lobby told = record {
      consistent = record {
        playable = c.playable;
        addressed =
            Addressed-send_message_to_all (accepted_player_msg id player) e.tcp_handler c.addressed;
        robots = rw (v.no_robots) tt;
        blocks = c.blocks;
        ids =
            Maps.All-insert_or_assign (λ c. IsKey (Maps.insert id player e.players) c.1) i id
              e.player_ids (rw (Maps.contains-insert id id player e.players, ==_refl id))
              (All-mono (λ c. IsKey e.players c.1)
                (λ c. IsKey (Maps.insert id player e.players) c.1) e.player_ids
                (λ c h. ground (arith, Maps.contains-insert c.1 id player e.players)) c.ids);
        scored = λ j p. ground (
          arith,
          c.scored j,
          Maps.contains-insert j id player e.players,
          Maps.contains-insert j id 0 e.scores,
        );
        doomed = rw (v.none_doomed) tt;
      };
      waiting = v.waiting;
      no_turns = v.no_turns;
      turn_zero = v.turn_zero;
      no_robots = v.no_robots;
      no_bombs = v.no_bombs;
      none_doomed = v.none_doomed;
    } in
    rw (handle_join_lobby name i e v.waiting) (
      rw (found, ◌>>=◌)
        (joined-Begins told (length told.players == told.game_params.players_count) lobby))
