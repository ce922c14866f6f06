-- ===== src/Client/Session/Follows.antt =====
-- The client's handlers against what the server sends.
use bomberrobots.Base.{
  ℕ, ◌^◌, ◌<◌, ◌≡◌, refl, true, false, [], ◌∷◌, ◌++◌, append_assoc, ok, ok->>=, ok_inj, arith,
  subst,
}
use bomberrobots.Containers.Maps.{Map}
use bomberrobots.Messages.{Bytes, Player}
use bomberrobots.Encoding.{
  uint8_to_byte, uint16_to_bytes, string_to_bytes, player_to_bytes, player_map_to_bytes,
  score_map_to_bytes, sized,
}
use bomberrobots.Events.{TurnInfo, turn_to_bytes, event_to_bytes}
use bomberrobots.Server.Engine.{ServerParameters, hello_msg, accepted_player_msg, game_started_msg}
use bomberrobots.Client.Stream.{pure, ◌>>=◌, lift, read_uint8, read_uint16}
use bomberrobots.Client.Stream.RoundTrip.{
  Decodes, Decodes->>=, Decodes-last, Decodes-end, Decodes-lift, IsShort, read_uint8-uint8_to_byte,
  read_uint16-uint16_to_bytes, read_string-string_to_bytes,
}
use bomberrobots.Client.State.{LobbyInfo, GameInfo, add_player, clear_players, new_turn}
use bomberrobots.Client.Reading.{read_players_map, read_scores_map, read_event_list}
use bomberrobots.Client.Reading.Spec.{follow_turn}
use bomberrobots.Client.Reading.Tables.{
  read_players_map-player_map_to_bytes, read_scores_map-score_map_to_bytes,
}
use bomberrobots.Client.Reading.Follows.{read_event_list-append_each}
use bomberrobots.Client.Display.{game_message}
use bomberrobots.Client.Session.{
  Client, send_gui_message, read_hello, handle_hello_msg, read_accepted_player,
  handle_accepted_player_msg, read_game_started, handle_game_started_msg, read_turn,
  handle_turn_message, handle_game_ended_msg, handle_body, handle_server_message,
}
use bomberrobots.Client.Session.Spec.{
  ServerMessage, hello, accepted_player, game_started, turn, game_ended, server_bytes, lobby_of,
  show_lobby, game_of, understand, IsSendable,
}

-- The message after its code.
abbrev hello_payload : ServerParameters → Bytes
hello_payload params =
    string_to_bytes params.server_name
    ++ (uint8_to_byte params.players_count
        ∷ (uint16_to_bytes params.size_x
            ++ (uint16_to_bytes params.size_y
                ++ (uint16_to_bytes params.game_length
                    ++ (uint16_to_bytes params.explosion_radius
                        ++ uint16_to_bytes params.bomb_timer)))))

read_hello_lem :
    (params : ServerParameters)
    → IsSendable (hello params)
    → Decodes read_hello (hello_payload params) (lobby_of params)
unfolding read_hello uint16_to_bytes
read_hello_lem params (hn, hc, hx, hy, hl, hr, ht) rest arriving = rw (append_assoc) (
    rw (read_string-string_to_bytes params.server_name hn, ◌>>=◌)
      (rw (read_uint8-uint8_to_byte params.players_count hc, ◌>>=◌)
        (rw (read_uint16-uint16_to_bytes params.size_x hx, ◌>>=◌)
          (rw (read_uint16-uint16_to_bytes params.size_y hy, ◌>>=◌)
            (rw (read_uint16-uint16_to_bytes params.game_length hl, ◌>>=◌)
              (rw (read_uint16-uint16_to_bytes params.explosion_radius hr, ◌>>=◌)
                (rw (read_uint16-uint16_to_bytes params.bomb_timer ht, ◌>>=◌) refl)))))))

handle_hello_lem :
    (params : ServerParameters) (c : Client)
    → IsSendable (hello params)
    → Decodes
        (handle_hello_msg c)
        (hello_payload params)
        (record (show_lobby (lobby_of params) c) { is_lobby_status = true })
unfolding handle_hello_msg
handle_hello_lem params c h =
    Decodes-last read_hello (λ l. record (show_lobby l c) { is_lobby_status = true })
      (hello_payload params) (lobby_of params) (read_hello_lem params h)

read_accepted_player_lem :
    (id : ℕ) (player : Player) (l : LobbyInfo)
    → id < 2 ^ 8
    → IsShort player
    → Decodes
        (read_accepted_player l)
        (uint8_to_byte id ∷ player_to_bytes player)
        (add_player id player l)
unfolding read_accepted_player player_to_bytes
read_accepted_player_lem id player l hi (hn, ha) rest arriving =
    rw (read_uint8-uint8_to_byte id hi, ◌>>=◌)
      (rw (append_assoc) (
        rw (read_string-string_to_bytes player.name hn, ◌>>=◌)
          (rw (read_string-string_to_bytes player.address ha, ◌>>=◌) refl)))

handle_accepted_player_lem :
    (id : ℕ) (player : Player) (c : Client)
    → id < 2 ^ 8
    → IsShort player
    → Decodes
        (handle_accepted_player_msg c)
        (uint8_to_byte id ∷ player_to_bytes player)
        (show_lobby (add_player id player c.lobby_info) c)
unfolding handle_accepted_player_msg
handle_accepted_player_lem id player c hi hp =
    Decodes-last (read_accepted_player c.lobby_info) (λ l. show_lobby l c)
      (uint8_to_byte id ∷ player_to_bytes player) (add_player id player c.lobby_info)
      (read_accepted_player_lem id player c.lobby_info hi hp)

handle_game_started_lem :
    (players : Map Player) (c : Client) (g : GameInfo)
    → IsSendable (game_started players)
    → game_of c ≡ ok g
    → Decodes
        (handle_game_started_msg c)
        (player_map_to_bytes players)
        (record c { game_info = g; is_lobby_status = false })
unfolding handle_game_started_msg read_game_started
handle_game_started_lem players c g (small, h) e =
    Decodes-last (read_game_started c) (λ g'. record c { game_info = g'; is_lobby_status = false })
      (player_map_to_bytes players) g
      (Decodes-lift (game_of c) (λ g'. read_players_map >>= λ _. pure g') g
        (player_map_to_bytes players) g e
        (Decodes-last read_players_map (λ _. g) (player_map_to_bytes players) _
          (read_players_map-player_map_to_bytes players small h)))

read_turn_lem :
    (info : TurnInfo) (g g' : GameInfo)
    → IsSendable (turn info)
    → follow_turn info g ≡ ok g'
    → Decodes (read_turn g) (uint16_to_bytes info.turn ++ sized event_to_bytes info.events) g'
unfolding read_turn
read_turn_lem info g g' (ht, small, h) e =
    Decodes->>= read_uint16 (λ n. read_event_list (new_turn n g)) (uint16_to_bytes info.turn)
      (sized event_to_bytes info.events) info.turn g' (read_uint16-uint16_to_bytes info.turn ht)
      (read_event_list-append_each info.events (new_turn info.turn g) g' small h e)

handle_turn_lem :
    (info : TurnInfo) (c : Client) (g : GameInfo) (drawing : Bytes)
    → IsSendable (turn info)
    → follow_turn info c.game_info ≡ ok g
    → game_message g ≡ ok drawing
    → Decodes
        (handle_turn_message c)
        (uint16_to_bytes info.turn ++ sized event_to_bytes info.events)
        (send_gui_message drawing (record c { game_info = g }))
unfolding handle_turn_message
handle_turn_lem info c g drawing h e d =
    let drawn = send_gui_message drawing (record c { game_info = g }) in
    Decodes-end (read_turn c.game_info)
      (λ g'.
        lift (game_message g') >>= λ m. pure (send_gui_message m (record c { game_info = g' })))
      (uint16_to_bytes info.turn ++ sized event_to_bytes info.events) g drawn
      (read_turn_lem info c.game_info g h e)
      (Decodes-lift (game_message g) (λ m. pure (send_gui_message m (record c { game_info = g })))
        drawing [] drawn d (λ rest arriving. refl))

handle_game_ended_lem :
    (scores : Map ℕ) (c : Client)
    → IsSendable (game_ended scores)
    → Decodes
        (handle_game_ended_msg c)
        (score_map_to_bytes scores)
        (record (show_lobby (clear_players c.lobby_info) c) { is_lobby_status = true })
unfolding handle_game_ended_msg
handle_game_ended_lem scores c (small, h) =
    Decodes-last read_scores_map
      (λ _. record (show_lobby (clear_players c.lobby_info) c) { is_lobby_status = true })
      (score_map_to_bytes scores) _ (read_scores_map-score_map_to_bytes scores small h)

-- The code of a message, then the rest of it.
coded_lem :
    (code : ℕ) (payload : Bytes) (c c' : Client)
    → code < 2 ^ 8
    → Decodes (handle_body code c) payload c'
    → Decodes (handle_server_message c) (uint8_to_byte code ∷ payload) c'
unfolding handle_server_message
coded_lem code payload c c' h d =
    Decodes->>= read_uint8 (λ k. handle_body k c) (uint8_to_byte code ∷ []) payload code c'
      (read_uint8-uint8_to_byte code h) d

pub handle_server_message_lem :
    (msg : ServerMessage) (c c' : Client)
    → IsSendable msg
    → understand msg c ≡ ok c'
    → Decodes (handle_server_message c) (server_bytes msg) c'
unfolding server_bytes understand handle_body hello_msg accepted_player_msg game_started_msg
    turn_to_bytes
handle_server_message_lem (hello params) c c' h e =
    coded_lem 0 (hello_payload params) c c' (omega arith) (
      subst (Decodes (handle_hello_msg c) (hello_payload params)) (ok_inj e)
        (handle_hello_lem params c h))
handle_server_message_lem (accepted_player id player) c c' (hi, hp) e =
    coded_lem 1 (uint8_to_byte id ∷ player_to_bytes player) c c' (omega arith) (
      subst (Decodes (handle_accepted_player_msg c) (uint8_to_byte id ∷ player_to_bytes player))
        (ok_inj e) (handle_accepted_player_lem id player c hi hp))
handle_server_message_lem (game_started players) c c' h e =
    let (g, made, done) =
      ok->>= (game_of c) (λ g. ok (record c { game_info = g; is_lobby_status = false })) c' e in
    coded_lem 2 (player_map_to_bytes players) c c' (omega arith) (
      subst (Decodes (handle_game_started_msg c) (player_map_to_bytes players)) (ok_inj done)
        (handle_game_started_lem players c g h made))
handle_server_message_lem (turn info) c c' h e =
    let bytes = uint16_to_bytes info.turn ++ sized event_to_bytes info.events in
    let (g, followed, shown) = ok->>= (follow_turn info c.game_info) _ c' e in
    let (drawing, drawn, done) = ok->>= (game_message g) _ c' shown in
    coded_lem 3 bytes c c' (omega arith) (
      subst (Decodes (handle_turn_message c) bytes) (ok_inj done)
        (handle_turn_lem info c g drawing h followed drawn))
handle_server_message_lem (game_ended scores) c c' h e =
    coded_lem 4 (score_map_to_bytes scores) c c' (omega arith) (
      subst (Decodes (handle_game_ended_msg c) (score_map_to_bytes scores)) (ok_inj e)
        (handle_game_ended_lem scores c h))
