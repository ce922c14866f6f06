-- ===== src/Client/Display.antt =====
-- robots-client.cpp: the messages that the client sends to the GUI.
use bomberrobots.Base.{◌∷◌, ◌++◌, Result, ok, or_fail, uninitialised, ◌>>=◌}
use bomberrobots.Messages.{Bytes}
use bomberrobots.Messages.Codes.{draw_message_code, DrawMessageCode}
use bomberrobots.Encoding.{
  uint8_to_byte, uint16_to_bytes, string_to_bytes, position_set_to_bytes, bomb_set_to_bytes,
  player_map_to_bytes, player_position_map_to_bytes, score_map_to_bytes,
}
use bomberrobots.Client.State.{LobbyInfo, GameInfo}

unfoldable pub lobby_message : LobbyInfo → Bytes
lobby_message l =
    uint8_to_byte (draw_message_code DrawMessageCode.lobby)
    ∷ (string_to_bytes l.server_name
        ++ (uint8_to_byte l.players_count
            ∷ (uint16_to_bytes l.size_x
                ++ (uint16_to_bytes l.size_y
                    ++ (uint16_to_bytes l.game_length
                        ++ (uint16_to_bytes l.explosion_radius
                            ++ (uint16_to_bytes l.bomb_timer ++ player_map_to_bytes l.players)))))))

unfoldable pub game_message : GameInfo → Result Bytes
game_message g = do
  turn ← or_fail g.turn uninitialised
  ok (
      uint8_to_byte (draw_message_code DrawMessageCode.game)
      ∷ (string_to_bytes g.server_name
          ++ (uint16_to_bytes g.size_x
              ++ (uint16_to_bytes g.size_y
                  ++ (uint16_to_bytes g.game_length
                      ++ (uint16_to_bytes turn
                          ++ (player_map_to_bytes g.players
                              ++ (player_position_map_to_bytes g.player_positions
                                  ++ (position_set_to_bytes g.blocks
                                      ++ (bomb_set_to_bytes g.bombs
                                          ++ (position_set_to_bytes g.explosions
                                              ++ score_map_to_bytes g.scores)))))))))))
