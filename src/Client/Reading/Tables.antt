-- ===== src/Client/Reading/Tables.antt =====
-- The readers of maps against the bytes that byte-parser.cpp writes.
use bomberrobots.Base.{ℕ, ◌^◌, ◌<◌, [], ◌∷◌, fold, length, All}
use bomberrobots.Containers.Maps
use bomberrobots.Containers.Maps.{Map}
use bomberrobots.Messages.{Player}
use bomberrobots.Encoding.{
  uint8_to_byte, uint32_to_bytes, player_to_bytes, player_map_to_bytes, score_map_to_bytes,
}
use bomberrobots.Client.Stream.{pure, ◌>>=◌, read_uint8, read_uint32, read_player}
use bomberrobots.Client.Stream.RoundTrip.{
  Decodes, Decodes->>=, Decodes-last, IsShort, read_uint8-uint8_to_byte,
  read_uint32-uint32_to_bytes, read_player-player_to_bytes, sized-fold,
}
use bomberrobots.Client.Reading.{
  read_players_entry, read_players_map, read_scores_entry, read_scores_map,
}

pub read_players_map-player_map_to_bytes :
    (players : Map Player)
    → length players < 2 ^ 32
    → All (λ p. (p.0 < 2 ^ 8) × IsShort p.1) players
    → Decodes read_players_map
        (player_map_to_bytes players)
        (fold (λ p m. Maps.insert p.0 p.1 m) players [])
unfolding read_players_map player_map_to_bytes read_players_entry
read_players_map-player_map_to_bytes players small h =
    sized-fold read_players_entry (λ p m. Maps.insert p.0 p.1 m)
      (λ p. uint8_to_byte p.0 ∷ player_to_bytes p.1) (λ p. (p.0 < 2 ^ 8) × IsShort p.1)
      (λ p m fit.
        Decodes->>= read_uint8 (λ key. read_player >>= λ value. pure (Maps.insert key value m))
          (uint8_to_byte p.0 ∷ []) (player_to_bytes p.1) p.0 (Maps.insert p.0 p.1 m)
          (read_uint8-uint8_to_byte p.0 fit.0)
          (Decodes-last read_player (λ value. Maps.insert p.0 value m) (player_to_bytes p.1) p.1
            (read_player-player_to_bytes p.1 fit.1)))
      players [] small h

pub read_scores_map-score_map_to_bytes :
    (scores : Map ℕ)
    → length scores < 2 ^ 32
    → All (λ p. (p.0 < 2 ^ 8) × (p.1 < 2 ^ 32)) scores
    → Decodes read_scores_map
        (score_map_to_bytes scores)
        (fold (λ p m. Maps.insert p.0 p.1 m) scores [])
unfolding read_scores_map score_map_to_bytes read_scores_entry
read_scores_map-score_map_to_bytes scores small h =
    sized-fold read_scores_entry (λ p m. Maps.insert p.0 p.1 m)
      (λ p. uint8_to_byte p.0 ∷ uint32_to_bytes p.1) (λ p. (p.0 < 2 ^ 8) × (p.1 < 2 ^ 32))
      (λ p m fit.
        Decodes->>= read_uint8 (λ key. read_uint32 >>= λ value. pure (Maps.insert key value m))
          (uint8_to_byte p.0 ∷ []) (uint32_to_bytes p.1) p.0 (Maps.insert p.0 p.1 m)
          (read_uint8-uint8_to_byte p.0 fit.0)
          (Decodes-last read_uint32 (λ value. Maps.insert p.0 value m) (uint32_to_bytes p.1) p.1
            (read_uint32-uint32_to_bytes p.1 fit.1)))
      scores [] small h
