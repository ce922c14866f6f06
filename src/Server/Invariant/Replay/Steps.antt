-- ===== src/Server/Invariant/Replay/Steps.antt =====
-- game-engine.cpp: what is done in a game keeps the bombs of the engine in step with the events.
use bomberrobots.Base.{
  ℕ, zero, suc, ◌+◌, ◌%◌, ◌^◌, ap, sym, ◌∙◌, inl, inr, List, [], ◌∷◌, Option-cases, ◌>>=◌, or_fail,
  out_of_range, uninitialised, All, Ensures, Ensures->>=, Ensures-after, Ensures-if,
}
use bomberrobots.Containers.Maps
use bomberrobots.Containers.Maps.{Map}
use bomberrobots.Containers.Maps.Values.{values-insert, insert-IsDistinct}
use bomberrobots.Containers.Sets
use bomberrobots.Messages.{Player, position_lt, Bomb}
use bomberrobots.Events.{bomb_placed, player_moved, block_placed}
use bomberrobots.Server.Engine.{Engine, add_event_at}
use bomberrobots.Server.Turns.{
  draw, draw_position, seed_player, seed_players, seed_block, seed_blocks, respawn,
}
use bomberrobots.Server.Handlers.{
  drop_bomb, drop_block, new_position, move_robot, check_position_to_move,
}
use bomberrobots.Server.Invariant.Bombs.{IsTimed}
use bomberrobots.Server.Invariant.{IsKey}
use bomberrobots.Server.Invariant.Replay.Followed.{
  Followed, add_event_at-Followed, add_event_now, moved-Followed, blocked-Followed,
  relocated-Followed,
}

module _ (k : ℕ) (ps : Map Player) where
  draw_position-Followed :
      (e : Engine) → Followed k ps [] e → Ensures (λ r. Followed k ps [] r.1) (draw_position e)
  unfolding draw_position
  draw_position-Followed e w =
      Ensures-after (λ r. Followed k ps [] r.1) (draw e.game_params.size_x e.random) _
        (λ x. Ensures-after (λ r. Followed k ps [] r.1) (draw e.game_params.size_y x.1) _ (λ y. w))

  seed_player-Followed :
      (id : ℕ) (e : Engine)
      → IsKey ps id
      → Followed k ps [] e
      → Ensures (Followed k ps []) (seed_player id e)
  unfolding seed_player
  seed_player-Followed id e key w =
      Ensures->>= (λ r. Followed k ps [] r.1) (Followed k ps []) (draw_position e) _
        (draw_position-Followed e w)
        (λ r w1.
          Ensures->>= (Followed k ps []) (Followed k ps [])
            (add_event_at r.1.current_turn (player_moved id r.0) r.1) _
            (add_event_now k ps (player_moved id r.0) r.1 (moved-Followed k ps id r.0 r.1 w1))
            (λ e2 w2. relocated-Followed k ps id r.0 e2 key w2))

  pub seed_players-Followed :
      (players : Map Player) (e : Engine)
      → All (λ p. IsKey ps p.0) players
      → Followed k ps [] e
      → Ensures (Followed k ps []) (seed_players players e)
  unfolding seed_players
  seed_players-Followed [] e keys w = w
  seed_players-Followed ((id, player) ∷ players) e (key, keys) w =
      Ensures->>= (Followed k ps []) (Followed k ps []) (seed_player id e) (seed_players players)
        (seed_player-Followed id e key w) (λ e' w'. seed_players-Followed players e' keys w')

  pub respawn-Followed :
      (ids : List ℕ) (e : Engine)
      → All (λ id. IsKey ps id) ids
      → Followed k ps [] e
      → Ensures (Followed k ps []) (respawn ids e)
  unfolding respawn
  respawn-Followed [] e keys w = w
  respawn-Followed (id ∷ ids) e (key, keys) w =
      Ensures-after (Followed k ps []) (or_fail (Maps.find id e.scores) out_of_range) _ (λ score.
        let scored : Engine = record e {
          scores = Maps.insert_or_assign id ((score + 1) % 2 ^ 32) e.scores;
        } in
        Ensures->>= (Followed k ps []) (Followed k ps []) (seed_player id scored) (respawn ids)
          (seed_player-Followed id scored key w) (λ e' w'. respawn-Followed ids e' keys w'))

  pub drop_bomb-Followed :
      (p_id : ℕ) (e : Engine) → Followed k ps [] e → Ensures (Followed k ps []) (drop_bomb p_id e)
  unfolding drop_bomb
  drop_bomb-Followed p_id e (started, turn, len, le, bounds, distinct, timed, told, named, rest) =
      Ensures-after (Followed k ps []) (or_fail (Maps.find p_id e.players_positions) out_of_range) _
        (λ position.
          let bomb : Bomb = record { position = position; timer = e.game_params.bomb_timer } in
          let id = e.next_bomb_id in
          add_event_now k ps (bomb_placed id position)
            (record e { next_bomb_id = (id + 1) % 2 ^ 32; bombs = Maps.insert id bomb e.bombs })
            (
              started,
              turn,
              len,
              le,
              bounds,
              insert-IsDistinct id bomb e.bombs distinct,
              Maps.All-insert IsTimed id bomb e.bombs bounds.0 timed,
              ap (Maps.insert id position) told
                  ∙ sym (values-insert (λ b. b.position) id bomb e.bombs),
              named,
              (tt, tt),
            ))

  pub drop_block-Followed :
      (p_id : ℕ) (e : Engine) → Followed k ps [] e → Ensures (Followed k ps []) (drop_block p_id e)
  unfolding drop_block
  drop_block-Followed p_id e w =
      Ensures-after (Followed k ps []) (or_fail (Maps.find p_id e.players_positions) out_of_range) _
        (λ position.
          let blocked : Engine = record e {
            blocks_positions = Sets.insert position_lt position e.blocks_positions;
          } in
          add_event_now k ps (block_placed position) blocked
            (blocked-Followed k ps position blocked w))

  pub move_robot-Followed :
      (direction p_id : ℕ) (e : Engine)
      → Followed k ps [] e
      → Ensures (Followed k ps []) (move_robot direction p_id e)
  unfolding move_robot
  move_robot-Followed direction p_id e w =
      elim (Option-cases (Maps.find p_id e.players_positions)) [
        | inl nowhere ↦ rw (nowhere, or_fail, ◌>>=◌) tt
        | inr (position, found) ↦
            (let key =
                Maps.All-find (λ r. IsKey ps r.0) p_id position e.players_positions w.8.2 found in
              rw (found, or_fail, ◌>>=◌)
                (Ensures-after (Followed k ps [])
                  (or_fail (new_position direction position) uninitialised) _
                  (λ target.
                    let moved : Engine = record e {
                      players_positions = Maps.insert_or_assign p_id target e.players_positions;
                    } in
                    Ensures-if (Followed k ps []) (check_position_to_move target e) _ _
                      (λ free. add_event_now k ps (player_moved p_id target) moved (
                        moved-Followed k ps p_id target moved
                          (relocated-Followed k ps p_id target e key w)))
                      (λ taken. w))))
      ]

pub seed_blocks-Followed :
    (n : ℕ) (ps : Map Player) (e : Engine)
    → Followed 0 ps [] e
    → Ensures (Followed 0 ps []) (seed_blocks n e)
unfolding seed_blocks seed_block
seed_blocks-Followed zero ps e w = w
seed_blocks-Followed (suc n) ps e w =
    Ensures->>= (Followed 0 ps []) (Followed 0 ps []) (seed_block e) (seed_blocks n)
      (Ensures->>= (λ r. Followed 0 ps [] r.1) (Followed 0 ps []) (draw_position e) _
        (draw_position-Followed 0 ps e w)
        (λ r w1.
          Ensures->>= (Followed 0 ps []) (Followed 0 ps []) (add_event_at 0 (block_placed r.0) r.1)
            _ (add_event_at-Followed 0 ps (block_placed r.0) r.1 (blocked-Followed 0 ps r.0 r.1 w1))
            (λ e2 w2. w2)))
      (λ e' w'. seed_blocks-Followed n ps e' w')
