-- ===== src/Server/Invariant/Robots.antt =====
-- game-engine.cpp: what the robot of a client does in a game.
use bomberrobots.Base.{
  ℕ, ◌+◌, ◌%◌, ◌^◌, ◌≤◌, ◌<◌, ◌≡◌, refl, ◌∙◌, true, inl, inr, none, some, arith, Bool-cases,
  Option-cases, or_fail, ◌>>=◌, Returns,
}
use bomberrobots.Containers.Maps
use bomberrobots.Containers.Maps.{Map, contains, find}
use bomberrobots.Containers.Sets
use bomberrobots.Containers.Sets.{count}
use bomberrobots.Messages.{Position, position_lt}
use bomberrobots.Events.{bomb_placed, player_moved, block_placed}
use bomberrobots.Server.Engine.{Engine}
use bomberrobots.Server.Handlers.{
  check_position_to_move, active_robot, new_position, handle_place_bomb, handle_place_block,
  handle_move,
}
use bomberrobots.Server.Invariant.{OnBoard, IsKey, Playing}
use bomberrobots.Server.Invariant.Seeding.{add_event_at_lem}

-- The game goes on in the same turn and under the same parameters.
abbrev pub Continues : Engine → Engine → Type 0
Continues e e' = Playing e' × (e'.current_turn ≡ e.current_turn) × (e'.game_params ≡ e.game_params)

-- An active robot belongs to a player, and in a game it stands on the board.
pub active_robot_placed :
    (i p_id : ℕ) (e : Engine)
    → Playing e
    → active_robot i e ≡ some p_id
    → (pos : Position) × (find p_id e.players_positions ≡ some pos)
      × IsKey e.players p_id
      × OnBoard e.game_params pos
unfolding active_robot
active_robot_placed i p_id e v h = elim (Option-cases (find i e.player_ids)) [
  | inl missing ↦ absurd (let h' = rw (missing, active_robot) at h in cc)
  | inr (id, found) ↦
      (let same : id ≡ p_id = ground arith in
        let known : IsKey e.players p_id =
          rw same at
            (Maps.All-find (λ c. IsKey e.players c.1) i id e.player_ids v.consistent.ids found) in
        let (pos, at_pos) = Maps.find-contains p_id e.players_positions (v.placed p_id known) in
        (
          pos,
          at_pos,
          known,
          (Maps.All-find (λ r. IsKey e.players r.0 × OnBoard e.game_params r.1) p_id pos
              e.players_positions v.consistent.robots at_pos).1,
        ))
]

pub place_bomb-Playing :
    (i : ℕ) (e : Engine) → Playing e → Returns (Continues e) (handle_place_bomb i e)
unfolding handle_place_bomb
place_bomb-Playing i e v = elim (Option-cases (active_robot i e)) [
  | inl idle ↦ rw (idle, handle_place_bomb) (v, refl, refl)
  | inr (p_id, active) ↦
      (let c = v.consistent in
        let (pos, at_pos, known, on) = active_robot_placed i p_id e v active in
        let e' : Engine = record e {
          next_bomb_id = (e.next_bomb_id + 1) % 2 ^ 32;
          bombs =
              Maps.insert e.next_bomb_id
                (record { position = pos; timer = e.game_params.bomb_timer }) e.bombs;
        } in
        let (turns, added, len) =
          add_event_at_lem e.current_turn (bomb_placed e.next_bomb_id pos) e'
            (omega (arith, v.history)) in
        rw (active, handle_place_bomb)
          (rw (at_pos, or_fail, ◌>>=◌)
            (rw added (
              record {
                consistent = record {
                  playable = c.playable;
                  addressed = c.addressed;
                  robots = c.robots;
                  blocks = c.blocks;
                  ids = c.ids;
                  scored = c.scored;
                  doomed = c.doomed;
                };
                started = v.started;
                history = len ∙ v.history;
                turn_le = v.turn_le;
                placed = v.placed;
              },
              refl,
              refl,
            ))))
]

pub place_block-Playing :
    (i : ℕ) (e : Engine) → Playing e → Returns (Continues e) (handle_place_block i e)
unfolding handle_place_block
place_block-Playing i e v = elim (Option-cases (active_robot i e)) [
  | inl idle ↦ rw (idle, handle_place_block) (v, refl, refl)
  | inr (p_id, active) ↦
      (let c = v.consistent in
        let (pos, at_pos, known, on) = active_robot_placed i p_id e v active in
        let e' : Engine = record e {
          blocks_positions = Sets.insert position_lt pos e.blocks_positions;
        } in
        let (turns, added, len) =
          add_event_at_lem e.current_turn (block_placed pos) e' (omega (arith, v.history)) in
        rw (active, handle_place_block)
          (rw (at_pos, or_fail, ◌>>=◌)
            (rw added (
              record {
                consistent = record {
                  playable = c.playable;
                  addressed = c.addressed;
                  robots = c.robots;
                  blocks =
                      Sets.All-insert position_lt (λ pos. OnBoard e.game_params pos) pos
                        e.blocks_positions on c.blocks;
                  ids = c.ids;
                  scored = c.scored;
                  doomed = c.doomed;
                };
                started = v.started;
                history = len ∙ v.history;
                turn_le = v.turn_le;
                placed = v.placed;
              },
              refl,
              refl,
            ))))
]

-- Each of the four directions gives a new position.
pub new_position_lem :
    (direction : ℕ) (p : Position)
    → direction < 4
    → (q : Position) × (new_position direction p ≡ some q)
unfolding new_position
new_position_lem direction p h = elim (Option-cases (new_position direction p)) [
  | inl missing ↦ absurd (ground arith)
  | inr found ↦ found
]

pub new_position-none :
    (direction : ℕ) (p : Position) → 4 ≤ direction → new_position direction p ≡ none
unfolding new_position
new_position-none direction p h = ground arith

checked-OnBoard :
    (e : Engine) (q : Position) → check_position_to_move q e ≡ true → OnBoard e.game_params q
unfolding check_position_to_move
checked-OnBoard e q h = (ground arith, ground arith)

pub move-Playing :
    (direction i : ℕ) (e : Engine)
    → Playing e
    → direction < 4
    → Returns (Continues e) (handle_move direction i e)
unfolding handle_move
move-Playing direction i e v d = elim (Option-cases (active_robot i e)) [
  | inl idle ↦ rw (idle, handle_move) (v, refl, refl)
  | inr (p_id, active) ↦
      (let c = v.consistent in
        let (pos, at_pos, known, on) = active_robot_placed i p_id e v active in
        let (q, to_q) = new_position_lem direction pos d in
        rw (active, handle_move)
          (rw (at_pos, or_fail, ◌>>=◌)
            (rw (to_q, or_fail, ◌>>=◌)
              (elim (Bool-cases (check_position_to_move q e)) [
                | inr refused ↦ rw refused (v, refl, refl)
                | inl free ↦
                    (let e' : Engine = record e {
                      players_positions = Maps.insert_or_assign p_id q e.players_positions;
                    } in
                      let (turns, added, len) =
                        add_event_at_lem e.current_turn (player_moved p_id q) e'
                          (omega (arith, v.history)) in
                      rw free (
                        rw added (
                          record {
                            consistent = record {
                              playable = c.playable;
                              addressed = c.addressed;
                              robots =
                                  Maps.All-insert_or_assign
                                    (λ r. IsKey e.players r.0 × OnBoard e.game_params r.1) p_id q
                                    e.players_positions (known, checked-OnBoard e q free) c.robots;
                              blocks = c.blocks;
                              ids = c.ids;
                              scored = c.scored;
                              doomed = c.doomed;
                            };
                            started = v.started;
                            history = len ∙ v.history;
                            turn_le = v.turn_le;
                            placed = λ id p. ground (
                              arith,
                              v.placed id p,
                              Maps.contains-insert_or_assign id p_id q e.players_positions,
                            );
                          },
                          refl,
                          refl,
                        )))
              ]))))
]
