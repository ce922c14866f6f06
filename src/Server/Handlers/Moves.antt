-- ===== src/Server/Handlers/Moves.antt =====
-- game-engine.cpp: where `Move_msg::handle_msg` takes a robot, on a grid of natural numbers.
use bomberrobots.Base.{
  ℕ, zero, suc, ◌+◌, ◌-◌, ◌<◌, ◌≡◌, ◌&&◌, inl, inr, Option, none, some, arith, ltb, ◌==◌,
  if◌then◌else◌, Bool-cases, or_fail, ◌>>=◌, All, Returns,
}
use bomberrobots.Containers.Maps
use bomberrobots.Containers.Sets
use bomberrobots.Messages.{Position, position_lt}
use bomberrobots.Events.{player_moved}
use bomberrobots.Server.Engine.{Engine}
use bomberrobots.Server.Handlers.{
  check_position_to_move, active_robot, new_position, move_robot, handle_move,
}
use bomberrobots.Server.Invariant.{IsPlayable, OnBoard, IsKey, Playing}
use bomberrobots.Server.Invariant.Robots.{new_position_lem}
use bomberrobots.Server.Invariant.Seeding.{add_event_at_lem}

-- The next cell up, right, down and left, if there is one.
abbrev pub neighbour : ℕ → Position → Option Position
neighbour zero p = some (record { x = p.x; y = p.y + 1 })
neighbour (suc zero) p = some (record { x = p.x + 1; y = p.y })
neighbour (suc (suc zero)) p = if p.y == 0 then none else some (record { x = p.x; y = p.y - 1 })
neighbour (suc (suc (suc zero))) p =
    if p.x == 0 then none else some (record { x = p.x - 1; y = p.y })
neighbour _ p = none

-- Where a robot at `p` is after a move: the next cell, if that lies on the board and holds no block that the
-- set of blocks reports.
abbrev pub landing : Engine → ℕ → Position → Position
landing e direction p = elim (neighbour direction p) [
  | none ↦ p
  | some q ↦
      if ltb q.x e.game_params.size_x
        && ltb q.y e.game_params.size_y
        && Sets.count position_lt q e.blocks_positions == 0
      then q
      else p
]

standing :
    (e : Engine) (p_id : ℕ) (p : Position)
    → All (λ r. IsKey e.players r.0 × OnBoard e.game_params r.1) e.players_positions
    → Maps.find p_id e.players_positions ≡ some p
    → OnBoard e.game_params p
standing e p_id p h at_p =
    (Maps.All-find (λ r. IsKey e.players r.0 × OnBoard e.game_params r.1) p_id p e.players_positions
      h at_p).1

landing_lem :
    (e : Engine) (direction : ℕ) (p q : Position)
    → IsPlayable e.game_params
    → OnBoard e.game_params p
    → new_position direction p ≡ some q
    → landing e direction p ≡ (if check_position_to_move q e then q else p)
unfolding new_position check_position_to_move
landing_lem e zero p q h on at_q = ground (arith, h.size_y_lt)
landing_lem e (suc zero) p q h on at_q = ground (arith, h.size_x_lt)
landing_lem e (suc (suc zero)) p q h on at_q = ground (arith, h.size_y_lt)
landing_lem e (suc (suc (suc zero))) p q h on at_q = ground (arith, h.size_x_lt)
landing_lem e (suc (suc (suc (suc d)))) p q h on at_q = absurd (ground arith)

module _ (e : Engine) (v : Playing e) (p_id i : ℕ) (p : Position)
    (active : active_robot i e ≡ some p_id)
    (at_p : Maps.find p_id e.players_positions ≡ some p) where
  -- The robot of an active client moves to the neighbouring cell of the grid if that is on the board and free,
  -- and stays otherwise: nothing wraps around at the board's edge. No other robot moves.
  pub handle_move_lands :
      (direction : ℕ)
      → direction < 4
      → Returns
          (λ e'.
            (j : ℕ)
            → Maps.find j e'.players_positions ≡ (
                if p_id == j
                then some (landing e direction p)
                else Maps.find j e.players_positions))
          (handle_move direction i e)
  unfolding handle_move move_robot
  handle_move_lands direction d =
      let (q, to_q) = new_position_lem direction p d in
      let lands =
        landing_lem e direction p q v.consistent.playable
          (standing e p_id p v.consistent.robots at_p) to_q in
      rw (active, handle_move)
        (rw (at_p, or_fail, ◌>>=◌)
          (rw (to_q, or_fail, ◌>>=◌)
            (elim (Bool-cases (check_position_to_move q e)) [
              | inr refused ↦ rw refused (λ j. ground (arith, at_p, lands))
              | inl free ↦
                  (let e' : Engine = record e {
                    players_positions = Maps.insert_or_assign p_id q e.players_positions;
                  } in
                    let (turns, added, len) =
                      add_event_at_lem e.current_turn (player_moved p_id q) e'
                        (omega (arith, v.history)) in
                    rw free (
                      rw added (λ j.
                        ground
                          (arith, lands, Maps.find-insert_or_assign j p_id q e.players_positions))))
            ])))
