-- ===== src/Server/Invariant/Respawns.antt =====
-- game-engine.cpp: the loop of `summarise_turn`.
use bomberrobots.Base.{
  ℕ, ◌+◌, ◌%◌, ◌^◌, ◌<◌, ◌≡◌, refl, ◌∙◌, List, [], ◌∷◌, ok, arith, length, All, or_fail, ◌>>=◌,
}
use bomberrobots.Containers.Maps
use bomberrobots.Containers.Maps.{Map, contains}
use bomberrobots.Messages.{Position}
use bomberrobots.Events.{TurnInfo}
use bomberrobots.Server.Engine.{Engine}
use bomberrobots.Server.Turns.{respawn}
use bomberrobots.Server.Invariant.{IsPlayable, OnBoard, IsKey}
use bomberrobots.Server.Invariant.Ticks.{Robots}
use bomberrobots.Server.Invariant.Seeding.{seed_player_lem}

-- Each robot that was hit scores, and gets a new place.
pub respawn_lem :
    (ids : List ℕ) (e : Engine)
    → IsPlayable e.game_params
    → e.current_turn < length e.turns
    → All (λ id. IsKey e.players id) ids
    → ((id : ℕ) → IsKey e.players id → IsKey e.scores id)
    → Robots e e.players_positions
    → (scores : Map ℕ) × (r : ℕ) × (turns : List TurnInfo) × (positions : Map Position) × (respawn
          ids e
        ≡ ok (record e {
          scores = scores;
          random = r;
          turns = turns;
          players_positions = positions;
        }))
      × (length turns ≡ length e.turns)
      × ((id : ℕ) → IsKey e.players id → IsKey scores id)
      × Robots e positions
      × ((id : ℕ) → IsKey e.players_positions id → IsKey positions id)
unfolding respawn
respawn_lem [] e h k known scored on =
    (e.scores, e.random, e.turns, e.players_positions, refl, refl, scored, on, λ id p. p)
respawn_lem (id ∷ ids) e h k known scored on =
    let (score, found) = Maps.find-contains id e.scores (scored id known.0) in
    let e1 : Engine = record e {
      scores = Maps.insert_or_assign id ((score + 1) % 2 ^ 32) e.scores;
    } in
    let (pos, r, turns, seeded, len, here) = seed_player_lem id e1 h k in
    let e2 : Engine = record e1 {
      random = r;
      turns = turns;
      players_positions = Maps.insert_or_assign id pos e.players_positions;
    } in
    let (scores', r', turns', positions, rest, len', scored', on', keep) =
      respawn_lem ids e2 h (omega arith) known.1
        (λ j p.
          ground (
            arith,
            scored j p,
            Maps.contains-insert_or_assign j id ((score + 1) % 2 ^ 32) e.scores,
          ))
        (Maps.All-insert_or_assign (λ r. IsKey e.players r.0 × OnBoard e.game_params r.1) id pos
          e.players_positions (known.0, here) on) in
    (
      scores',
      r',
      turns',
      positions,
      rw (found, or_fail, ◌>>=◌) (rw (seeded, ◌>>=◌) rest),
      len' ∙ len,
      scored',
      on',
      λ j p.
          keep j (ground (arith, p, Maps.contains-insert_or_assign j id pos e.players_positions)),
    )
