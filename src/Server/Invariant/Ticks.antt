-- ===== src/Server/Invariant/Ticks.antt =====
-- game-engine.cpp: the loops of `begin_turn` do not fail.
use bomberrobots.Base.{
  ℕ, ◌+◌, ◌-◌, ◌%◌, ◌^◌, ◌<◌, ◌≡◌, refl, ◌∙◌, inl, inr, List, [], ◌∷◌, ok, arith, ◌==◌, Bool-cases,
  length, All, ◌>>=◌, Returns-ok,
}
use bomberrobots.Containers.Maps.{Map}
use bomberrobots.Containers.Sets
use bomberrobots.Messages.{Position, position_lt, Bomb}
use bomberrobots.Events.{bomb_exploded, TurnInfo}
use bomberrobots.Server.Engine.{Engine}
use bomberrobots.Server.Explosion.{board, unburnt, blast, handle_explosion}
use bomberrobots.Server.Explosion.Safe.{Marked, blast-Marked}
use bomberrobots.Server.Turns.{tick_bombs, erase_blocks}
use bomberrobots.Server.Invariant.{IsPlayable, OnBoard, IsKey}
use bomberrobots.Server.Invariant.Seeding.{add_event_at_lem}

abbrev pub Robots : Engine → Map Position → Type 0
Robots e m = All (λ r. IsKey e.players r.0 × OnBoard e.game_params r.1) m

handle_explosion_lem :
    (id : ℕ) (bomb : Bomb) (e : Engine)
    → IsPlayable e.game_params
    → e.current_turn < length e.turns
    → All (λ r. IsKey e.players r.0) e.players_positions
    → All (λ id. IsKey e.players id) e.current_players_to_destroy
    → (doomed : List ℕ) × (hit : List Position) × (turns : List TurnInfo) × (handle_explosion id
          bomb e
        ≡ ok (record e {
          current_players_to_destroy = doomed;
          current_blocks_to_erase = hit;
          turns = turns;
        }))
      × (length turns ≡ length e.turns)
      × All (λ id. IsKey e.players id) doomed
unfolding handle_explosion
handle_explosion_lem id bomb e h k robots doomed =
    let (t, burnt, marked) =
      Returns-ok (Marked (λ id. IsKey e.players id)) (blast (board e) bomb.position (unburnt e)) (
        blast-Marked (λ id. IsKey e.players id) (board e) robots bomb.position (unburnt e)
          h.radius_lt (doomed, tt)) in
    let e' : Engine = record e {
      current_players_to_destroy = t.current_players_to_destroy;
      current_blocks_to_erase = t.current_blocks_to_erase;
    } in
    let (turns, added, len) =
      add_event_at_lem e.current_turn (bomb_exploded id t.robots_destroyed t.blocks_destroyed) e'
        k in
    (
      t.current_players_to_destroy,
      t.current_blocks_to_erase,
      turns,
      rw (burnt, ◌>>=◌) added,
      len,
      marked.0,
    )

pub tick_bombs_lem :
    (bombs : Map Bomb) (e : Engine)
    → IsPlayable e.game_params
    → e.current_turn < length e.turns
    → All (λ r. IsKey e.players r.0) e.players_positions
    → All (λ id. IsKey e.players id) e.current_players_to_destroy
    → (bombs' : Map Bomb) × (doomed : List ℕ) × (hit : List Position) × (turns : List TurnInfo)
      × (tick_bombs bombs e
          ≡ ok (
            bombs',
            record e {
              current_players_to_destroy = doomed;
              current_blocks_to_erase = hit;
              turns = turns;
            },
          ))
      × (length turns ≡ length e.turns)
      × All (λ id. IsKey e.players id) doomed
unfolding tick_bombs
tick_bombs_lem [] e h k robots doomed =
    ([], e.current_players_to_destroy, e.current_blocks_to_erase, e.turns, refl, refl, doomed)
tick_bombs_lem ((id, bomb) ∷ rest) e h k robots doomed =
    let timer = (bomb.timer + (2 ^ 16 - 1)) % 2 ^ 16 in
    elim (Bool-cases (timer == 0)) [
      | inl e0 ↦
          (let (doomed1, hit1, turns1, exploded, len1, known1) =
              handle_explosion_lem id (record bomb { timer = timer }) e h k robots doomed in
            let e' : Engine = record e {
              current_players_to_destroy = doomed1;
              current_blocks_to_erase = hit1;
              turns = turns1;
            } in
            let (bombs', doomed', hit', turns', ticked, len', known') =
              tick_bombs_lem rest e' h (omega arith) robots known1 in
            (
              (id, record bomb { timer = timer }) ∷ bombs',
              doomed',
              hit',
              turns',
              rw (e0, tick_bombs) (rw (exploded, ◌>>=◌) (rw (ticked, ◌>>=◌))),
              len' ∙ len1,
              known',
            ))
      | inr e0 ↦
          (let (bombs', doomed', hit', turns', ticked, len', known') =
              tick_bombs_lem rest e h k robots doomed in
            (
              (id, record bomb { timer = timer }) ∷ bombs',
              doomed',
              hit',
              turns',
              rw (e0, tick_bombs) (rw (ticked, ◌>>=◌)),
              len',
              known',
            ))
    ]

pub All-erase_blocks :
    (P : Position → Type 0) (hit blocks : List Position)
    → All P blocks
    → All P (erase_blocks hit blocks)
unfolding erase_blocks
All-erase_blocks P [] blocks h = h
All-erase_blocks P (pos ∷ hit) blocks h =
    All-erase_blocks P hit _ (Sets.All-erase position_lt P pos blocks h)
