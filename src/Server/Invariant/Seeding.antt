-- ===== src/Server/Invariant/Seeding.antt =====
-- Drawing positions and recording events: these succeed, and change only what they say.
use bomberrobots.Base.{
  ℕ, zero, suc, ◌%◌, ◌^◌, ◌<◌, ◌≡◌, refl, ◌∙◌, true, List, [], ◌∷◌, ok, arith, if◌then◌else◌,
  length, length-set, set, get_elem?-some, All, or_fail, ◌>>=◌,
}
use bomberrobots.Containers.Maps.{
  Map, insert_or_assign, contains, contains-insert_or_assign, All-insert_or_assign,
}
use bomberrobots.Containers.Sets
use bomberrobots.Messages.{Player, Position, position_lt}
use bomberrobots.Events.{Event, player_moved, block_placed, TurnInfo, add_event}
use bomberrobots.Server.Random.{next}
use bomberrobots.Server.Engine.{Engine, add_event_at}
use bomberrobots.Server.Turns.{
  draw, draw_position, seed_player, seed_players, seed_block, seed_blocks,
}
use bomberrobots.Server.Invariant.{IsPlayable, OnBoard}

pub add_event_at_lem :
    (k : ℕ) (event : Event) (e : Engine)
    → k < length e.turns
    → (turns : List TurnInfo) × (add_event_at k event e ≡ ok (record e { turns = turns }))
      × (length turns ≡ length e.turns)
unfolding add_event_at
add_event_at_lem k event e h =
    let (info, f) = get_elem?-some e.turns k h in
    (set e.turns k (add_event event info), rw (f, or_fail, ◌>>=◌), length-set e.turns k _)

draw_lem : (size r : ℕ) → 0 < size → (x : ℕ) × (r' : ℕ) × (draw size r ≡ ok (x, r')) × (x < size)
unfolding draw
draw_lem size r h = (next r % size % 2 ^ 16, next r, ground arith, drawn_lt size (next r) h)
  where
    drawn_lt : (size n : ℕ) → 0 < size → n % size % 2 ^ 16 < size
    drawn_lt size n h = omega arith

pub draw_position_lem :
    (e : Engine)
    → IsPlayable e.game_params
    → (pos : Position) × (r : ℕ) × (draw_position e ≡ ok (pos, record e { random = r }))
      × OnBoard e.game_params pos
unfolding draw_position
draw_position_lem e h =
    let (x, r, drawn_x, lt_x) = draw_lem e.game_params.size_x e.random h.size_x_pos in
    let (y, r', drawn_y, lt_y) = draw_lem e.game_params.size_y r h.size_y_pos in
    (record { x = x; y = y }, r', rw (drawn_x, ◌>>=◌) (rw (drawn_y, ◌>>=◌)), (lt_x, lt_y))

pub seed_player_lem :
    (id : ℕ) (e : Engine)
    → IsPlayable e.game_params
    → e.current_turn < length e.turns
    → (pos : Position) × (r : ℕ) × (turns : List TurnInfo) × (seed_player id e
        ≡ ok (record e {
          random = r;
          turns = turns;
          players_positions = insert_or_assign id pos e.players_positions;
        }))
      × (length turns ≡ length e.turns)
      × OnBoard e.game_params pos
unfolding seed_player
seed_player_lem id e h k =
    let (pos, r, drawn, on) = draw_position_lem e h in
    let (turns, added, len) =
      add_event_at_lem e.current_turn (player_moved id pos) (record e { random = r }) k in
    (pos, r, turns, rw (drawn, ◌>>=◌) (rw (added, ◌>>=◌)), len, on)

-- Each player that was there gets a robot, and those that had one keep one.
pub seed_players_lem :
    (K : ℕ → Type 0) (players : Map Player) (e : Engine)
    → IsPlayable e.game_params
    → e.current_turn < length e.turns
    → All (λ p. K p.0) players
    → All (λ r. K r.0 × OnBoard e.game_params r.1) e.players_positions
    → (r : ℕ) × (turns : List TurnInfo) × (positions : Map Position) × (seed_players players e
        ≡ ok (record e { random = r; turns = turns; players_positions = positions }))
      × (length turns ≡ length e.turns)
      × All (λ r. K r.0 × OnBoard e.game_params r.1) positions
      × ((id : ℕ)
          → contains id positions
            ≡ (if contains id players then true else contains id e.players_positions))
unfolding seed_players contains
seed_players_lem K [] e h k keys on =
    (e.random, e.turns, e.players_positions, refl, refl, on, λ id. refl)
seed_players_lem K ((id, player) ∷ players) e h k keys on =
    let (pos, r, turns, seeded, len, here) = seed_player_lem id e h k in
    let e' : Engine = record e {
      random = r;
      turns = turns;
      players_positions = insert_or_assign id pos e.players_positions;
    } in
    let (r', turns', positions, rest, len', on', has) =
      seed_players_lem K players e' h (omega arith) keys.1 (
        All-insert_or_assign (λ r. K r.0 × OnBoard e.game_params r.1) id pos e.players_positions
          (keys.0, here) on) in
    (
      r',
      turns',
      positions,
      rw (seeded, ◌>>=◌) rest,
      len' ∙ len,
      on',
      λ j. ground (arith, has j, contains-insert_or_assign j id pos e.players_positions),
    )

pub seed_block_lem :
    (e : Engine)
    → IsPlayable e.game_params
    → 0 < length e.turns
    → (pos : Position) × (r : ℕ) × (turns : List TurnInfo) × (seed_block e
        ≡ ok (record e {
          random = r;
          turns = turns;
          blocks_positions = Sets.insert position_lt pos e.blocks_positions;
        }))
      × (length turns ≡ length e.turns)
      × OnBoard e.game_params pos
unfolding seed_block
seed_block_lem e h k =
    let (pos, r, drawn, on) = draw_position_lem e h in
    let (turns, added, len) = add_event_at_lem 0 (block_placed pos) (record e { random = r }) k in
    (pos, r, turns, rw (drawn, ◌>>=◌) (rw (added, ◌>>=◌)), len, on)

pub seed_blocks_lem :
    (n : ℕ) (e : Engine)
    → IsPlayable e.game_params
    → 0 < length e.turns
    → All (λ pos. OnBoard e.game_params pos) e.blocks_positions
    → (r : ℕ) × (turns : List TurnInfo) × (blocks : List Position) × (seed_blocks n e
        ≡ ok (record e { random = r; turns = turns; blocks_positions = blocks }))
      × (length turns ≡ length e.turns)
      × All (λ pos. OnBoard e.game_params pos) blocks
unfolding seed_blocks
seed_blocks_lem zero e h k on = (e.random, e.turns, e.blocks_positions, refl, refl, on)
seed_blocks_lem (suc n) e h k on =
    let (pos, r, turns, seeded, len, here) = seed_block_lem e h k in
    let e' : Engine = record e {
      random = r;
      turns = turns;
      blocks_positions = Sets.insert position_lt pos e.blocks_positions;
    } in
    let (r', turns', blocks, rest, len', on') = seed_blocks_lem n e' h (omega arith) (
      Sets.All-insert position_lt (λ pos. OnBoard e.game_params pos) pos e.blocks_positions here
        on) in
    (r', turns', blocks, rw (seeded, ◌>>=◌) rest, len' ∙ len, on')
