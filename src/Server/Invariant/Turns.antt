-- ===== src/Server/Invariant/Turns.antt =====
-- The start of a game, and the start and the end of a turn, never fail and keep the invariant.
use bomberrobots.Base.{
  ◌⊎◌, ==_iff, Returns-mono, ℕ, ◌+◌, ◌%◌, ◌^◌, ◌<◌, ◌≡◌, refl, ◌∙◌, true, inl, inr, [], ◌∷◌, ◌++◌,
  arith, ◌==◌, if◌then◌else◌, Bool-cases, length, length-append, get_elem?-some, All-mono, or_fail,
  ◌>>=◌, Returns,
}
use bomberrobots.Containers.Maps
use bomberrobots.Containers.Maps.{Map, contains}
use bomberrobots.Events.{turn_to_bytes}
use bomberrobots.Server.Connections.Table.{Addressed, Addressed-send_message_to_all}
use bomberrobots.Server.Engine.{Engine, send_to_all, game_started_msg}
use bomberrobots.Server.Turns.{start_gameplay, begin_turn, end_gameplay, summarise_turn}
use bomberrobots.Server.Invariant.{IsPlayable, OnBoard, IsKey, Playing, Lobby, Between}
use bomberrobots.Server.Invariant.Seeding.{seed_players_lem, seed_blocks_lem}
use bomberrobots.Server.Invariant.Respawns.{respawn_lem}
use bomberrobots.Server.Invariant.Ticks.{tick_bombs_lem, All-erase_blocks}

-- In a game with turns left, `begin_turn` does not fail, and the game goes on in the next turn.
pub begin_turn-Playing :
    (e : Engine)
    → Playing e
    → e.current_turn < e.game_params.game_length
    → Returns
        (λ e'.
          Playing e' × (e'.current_turn ≡ e.current_turn + 1) × (e'.game_params ≡ e.game_params))
        (begin_turn e)
unfolding begin_turn
begin_turn-Playing e v lt =
    let c = v.consistent in
    let next : ℕ = (e.current_turn + 1) % 2 ^ 16 in
    let same : next ≡ e.current_turn + 1 = wraps_not c.playable.game_length_lt in
    let begun : Engine = record e {
      current_turn = next;
      turns = e.turns ++ (record { turn = next; events = [] }) ∷ [];
    } in
    let len : length begun.turns ≡ e.current_turn + 2 =
      omega
        (arith, length-append e.turns ((record { turn = next; events = [] }) ∷ []), v.history) in
    let (bombs', doomed, hit, turns, ticked, len', known) =
      tick_bombs_lem e.bombs begun c.playable (omega arith)
        (All-mono (λ r. IsKey e.players r.0 × OnBoard e.game_params r.1) (λ r. IsKey e.players r.0)
          e.players_positions (λ r h. h.0) c.robots)
        c.doomed in
    rw (ticked, ◌>>=◌)
      (
        record {
          consistent = record {
            playable = c.playable;
            addressed = c.addressed;
            robots = c.robots;
            blocks = All-erase_blocks (λ pos. OnBoard e.game_params pos) hit _ c.blocks;
            ids = c.ids;
            scored = c.scored;
            doomed = known;
          };
          started = v.started;
          history = omega arith;
          turn_le = omega arith;
          placed = v.placed;
        },
        same,
        refl,
      )
  where
    wraps_not :
        e.game_params.game_length < 2 ^ 16 → (e.current_turn + 1) % 2 ^ 16 ≡ e.current_turn + 1
    wraps_not h = omega arith

end_gameplay-Lobby :
    (e : Engine)
    → IsPlayable e.game_params
    → Addressed e.tcp_handler
    → e.current_players_to_destroy ≡ []
    → Lobby (end_gameplay e)
unfolding end_gameplay send_to_all contains
end_gameplay-Lobby e h a nobody = record {
  consistent = record {
    playable = h;
    addressed = Addressed-send_message_to_all _ e.tcp_handler a;
    robots = tt;
    blocks = tt;
    ids = tt;
    scored = λ id p. absurd (cc);
    doomed = rw nobody tt;
  };
  waiting = refl;
  no_turns = refl;
  turn_zero = refl;
  no_robots = refl;
  no_bombs = refl;
  none_doomed = nobody;
}

-- After the turn `k` of a game of `n` turns: the lobby if that was the last one, and otherwise the
-- game, in the same turn.
abbrev pub Settled : ℕ → ℕ → Engine → Type 0
Settled k n e =
    ((k ≡ n) × Lobby e)
    ⊎ ((k < n) × Playing e × (e.current_turn ≡ k) × (e.game_params.game_length ≡ n))

settle-Settled :
    (e : Engine)
    → Playing e
    → e.current_players_to_destroy ≡ []
    → Settled e.current_turn e.game_params.game_length
        (if e.current_turn == e.game_params.game_length then end_gameplay e else e)
settle-Settled e v nobody = elim (Bool-cases (e.current_turn == e.game_params.game_length)) [
  | inl over ↦ rw over (
      inl (
        (==_iff e.current_turn e.game_params.game_length).0 over,
        end_gameplay-Lobby e v.consistent.playable v.consistent.addressed nobody,
      ))
  | inr left ↦ rw left (inr (ground (arith, left, v.turn_le), v, refl, refl))
]

-- `summarise_turn` does not fail in a game. After the last turn of the game the engine is back in the
-- lobby; after any other turn the game goes on, in the same turn.
pub summarise_turn-Settled :
    (e : Engine)
    → Playing e
    → Returns (Settled e.current_turn e.game_params.game_length) (summarise_turn e)
unfolding summarise_turn send_to_all
summarise_turn-Settled e v =
    let c = v.consistent in
    let (scores, r, turns, positions, respawned, len, scored, on, keep) =
      respawn_lem e.current_players_to_destroy e c.playable (omega (arith, v.history)) c.doomed
        c.scored c.robots in
    let (info, found) = get_elem?-some turns e.current_turn (omega (arith, v.history)) in
    let e' : Engine = record e {
      scores = scores;
      random = r;
      turns = turns;
      players_positions = positions;
    } in
    let cleared : Engine = record (send_to_all (turn_to_bytes info) e') {
      current_blocks_to_erase = [];
      current_players_to_destroy = [];
    } in
    rw (respawned, ◌>>=◌)
      (rw (found, or_fail, ◌>>=◌)
        (settle-Settled cleared
          (record {
            consistent = record {
              playable = c.playable;
              addressed =
                  Addressed-send_message_to_all (turn_to_bytes info) e.tcp_handler c.addressed;
              robots = on;
              blocks = c.blocks;
              ids = c.ids;
              scored = scored;
              doomed = tt;
            };
            started = v.started;
            history = len ∙ v.history;
            turn_le = v.turn_le;
            placed = λ id p. keep id (v.placed id p);
          })
          refl))

pub summarise_turn-Between : (e : Engine) → Playing e → Returns Between (summarise_turn e)
summarise_turn-Between e v =
    Returns-mono (Settled e.current_turn e.game_params.game_length) Between (summarise_turn e)
      (summarise_turn-Settled e v) at_rest
  where
    at_rest : (e' : Engine) → Settled e.current_turn e.game_params.game_length e' → Between e'
    at_rest e' (inl (over, w)) = inl w
    at_rest e' (inr (left, w, turn, params)) = inr (w, omega arith)

-- `start_gameplay` does not fail in a consistent lobby, and the game it starts is at turn 0.
pub start_gameplay-Playing :
    (e : Engine) → Lobby e → Returns (λ e'. Playing e' × (e'.current_turn ≡ 0)) (start_gameplay e)
unfolding start_gameplay send_to_all
start_gameplay-Playing e v =
    let c = v.consistent in
    let begun : Engine = record e {
      gameplay_started = true;
      turns = e.turns ++ (record { turn = 0; events = [] }) ∷ [];
      tcp_handler = (send_to_all (game_started_msg e.players) e).tcp_handler;
    } in
    let len : length begun.turns ≡ 1 = rw (v.no_turns) (omega arith) in
    let (r, turns, positions, placed, len', on, has) =
      seed_players_lem (IsKey e.players) e.players begun c.playable (omega (arith, v.turn_zero))
        (Maps.All-keys e.players) c.robots in
    let e2 : Engine = record begun { random = r; turns = turns; players_positions = positions } in
    let (r', turns', blocks, seeded, len'', on_blocks) =
      seed_blocks_lem e.game_params.initial_blocks e2 c.playable (omega arith) c.blocks in
    rw (placed, ◌>>=◌)
      (rw seeded (
        record {
          consistent = record {
            playable = c.playable;
            addressed =
                Addressed-send_message_to_all (game_started_msg e.players) e.tcp_handler
                  c.addressed;
            robots = on;
            blocks = on_blocks;
            ids = c.ids;
            scored = c.scored;
            doomed = c.doomed;
          };
          started = refl;
          history = omega (arith, v.turn_zero);
          turn_le = omega (arith, v.turn_zero);
          placed = λ id p. ground (arith, has id);
        },
        v.turn_zero,
      ))
