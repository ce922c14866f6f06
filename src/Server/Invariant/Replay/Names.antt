-- ===== src/Server/Invariant/Replay/Names.antt =====
-- game-engine.cpp: the robots that the events of a game destroy belong to its players.
use bomberrobots.Base.{
  ℕ, suc, ◌+◌, ◌-◌, ◌%◌, ◌^◌, ◌<◌, ◌≡◌, refl, ap, sym, subst, ◌∙◌, inl, inr, List, [], ◌∷◌, ◌++◌,
  append-nil, some, Option-cases, length, length-set, length-append, ok, arith, ◌==◌, if◌then◌else◌,
  ◌>>=◌, or_fail, get_elem?, set, All, All-append, Ensures, Ensures->>=, Ensures-if,
  Ensures-Returns,
}
use bomberrobots.Containers.Maps.{Map}
use bomberrobots.Messages.{Player, Bomb}
use bomberrobots.Events.{Event, TurnInfo, bomb_exploded, add_event}
use bomberrobots.Server.Engine.{Engine, add_event_at}
use bomberrobots.Server.Explosion.{board, unburnt, blast, handle_explosion}
use bomberrobots.Server.Explosion.Safe.{Marked, blast-Marked}
use bomberrobots.Server.Turns.{tick_bombs, begin_turn}
use bomberrobots.Server.Invariant.{IsKey}
use bomberrobots.Server.Invariant.Log.{happened, happened-append, happened-set}
use bomberrobots.Client.Session.Alive.{AmongEvent}

-- The robots of the game, those destroyed in this turn, and those that events destroyed, belong to the
-- players `ps`.
abbrev pub Named : Map Player → Engine → Type 0
Named ps e =
    (e.players ≡ ps)
    × (e.game_params.explosion_radius < 2 ^ 16 - 1)
    × All (λ r. IsKey ps r.0) e.players_positions
    × All (λ id. IsKey ps id) e.current_players_to_destroy
    × All (AmongEvent ps) (happened e.turns)

module _ (ps : Map Player) where
  -- The log of a game after one more event.
  pub happened-Among :
      (turns : List TurnInfo) (k : ℕ) (info : TurnInfo) (event : Event)
      → get_elem? turns k ≡ some info
      → length turns ≡ suc k
      → AmongEvent ps event
      → All (AmongEvent ps) (happened turns)
      → All (AmongEvent ps) (happened (set turns k (add_event event info)))
  happened-Among turns k info event found len among all =
      subst (All (AmongEvent ps)) (sym (happened-set turns k info event found len))
        (All-append (AmongEvent ps) (happened turns) (event ∷ []) all (among, tt))

  -- The turn of `e`, which goes on.
  abbrev Goes : Engine → Engine → Type 0
  Goes e e' = Named ps e' × (e'.current_turn ≡ e.current_turn) × (length e'.turns ≡ length e.turns)

  handle_explosion-Named :
      (id : ℕ) (bomb : Bomb) (e : Engine)
      → length e.turns ≡ suc e.current_turn
      → Named ps e
      → Ensures (Goes e) (handle_explosion id bomb e)
  unfolding handle_explosion add_event_at
  handle_explosion-Named id bomb e len (players, radius, robots, doomed, log) =
      Ensures->>= (Marked (λ j. IsKey ps j)) (Goes e) (blast (board e) bomb.position (unburnt e)) _
        (Ensures-Returns (Marked (λ j. IsKey ps j)) (blast (board e) bomb.position (unburnt e)) (
          blast-Marked (λ j. IsKey ps j) (board e) robots bomb.position (unburnt e) radius
            (doomed, tt)))
        (λ t (marked, destroyed).
          let event = bomb_exploded id t.robots_destroyed t.blocks_destroyed in
          elim (Option-cases (get_elem? e.turns e.current_turn)) [
            | inl outside ↦ rw (outside, or_fail, ◌>>=◌) tt
            | inr (info, found) ↦
                rw (found, or_fail, ◌>>=◌)
                  (
                    (
                      players,
                      radius,
                      robots,
                      marked,
                      happened-Among e.turns e.current_turn info event found len destroyed log,
                    ),
                    refl,
                    length-set e.turns e.current_turn (add_event event info),
                  )
          ])

  tick_bombs-Named :
      (bombs : Map Bomb) (e : Engine)
      → length e.turns ≡ suc e.current_turn
      → Named ps e
      → Ensures (λ r. Named ps r.1) (tick_bombs bombs e)
  unfolding tick_bombs
  tick_bombs-Named [] e len w = w
  tick_bombs-Named ((id, bomb) ∷ rest) e len w =
      let ticked : Bomb = record bomb { timer = (bomb.timer + (2 ^ 16 - 1)) % 2 ^ 16 } in
      Ensures->>= (Goes e) (λ r. Named ps r.1)
        (if ticked.timer == 0 then handle_explosion id ticked e else ok e) _
        (Ensures-if (Goes e) (ticked.timer == 0) (handle_explosion id ticked e) (ok e)
          (λ over. handle_explosion-Named id ticked e len w) (λ later. (w, refl, refl)))
        (λ e1 (w1, turn, same).
          Ensures->>= (λ r. Named ps r.1) (λ r. Named ps r.1) (tick_bombs rest e1) _
            (tick_bombs-Named rest e1 (same ∙ len ∙ ap suc (sym turn)) w1) (λ r w2. w2))

  pub begin_turn-Named :
      (e : Engine)
      → length e.turns ≡ suc e.current_turn
      → suc e.current_turn < 2 ^ 16
      → Named ps e
      → Ensures (Named ps) (begin_turn e)
  unfolding begin_turn
  begin_turn-Named e len lt (players, radius, robots, doomed, log) =
      let turn : ℕ = (e.current_turn + 1) % 2 ^ 16 in
      let info : TurnInfo = record { turn = turn; events = [] } in
      let begun : Engine = record e { current_turn = turn; turns = e.turns ++ info ∷ [] } in
      let quiet : happened begun.turns ≡ happened e.turns =
        happened-append e.turns (info ∷ []) ∙ append-nil (happened e.turns) in
      Ensures->>= (λ r. Named ps r.1) (Named ps) (tick_bombs e.bombs begun) _
        (tick_bombs-Named e.bombs begun (length-append e.turns (info ∷ []) ∙ omega arith)
          (players, radius, robots, doomed, subst (All (AmongEvent ps)) (sym quiet) log))
        (λ r w. w)
