-- ===== src/Server/Invariant/Bombs.antt =====
-- game-engine.cpp, `begin_turn`: which bombs explode in a turn, and which are left.
use bomberrobots.Base.{
  ℕ, suc, ◌+◌, ◌-◌, ◌%◌, ◌^◌, ◌<◌, ◌≡◌, refl, ap, sym, ◌∙◌, true, false, inl, inr, List, [], ◌∷◌,
  ◌++◌, append-nil, ok, arith, ◌==◌, if◌then◌else◌, Bool-cases, length, length-append, All, Returns,
  Ensures, Ensures->>=, Ensures-after, Ensures-if, Ensures-mono, Returns-Ensures, subst,
}
use bomberrobots.Containers.Maps.{Map}
use bomberrobots.Messages.{Bomb}
use bomberrobots.Events.{Event, bomb_placed, bomb_exploded, player_moved, block_placed}
use bomberrobots.Server.Engine.{Engine, add_event_at}
use bomberrobots.Server.Explosion.{board, unburnt, blast, handle_explosion}
use bomberrobots.Server.Turns.{tick_bombs, erase_bombs, begin_turn}
use bomberrobots.Server.Invariant.{Playing}
use bomberrobots.Server.Invariant.Turns.{begin_turn-Playing}
use bomberrobots.Server.Invariant.Log.{
  happened, happened-append, Logged, Logged-none, Logged-trans, add_event_at-Logged,
}

-- The events are explosions of these bombs, in this order.
abbrev pub Explosions : List Event → List ℕ → Type 0
Explosions [] [] = Unit
Explosions (bomb_exploded id robots blocks ∷ es) (i ∷ ids) = (id ≡ i) × Explosions es ids
Explosions _ _ = ⊥

Explosions-append :
    (es fs : List Event) (is js : List ℕ)
    → Explosions es is
    → Explosions fs js
    → Explosions (es ++ fs) (is ++ js)
Explosions-append [] fs [] js h k = k
Explosions-append [] fs (i ∷ is) js h k = absurd h
Explosions-append (bomb_placed id p ∷ es) fs [] js h k = absurd h
Explosions-append (bomb_exploded id r b ∷ es) fs [] js h k = absurd h
Explosions-append (player_moved id p ∷ es) fs [] js h k = absurd h
Explosions-append (block_placed p ∷ es) fs [] js h k = absurd h
Explosions-append (bomb_placed id p ∷ es) fs (i ∷ is) js h k = absurd h
Explosions-append (bomb_exploded id r b ∷ es) fs (i ∷ is) js (same, h) k =
    (same, Explosions-append es fs is js h k)
Explosions-append (player_moved id p ∷ es) fs (i ∷ is) js h k = absurd h
Explosions-append (block_placed p ∷ es) fs (i ∷ is) js h k = absurd h

-- The bombs that have one turn left.
abbrev pub due : Map Bomb → List ℕ
due [] = []
due ((id, bomb) ∷ bombs) = if bomb.timer == 1 then id ∷ due bombs else due bombs

-- The others, a turn later. A timer of 0 starts again from the largest number.
abbrev pub survivors : Map Bomb → Map Bomb
survivors [] = []
survivors ((id, bomb) ∷ bombs) =
    if bomb.timer == 1
    then survivors bombs
    else (id, record bomb { timer = if bomb.timer == 0 then 2 ^ 16 - 1 else bomb.timer - 1 })
      ∷ survivors bombs

-- A timer is a `uint16_t`.
abbrev pub IsTimed : ℕ × Bomb → Type 0
IsTimed b = b.1.timer < 2 ^ 16

abbrev Explodes : ℕ → Engine → Engine → Type 0
Explodes id e e' = (news : List Event) × Explosions news (id ∷ []) × Logged e e' news

handle_explosion-Explodes :
    (id : ℕ) (bomb : Bomb) (e : Engine)
    → length e.turns ≡ suc e.current_turn
    → Ensures (Explodes id e) (handle_explosion id bomb e)
unfolding handle_explosion
handle_explosion-Explodes id bomb e len =
    Ensures-after (Explodes id e) (blast (board e) bomb.position (unburnt e)) _ (λ t.
      let burnt : Engine = record e {
        current_players_to_destroy = t.current_players_to_destroy;
        current_blocks_to_erase = t.current_blocks_to_erase;
      } in
      let event = bomb_exploded id t.robots_destroyed t.blocks_destroyed in
      Ensures-mono (λ e'. Logged burnt e' (event ∷ [])) (Explodes id e)
        (add_event_at e.current_turn event burnt)
        (add_event_at-Logged e.current_turn event burnt len)
        (λ e' logged. (event ∷ [], (refl, tt), logged)))

-- After the first loop: the bombs with their new timers, and the explosions.
abbrev Ticked : Map Bomb → Engine → Map Bomb × Engine → Type 0
Ticked bombs e r =
    (erase_bombs r.0 ≡ survivors bombs)
    × ((news : List Event) × Explosions news (due bombs) × Logged e r.1 news)

-- After the first of some bombs.
abbrev First : ℕ → Bomb → Engine → Engine → Type 0
First id bomb e e' =
    (news : List Event) × Explosions news (due ((id, bomb) ∷ [])) × Logged e e' news

first_lem :
    (id : ℕ) (bomb : Bomb) (e : Engine)
    → IsTimed (id, bomb)
    → length e.turns ≡ suc e.current_turn
    → let ticked : Bomb = record bomb { timer = (bomb.timer + (2 ^ 16 - 1)) % 2 ^ 16 } in
      Ensures (First id bomb e) (if ticked.timer == 0 then handle_explosion id ticked e else ok e)
first_lem id bomb e tick len =
    let ticked : Bomb = record bomb { timer = (bomb.timer + (2 ^ 16 - 1)) % 2 ^ 16 } in
    Ensures-if (First id bomb e) (ticked.timer == 0) (handle_explosion id ticked e) (ok e)
      (λ over.
        let last : (bomb.timer == 1) ≡ true = ground (arith, tick) in
        Ensures-mono (Explodes id e) (First id bomb e) (handle_explosion id ticked e)
          (handle_explosion-Explodes id ticked e len)
          (λ e' (news, ex, logged). (news, rw last ex, logged)))
      (λ later.
        let more : (bomb.timer == 1) ≡ false = ground (arith, tick) in
        ([], rw more tt, Logged-none e))

due_one :
    (id : ℕ) (bomb : Bomb) (rest : Map Bomb)
    → due ((id, bomb) ∷ []) ++ due rest ≡ due ((id, bomb) ∷ rest)
due_one id bomb rest = ground arith

erase_one :
    (id : ℕ) (bomb : Bomb) (rest rest' : Map Bomb)
    → IsTimed (id, bomb)
    → erase_bombs rest' ≡ survivors rest
    → erase_bombs ((id, record bomb { timer = (bomb.timer + (2 ^ 16 - 1)) % 2 ^ 16 }) ∷ rest')
      ≡ survivors ((id, bomb) ∷ rest)
unfolding erase_bombs
erase_one id bomb rest rest' lt same = elim (Bool-cases (bomb.timer == 1)) [
  | inl last ↦ ground (arith, same)
  | inr more ↦ ground (arith, same)
]

tick_bombs-Ticked :
    (bombs : Map Bomb) (e : Engine)
    → All IsTimed bombs
    → length e.turns ≡ suc e.current_turn
    → Ensures (Ticked bombs e) (tick_bombs bombs e)
unfolding tick_bombs erase_bombs
tick_bombs-Ticked [] e h len = (refl, ([], tt, Logged-none e))
tick_bombs-Ticked ((id, bomb) ∷ rest) e (tick, ticks) len =
    let ticked : Bomb = record bomb { timer = (bomb.timer + (2 ^ 16 - 1)) % 2 ^ 16 } in
    Ensures->>= (First id bomb e) (Ticked ((id, bomb) ∷ rest) e)
      (if ticked.timer == 0 then handle_explosion id ticked e else ok e) _
      (first_lem id bomb e tick len)
      (λ e1 (first, ex1, log1).
        Ensures->>= (Ticked rest e1) (Ticked ((id, bomb) ∷ rest) e) (tick_bombs rest e1) _
          (tick_bombs-Ticked rest e1 ticks (log1.2 ∙ len ∙ ap suc (sym log1.0)))
          (λ r (erased, (more, ex2, log2)). (
            erase_one id bomb rest r.0 tick erased,
            (
              first ++ more,
              subst (Explosions (first ++ more)) (due_one id bomb rest)
                  (Explosions-append first more (due ((id, bomb) ∷ [])) (due rest) ex1 ex2),
              Logged-trans e e1 r.1 first more log1 log2,
            ),
          )))

abbrev pub Exploded : Engine → Engine → Type 0
Exploded e e' =
    (e'.bombs ≡ survivors e.bombs)
    × ((news : List Event) × Explosions news (due e.bombs)
        × (happened e'.turns ≡ happened e.turns ++ news))
    × (e'.current_turn ≡ suc e.current_turn)
    × (length e'.turns ≡ suc (length e.turns))
    × (e'.gameplay_started ≡ e.gameplay_started)
    × (e'.game_params ≡ e.game_params)

pub begin_turn-Exploded :
    (e : Engine)
    → length e.turns ≡ suc e.current_turn
    → suc e.current_turn < 2 ^ 16
    → All IsTimed e.bombs
    → Ensures (Exploded e) (begin_turn e)
unfolding begin_turn
begin_turn-Exploded e len lt ticks =
    let turn : ℕ = (e.current_turn + 1) % 2 ^ 16 in
    let begun : Engine = record e {
      current_turn = turn;
      turns = e.turns ++ (record { turn = turn; events = [] }) ∷ [];
    } in
    let next : turn ≡ suc e.current_turn = omega arith in
    let longer : length begun.turns ≡ suc (length e.turns) =
      length-append e.turns ((record { turn = turn; events = [] }) ∷ []) ∙ omega arith in
    let quiet : happened begun.turns ≡ happened e.turns =
      happened-append e.turns ((record { turn = turn; events = [] }) ∷ [])
      ∙ append-nil (happened e.turns) in
    Ensures->>= (Ticked e.bombs begun) (Exploded e) (tick_bombs e.bombs begun) _
      (tick_bombs-Ticked e.bombs begun ticks (omega (arith, longer, next)))
      (λ r (erased, (news, ex, logged)). (
        erased,
        (news, ex, logged.3 ∙ ap (λ es. es ++ news) quiet),
        logged.0 ∙ next,
        logged.2 ∙ longer,
        logged.4,
        logged.5,
      ))

-- In a game with turns left `begin_turn` lets exactly the bombs explode that have
-- one turn left, in the order of their ids: these are the new events, and nothing else is. The other
-- bombs are left, with a turn less, and with 65535 where none was left. (A timer is a 16-bit number.)
pub begin_turn_bombs :
    (e : Engine)
    → Playing e
    → e.current_turn < e.game_params.game_length
    → All IsTimed e.bombs
    → Returns
        (λ e'.
          (e'.bombs ≡ survivors e.bombs)
          × ((news : List Event) × Explosions news (due e.bombs)
              × (happened e'.turns ≡ happened e.turns ++ news)))
        (begin_turn e)
begin_turn_bombs e v lt ticks =
    Returns-Ensures
      (λ e'. Playing e' × (e'.current_turn ≡ e.current_turn + 1) × (e'.game_params ≡ e.game_params))
      (Exploded e)
      (λ e'.
        (e'.bombs ≡ survivors e.bombs)
        × ((news : List Event) × Explosions news (due e.bombs)
            × (happened e'.turns ≡ happened e.turns ++ news)))
      (begin_turn e) (begin_turn-Playing e v lt)
      (begin_turn-Exploded e (v.history ∙ omega arith)
        (omega (arith, v.consistent.playable.game_length_lt)) ticks)
      (λ e' p q. (q.0, q.1))
