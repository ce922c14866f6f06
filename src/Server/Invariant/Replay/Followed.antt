-- ===== src/Server/Invariant/Replay/Followed.antt =====
-- What ties the bombs of the engine to the events of a game.
use bomberrobots.Base.{
  ℕ, suc, ◌-◌, ◌^◌, ◌<◌, ◌≤◌, ◌≡◌, ◌⊎◌, ap, sym, subst, ◌∙◌, true, false, inl, inr, List, [], ◌∷◌,
  none, Option-cases, length, length-set, ◌>>=◌, or_fail, fold, fold_append, get_elem?, set, All,
  Ensures,
}
use bomberrobots.Containers.Maps
use bomberrobots.Containers.Maps.{Map}
use bomberrobots.Containers.Maps.Values.{IsDistinct}
use bomberrobots.Messages.{Player, Position}
use bomberrobots.Events.{Event, TurnInfo, player_moved, block_placed, add_event}
use bomberrobots.Server.Engine.{ServerParameters, Engine, add_event_at}
use bomberrobots.Server.Invariant.Bombs.{IsTimed}
use bomberrobots.Server.Invariant.Log.{happened, happened-set}
use bomberrobots.Server.Invariant.Replay.{follow_bomb, places}
use bomberrobots.Server.Invariant.Replay.Names.{Named, happened-Among}
use bomberrobots.Server.Invariant.{IsKey}
use bomberrobots.Client.Session.Alive.{AmongEvent}

-- The places of the bombs that the game so far tells of.
abbrev pub told_places : List TurnInfo → Map Position
told_places turns = fold follow_bomb (happened turns) []

abbrev pub IsBounded : ServerParameters → Type 0
IsBounded params =
    (params.bomb_timer < 2 ^ 16)
    × (params.game_length < 2 ^ 16)
    × (params.explosion_radius < 2 ^ 16 - 1)

-- In turn `k` of a game of the players `ps`, the bombs are where the events so far, and the `pending`
-- ones, tell.
abbrev pub Followed : ℕ → Map Player → List Event → Engine → Type 0
Followed k ps pending e =
    (e.gameplay_started ≡ true)
    × (e.current_turn ≡ k)
    × (length e.turns ≡ suc k)
    × (k ≤ e.game_params.game_length)
    × IsBounded e.game_params
    × IsDistinct e.bombs
    × All IsTimed e.bombs
    × (fold follow_bomb pending (told_places e.turns) ≡ places e.bombs)
    × Named ps e
    × All (AmongEvent ps) pending

-- Before a game.
abbrev pub Quiet : Engine → Type 0
Quiet e =
    (e.gameplay_started ≡ false)
    × (e.current_turn ≡ 0)
    × (e.turns ≡ [])
    × (e.bombs ≡ [])
    × IsBounded e.game_params
    × (e.players_positions ≡ [])
    × (e.current_players_to_destroy ≡ [])

abbrev pub Told : Engine → Type 0
Told e = Quiet e ⊎ ((k : ℕ) × (ps : Map Player) × Followed k ps [] e)

-- Between two rounds.
abbrev pub ToldBetween : Engine → Type 0
ToldBetween e =
    Quiet e ⊎ ((k : ℕ) × (ps : Map Player) × (k < e.game_params.game_length) × Followed k ps [] e)

pub add_event_at-Followed :
    (k : ℕ) (ps : Map Player) (event : Event) (e : Engine)
    → Followed k ps (event ∷ []) e
    → Ensures (Followed k ps []) (add_event_at k event e)
unfolding add_event_at
add_event_at-Followed k ps event e
      (
        started,
        turn,
        len,
        le,
        bounds,
        distinct,
        timed,
        told,
        (players, radius, robots, doomed, log),
        (among, rest),
      ) =
    elim (Option-cases (get_elem? e.turns k)) [
      | inl outside ↦ rw (outside, or_fail, ◌>>=◌) tt
      | inr (info, found) ↦
          (let added : List TurnInfo = set e.turns k (add_event event info) in
            let now : told_places added ≡ places e.bombs =
              ap (λ es. fold follow_bomb es []) (happened-set e.turns k info event found len)
              ∙ fold_append follow_bomb (happened e.turns) (event ∷ []) []
              ∙ told in
            rw (found, or_fail, ◌>>=◌)
              (
                started,
                turn,
                length-set e.turns k (add_event event info) ∙ len,
                le,
                bounds,
                distinct,
                timed,
                now,
                (
                  players,
                  radius,
                  robots,
                  doomed,
                  happened-Among ps e.turns k info event found len among log,
                ),
                tt,
              ))
    ]

-- An event in the turn that the engine is in, whatever its number.
pub add_event_now :
    (k : ℕ) (ps : Map Player) (event : Event) (e : Engine)
    → Followed k ps (event ∷ []) e
    → Ensures (Followed k ps []) (add_event_at e.current_turn event e)
add_event_now k ps event e w =
    subst (λ j. Ensures (Followed k ps []) (add_event_at j event e)) (sym w.1)
      (add_event_at-Followed k ps event e w)

-- No game has turns before it starts.
pub add_event_at-Quiet :
    (k : ℕ) (event : Event) (e : Engine) → e.turns ≡ [] → Ensures Told (add_event_at k event e)
unfolding add_event_at
add_event_at-Quiet k event e none_yet = elim (Option-cases (get_elem? e.turns k)) [
  | inl outside ↦ rw (outside, or_fail, ◌>>=◌) tt
  | inr (info, found) ↦
      (let empty : get_elem? e.turns k ≡ none = ap (λ t. get_elem? t k) none_yet in absurd (cc))
]

module _ (k : ℕ) (ps : Map Player) where
  -- Moves and blocks say nothing of bombs, nor of robots destroyed.
  pub moved-Followed :
      (id : ℕ) (position : Position) (e : Engine)
      → Followed k ps [] e
      → Followed k ps (player_moved id position ∷ []) e
  moved-Followed id position e
        (started, turn, len, le, bounds, distinct, timed, told, named, rest) =
      (started, turn, len, le, bounds, distinct, timed, told, named, (tt, tt))

  pub blocked-Followed :
      (position : Position) (e : Engine)
      → Followed k ps [] e
      → Followed k ps (block_placed position ∷ []) e
  blocked-Followed position e (started, turn, len, le, bounds, distinct, timed, told, named, rest) =
      (started, turn, len, le, bounds, distinct, timed, told, named, (tt, tt))

  -- A player's robot is put somewhere.
  pub relocated-Followed :
      (id : ℕ) (position : Position) (e : Engine)
      → IsKey ps id
      → Followed k ps [] e
      → Followed k ps []
          (record e { players_positions = Maps.insert_or_assign id position e.players_positions })
  relocated-Followed id position e key
        (
          started,
          turn,
          len,
          le,
          bounds,
          distinct,
          timed,
          told,
          (players, radius, robots, doomed, log),
          rest,
        ) =
      (
        started,
        turn,
        len,
        le,
        bounds,
        distinct,
        timed,
        told,
        (
          players,
          radius,
          Maps.All-insert_or_assign (λ r. IsKey ps r.0) id position e.players_positions key robots,
          doomed,
          log,
        ),
        rest,
      )
