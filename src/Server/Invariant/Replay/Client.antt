-- ===== src/Server/Invariant/Replay/Client.antt =====
-- The server's bombs and the client's picture of them.
use bomberrobots.Base.{
  ◌>>=◌, ok, All, All-mono, All-parts, Ensures, Ensures->>=, Ensures-after, Ensures-mono, List,
  Result, Returns, Returns->>=, Returns-Ensures, [], ap, each, fold, fold_append, inl, inr, ltb,
  or_fail, out_of_range, refl, subst, sym, true, ℕ, ◌<◌, ◌^◌, ◌∙◌, ◌∷◌, ◌≡◌,
}
use bomberrobots.Containers.Maps
use bomberrobots.Containers.Maps.{Map}
use bomberrobots.Containers.Sets
use bomberrobots.Containers.Maps.Values.{values-insert, values-erase}
use bomberrobots.Messages.{Player, Position, position_lt}
use bomberrobots.Events.{Event, bomb_placed, bomb_exploded, player_moved, block_placed, TurnInfo}
use bomberrobots.Client.State.{
  GameInfo, new_turn, add_bomb, add_block, remove_bomb, destroy_player, remove_block,
  change_player_position,
}
use bomberrobots.Client.State.{new_game, drop_scores}
use bomberrobots.Client.Session.Alive.{
  IsScored, IsFollowed, Keeps, each-Keeps, AmongEvent, AmongEvent-IsFollowed, start_scores-contains,
}
use bomberrobots.Client.Reading.Spec.{follow, follow_turn}
use bomberrobots.Server.Connections.{new_handler}
use bomberrobots.Server.Engine.{ServerParameters, Engine, new_engine}
use bomberrobots.Server.Rounds.{Round, manage_connections}
use bomberrobots.Server.Rounds.Preserved.{manage_connections_kept}
use bomberrobots.Server.Invariant.{IsPlayable, Between}
use bomberrobots.Server.Invariant.Rounds.{IsCivilRun, server_runs}
use bomberrobots.Server.Invariant.Log.{happened}
use bomberrobots.Server.Invariant.Replay.{follow_bomb, places}
use bomberrobots.Server.Invariant.Replay.Followed.{told_places, Told, ToldBetween}
use bomberrobots.Server.Invariant.Replay.Kept.{
  execute-Told, begin_turn-Told, summarise_turn-ToldBetween, Told-waiting, ToldBetween-Told,
}

manage_connections-ToldBetween :
    (rs : List Round) (e : Engine) → ToldBetween e → Ensures ToldBetween (manage_connections rs e)
manage_connections-ToldBetween =
    manage_connections_kept ToldBetween Told (λ e h w. w) (λ e h w. w) begin_turn-Told
      (λ e w waiting. ToldBetween-Told e w) execute-Told summarise_turn-ToldBetween Told-waiting

Told-places : (e : Engine) → Told e → places e.bombs ≡ told_places e.turns
Told-places e (inl w) = ap places w.3 ∙ sym (ap told_places w.2)
Told-places e (inr (k, ps, w)) = sym w.7

-- `g'` has the bombs of `g`.
abbrev SameBombs : GameInfo → GameInfo → Type 0
SameBombs g g' = g'.bombs ≡ g.bombs

destroy_players_bombs :
    (ids : List ℕ) (g : GameInfo) → Ensures (SameBombs g) (each destroy_player ids g)
unfolding destroy_player
destroy_players_bombs [] g = refl
destroy_players_bombs (id ∷ ids) g =
    Ensures->>= (SameBombs g) (SameBombs g) (destroy_player id g) (each destroy_player ids)
      (Ensures-after (SameBombs g) (or_fail (Maps.find id g.scores) out_of_range) _ (λ score. refl))
      (λ g1 same.
        Ensures-mono (SameBombs g1) (SameBombs g) (each destroy_player ids g1)
          (destroy_players_bombs ids g1) (λ g2 same'. same' ∙ same))

remove_blocks_bombs : (ps : List Position) (g : GameInfo) → SameBombs g (fold remove_block ps g)
unfolding remove_block
remove_blocks_bombs [] g = refl
remove_blocks_bombs (p ∷ ps) g = remove_blocks_bombs ps (remove_block p g)

-- After these events the client's bombs are where the events tell.
abbrev Follows : List Event → GameInfo → GameInfo → Type 0
Follows events g g' = places g'.bombs ≡ fold follow_bomb events (places g.bombs)

follow_lem : (event : Event) (g : GameInfo) → Ensures (Follows (event ∷ []) g) (follow event g)
unfolding add_bomb add_block remove_bomb change_player_position
follow_lem (bomb_placed id position) g =
    values-insert (λ b. b.position) id (record { position = position; timer = g.bomb_timer })
      g.bombs
follow_lem (bomb_exploded id robots blocks) g =
    Ensures->>= (SameBombs (remove_bomb id g)) (Follows (bomb_exploded id robots blocks ∷ []) g)
      (each destroy_player (fold (Sets.insert ltb) robots []) (remove_bomb id g)) _
      (destroy_players_bombs (fold (Sets.insert ltb) robots []) (remove_bomb id g))
      (λ g1 same.
        ap places (remove_blocks_bombs (fold (Sets.insert position_lt) blocks []) g1 ∙ same)
        ∙ values-erase (λ b. b.position) id g.bombs)
follow_lem (player_moved id position) g = refl
follow_lem (block_placed position) g = refl

follow_events_lem :
    (events : List Event) (g : GameInfo) → Ensures (Follows events g) (each follow events g)
follow_events_lem [] g = refl
follow_events_lem (event ∷ events) g =
    Ensures->>= (Follows (event ∷ []) g) (Follows (event ∷ events) g) (follow event g)
      (each follow events) (follow_lem event g)
      (λ g1 first.
        Ensures-mono (Follows events g1) (Follows (event ∷ events) g) (each follow events g1)
          (follow_events_lem events g1) (λ g2 later. later ∙ ap (fold follow_bomb events) first))

follow_turns_lem :
    (turns : List TurnInfo) (g : GameInfo)
    → Ensures (Follows (happened turns) g) (each follow_turn turns g)
follow_turns_lem [] g = refl
follow_turns_lem (info ∷ turns) g =
    Ensures->>= (Follows info.events g) (Follows (happened (info ∷ turns)) g) (follow_turn info g)
      (each follow_turn turns) (follow_events_lem info.events (new_turn info.turn g))
      (λ g1 first.
        Ensures-mono (Follows (happened turns) g1) (Follows (happened (info ∷ turns)) g)
          (each follow_turn turns g1) (follow_turns_lem turns g1)
          (λ g2 later.
            later
            ∙ ap (fold follow_bomb (happened turns)) first
            ∙ sym (fold_append follow_bomb info.events (happened turns) (places g.bombs))))

-- The game that a client with these players in its lobby starts.
abbrev pub begin_game : ServerParameters → Map Player → Result GameInfo
begin_game params players =
    new_game params.server_name params.size_x params.size_y params.game_length players
      params.bomb_timer []

-- A game that has a score for each of the players.
abbrev HasScores : Map Player → GameInfo → Type 0
HasScores players g = (id : ℕ) → Maps.contains id players ≡ true → IsScored g id

begin_game-HasScores :
    (params : ServerParameters) (players : Map Player)
    → (g : GameInfo) × (begin_game params players ≡ ok g) × (g.bombs ≡ []) × HasScores players g
unfolding new_game drop_scores
begin_game-HasScores params players =
    (_, refl, refl, (λ id k. start_scores-contains players [] id (inl k)))

-- The client gets through turns that destroy robots of these players only.
each-follow_turn :
    (players : Map Player) (turns : List TurnInfo) (g : GameInfo)
    → HasScores players g
    → All (AmongEvent players) (happened turns)
    → Returns (HasScores players) (each follow_turn turns g)
each-follow_turn players [] g k h = k
each-follow_turn players (info ∷ turns) g k h =
    let (here, later) = All-parts (AmongEvent players) info.events (happened turns) h in
    let g0 = new_turn info.turn g in
    Returns->>= (Keeps g0) (HasScores players) (follow_turn info g) (each follow_turn turns)
      (each-Keeps info.events g0 (
        All-mono (AmongEvent players) (IsFollowed g0) info.events
          (λ event. AmongEvent-IsFollowed players g0 event k) here))
      (λ g1 (scored, same). each-follow_turn players turns g1 (λ id p. scored id (k id p)) later)

Told-Among : (e : Engine) → Told e → All (AmongEvent e.players) (happened e.turns)
Told-Among e (inl w) = subst (λ t. All (AmongEvent e.players) (happened t)) (sym w.2) tt
Told-Among e (inr (k, ps, w)) =
    subst (λ players. All (AmongEvent players) (happened e.turns)) (sym w.8.0) w.8.4

-- A client that has all turns of the engine has its bombs.
client_bombs :
    (params : ServerParameters) (e : Engine)
    → Told e
    → Returns
        (λ g. places g.bombs ≡ places e.bombs)
        (begin_game params e.players >>= each follow_turn e.turns)
client_bombs params e w =
    let (g, begins, none_yet, scored) = begin_game-HasScores params e.players in
    subst
      (λ game. Returns (λ g'. places g'.bombs ≡ places e.bombs) (game >>= each follow_turn e.turns))
      (sym begins)
      (Returns-Ensures (HasScores e.players) (Follows (happened e.turns) g)
        (λ g'. places g'.bombs ≡ places e.bombs) (each follow_turn e.turns g)
        (each-follow_turn e.players e.turns g scored (Told-Among e w)) (follow_turns_lem e.turns g)
        (λ g' k seen.
          seen
          ∙ ap (fold follow_bomb (happened e.turns)) (ap places none_yet)
          ∙ sym (Told-places e w)))

-- However a run of the server goes that `server_runs` is about, afterwards the bombs of the engine
-- stand, under the same ids, where the turns that it keeps tell. A client that starts a game with the
-- server's players gets through these turns, and then has the bombs of the server in their places.
-- (A bomb timer is a 16-bit number.)
pub follow_turn-manage_connections :
    (params : ServerParameters) (socket_fd : ℕ) (rs : List Round)
    → IsPlayable params
    → params.bomb_timer < 2 ^ 16
    → IsCivilRun rs (new_engine params (new_handler socket_fd))
    → Returns
        (λ e.
          (places e.bombs ≡ fold follow_bomb (happened e.turns) [])
          × Returns
              (λ g. places g.bombs ≡ places e.bombs)
              (begin_game params e.players >>= each follow_turn e.turns))
        (manage_connections rs (new_engine params (new_handler socket_fd)))
unfolding new_engine
follow_turn-manage_connections params socket_fd rs h timer_lt civil =
    let e = new_engine params (new_handler socket_fd) in
    Returns-Ensures Between ToldBetween _ (manage_connections rs e)
      (server_runs params socket_fd rs h civil)
      (manage_connections-ToldBetween rs e
        (inl (refl, refl, refl, refl, (timer_lt, h.game_length_lt, h.radius_lt), refl, refl)))
      (λ e' v w.
        let told = ToldBetween-Told e' w in (Told-places e' told, client_bombs params e' told))
