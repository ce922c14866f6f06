-- ===== src/Client/Session/Alive.antt =====
-- The client gets through a game whose robots belong to the players of its lobby.
use bomberrobots.Base.{
  ℕ, ◌+◌, ◌%◌, ◌^◌, ◌≡◌, refl, ◌∙◌, true, List, [], ◌∷◌, ◌++◌, Option, map, flatten, suc, ok, ap,
  length-map, Returns, Returns->>=, Returns-ok, Returns-mono, each, fold, ltb, length, arith, All,
  All-mono, Bool-cases, inl, inr, ◌==◌, ==_iff, ◌⊎◌, if◌then◌else◌, subst,
}
use bomberrobots.Containers.Maps
use bomberrobots.Containers.Maps.{Map}
use bomberrobots.Containers.Sets
use bomberrobots.Messages.{Bytes, Player, Position, position_lt}
use bomberrobots.Encoding.{append_each}
use bomberrobots.Events.{Event, bomb_placed, bomb_exploded, player_moved, block_placed, TurnInfo}
use bomberrobots.Client.State.{
  GameInfo, new_game, drop_scores, start_scores, new_turn, add_bomb, add_block, remove_bomb,
  destroy_player, remove_block, change_player_position,
}
use bomberrobots.Client.Reading.Spec.{follow, follow_turn}
use bomberrobots.Client.Display.{game_message}
use bomberrobots.Client.Session.{Client, handle_server_messages}
use bomberrobots.Client.Session.Spec.{ServerMessage, game_started, turn, understand, IsSendable}
use bomberrobots.Client.Session.Arrivals.{arrival, IsArrival, waiting, messages_lem}

-- A player that the game keeps a score of.
abbrev pub IsScored : GameInfo → ℕ → Type 0
IsScored g id = Maps.contains id g.scores ≡ true

-- `g'` has the scores' players of `g`, and its turn.
abbrev pub Keeps : GameInfo → GameInfo → Type 0
Keeps g g' = ((id : ℕ) → IsScored g id → IsScored g' id) × (g'.turn ≡ g.turn)

destroy_player-Keeps :
    (id : ℕ) (g : GameInfo) → IsScored g id → Returns (Keeps g) (destroy_player id g)
unfolding destroy_player
destroy_player-Keeps id g h =
    let (score, found) = Maps.find-contains id g.scores h in
    rw found (
      (λ j k.
          ground (arith, k, Maps.contains-insert_or_assign j id ((score + 1) % 2 ^ 32) g.scores)),
      refl,
    )

destroy_players-Keeps :
    (ids : List ℕ) (g : GameInfo)
    → All (IsScored g) ids
    → Returns (Keeps g) (each destroy_player ids g)
destroy_players-Keeps [] g h = ((λ j k. k), refl)
destroy_players-Keeps (id ∷ ids) g (h, hs) =
    Returns->>= (Keeps g) (Keeps g) (destroy_player id g) (each destroy_player ids)
      (destroy_player-Keeps id g h)
      (λ g1 (scored, same).
        Returns-mono (Keeps g1) (Keeps g) (each destroy_player ids g1)
          (destroy_players-Keeps ids g1 (All-mono (IsScored g) (IsScored g1) ids scored hs))
          (λ g2 (scored', same'). ((λ j k. scored' j (scored j k)), same' ∙ same)))

remove_block-Keeps : (ps : List Position) (g : GameInfo) → Keeps g (fold remove_block ps g)
unfolding remove_block
remove_block-Keeps [] g = ((λ j k. k), refl)
remove_block-Keeps (p ∷ ps) g =
    let (scored, same) = remove_block-Keeps ps (remove_block p g) in ((λ j k. scored j k), same)

-- The robots that an event destroys have scores.
abbrev pub IsFollowed : GameInfo → Event → Type 0
IsFollowed g (bomb_exploded id robots blocks) = All (IsScored g) robots
IsFollowed g _ = Unit

set-All :
    (P : ℕ → Type 0) (ids s : List ℕ) → All P ids → All P s → All P (fold (Sets.insert ltb) ids s)
set-All P [] s h k = k
set-All P (id ∷ ids) s (h, hs) k =
    set-All P ids (Sets.insert ltb id s) hs (Sets.All-insert ltb P id s h k)

follow-Keeps :
    (event : Event) (g : GameInfo) → IsFollowed g event → Returns (Keeps g) (follow event g)
unfolding add_bomb add_block remove_bomb change_player_position
follow-Keeps (bomb_placed id p) g h = ((λ j k. k), refl)
follow-Keeps (bomb_exploded id robots blocks) g h =
    Returns->>= (Keeps g) (Keeps g)
      (each destroy_player (fold (Sets.insert ltb) robots []) (remove_bomb id g)) _
      (destroy_players-Keeps (fold (Sets.insert ltb) robots []) (remove_bomb id g)
        (set-All (IsScored g) robots [] h tt))
      (λ g1 (scored, same).
        let (scored', same') = remove_block-Keeps (fold (Sets.insert position_lt) blocks []) g1 in
        ((λ j k. scored' j (scored j k)), same' ∙ same))
follow-Keeps (player_moved id p) g h = ((λ j k. k), refl)
follow-Keeps (block_placed p) g h = ((λ j k. k), refl)

IsFollowed-mono :
    (g g' : GameInfo) (event : Event) → Keeps g g' → IsFollowed g event → IsFollowed g' event
IsFollowed-mono g g' (bomb_placed id p) k h = tt
IsFollowed-mono g g' (bomb_exploded id robots blocks) (k, same) h =
    All-mono (IsScored g) (IsScored g') robots k h
IsFollowed-mono g g' (player_moved id p) k h = tt
IsFollowed-mono g g' (block_placed p) k h = tt

pub each-Keeps :
    (events : List Event) (g : GameInfo)
    → All (IsFollowed g) events
    → Returns (Keeps g) (each follow events g)
each-Keeps [] g h = ((λ j k. k), refl)
each-Keeps (event ∷ events) g (h, hs) =
    Returns->>= (Keeps g) (Keeps g) (follow event g) (each follow events) (follow-Keeps event g h)
      (λ g1 (scored, same).
        Returns-mono (Keeps g1) (Keeps g) (each follow events g1)
          (each-Keeps events g1 (
            All-mono (IsFollowed g) (IsFollowed g1) events
              (λ ev. IsFollowed-mono g g1 ev (scored, same)) hs))
          (λ g2 (scored', same'). ((λ j k. scored' j (scored j k)), same' ∙ same)))

-- The client's game has a score for each of the players.
abbrev Scores : Map Player → Client → Type 0
Scores players c = (id : ℕ) → Maps.contains id players ≡ true → IsScored c.game_info id

-- An event that destroys players' robots only.
abbrev pub AmongEvent : Map Player → Event → Type 0
AmongEvent players (bomb_exploded id robots blocks) =
    All (λ r. Maps.contains r players ≡ true) robots
AmongEvent players _ = Unit

pub AmongEvent-IsFollowed :
    (players : Map Player) (g : GameInfo) (event : Event)
    → ((id : ℕ) → Maps.contains id players ≡ true → IsScored g id)
    → AmongEvent players event
    → IsFollowed g event
AmongEvent-IsFollowed players g (bomb_placed id p) k h = tt
AmongEvent-IsFollowed players g (bomb_exploded id robots blocks) k h =
    All-mono (λ r. Maps.contains r players ≡ true) (IsScored g) robots k h
AmongEvent-IsFollowed players g (player_moved id p) k h = tt
AmongEvent-IsFollowed players g (block_placed p) k h = tt

-- A turn that destroys players' robots only.
abbrev pub Among : Map Player → TurnInfo → Type 0
Among players info = All (AmongEvent players) info.events

turn-Scores :
    (players : Map Player) (info : TurnInfo) (c : Client)
    → Scores players c
    → Among players info
    → Returns (Scores players) (understand (turn info) c)
unfolding understand game_message
turn-Scores players info c k h =
    let g = new_turn info.turn c.game_info in
    Returns->>= (Keeps g) (Scores players) (follow_turn info c.game_info) _
      (each-Keeps info.events g (
        All-mono (AmongEvent players) (IsFollowed g) info.events
          (λ ev. AmongEvent-IsFollowed players g ev k) h))
      (λ g' (scored, same). rw same (λ id p. scored id (k id p)))

turns-Scores :
    (players : Map Player) (infos : List TurnInfo) (c : Client)
    → Scores players c
    → All (Among players) infos
    → Returns (Scores players) (each understand (map turn infos) c)
turns-Scores players [] c k h = k
turns-Scores players (info ∷ infos) c k (h, hs) =
    Returns->>= (Scores players) (Scores players) (understand (turn info) c) _
      (turn-Scores players info c k h) (λ c' k'. turns-Scores players infos c' k' hs)

start_score :
    (j id : ℕ) (scores : Map ℕ)
    → ((j == id) ≡ true) ⊎ (Maps.contains id scores ≡ true)
    → Maps.contains id (if Maps.contains j scores then scores else Maps.insert j 0 scores) ≡ true
start_score j id scores (inr h) = ground (arith, h, Maps.contains-insert id j 0 scores)
start_score j id scores (inl h) = elim (Bool-cases (Maps.contains j scores)) [
  | inl e ↦ rw e (subst (λ i. Maps.contains i scores ≡ true) ((==_iff j id).0 h) e)
  | inr e ↦ rw e (ground (arith, h, Maps.contains-insert id j 0 scores))
]

pub start_scores-contains :
    (players : Map Player) (scores : Map ℕ) (id : ℕ)
    → (Maps.contains id players ≡ true) ⊎ (Maps.contains id scores ≡ true)
    → Maps.contains id (start_scores players scores) ≡ true
unfolding start_scores Maps.contains
start_scores-contains [] scores id (inl h) = absurd (cc)
start_scores-contains [] scores id (inr h) = h
start_scores-contains ((j, player) ∷ players) scores id h =
    start_scores-contains players
      (if Maps.contains j scores then scores else Maps.insert j 0 scores) id
      (elim h [
        | inr k ↦ inr (start_score j id scores (inr k))
        | inl k ↦ elim (Bool-cases (j == id)) [
          | inl e ↦ inr (start_score j id scores (inl e))
          | inr e ↦ inl (subst (λ b. (if b then true else Maps.contains id players) ≡ true) e k)
        ]
      ])

game_started-Scores :
    (players : Map Player) (c : Client)
    → c.scores ≡ []
    → Returns (Scores c.lobby_info.players) (understand (game_started players) c)
unfolding understand new_game drop_scores
game_started-Scores players c h =
    rw h (λ id k. start_scores-contains c.lobby_info.players [] id (inl k))

-- A game as the server sends it: its start and its turns, where each call of `read_some` brings one or
-- more of these messages, whole, and at most 256 bytes. A client that keeps no scores from before and
-- whose lobby has the players that the turns destroy robots of handles all of it, without an uncaught
-- exception, without leaving and without waiting for more. It has read exactly the game, and is left
-- with a score for each player of its lobby. The values sent are in the ranges of their types.
pub handle_server_messages_game :
    (c : Client) (players : Map Player) (infos : List TurnInfo) (groups : List (List ServerMessage))
    (more : List (Option Bytes))
    → All IsArrival groups
    → flatten groups ≡ game_started players ∷ map turn infos
    → c.scores ≡ []
    → All IsSendable (game_started players ∷ map turn infos)
    → All (Among c.lobby_info.players) infos
    → Returns
        (λ r.
          (r.1 ≡ record { current_buf = []; arriving = more })
          × ((id : ℕ)
              → Maps.contains id c.lobby_info.players ≡ true
              → Maps.contains id r.0.game_info.scores ≡ true))
        (handle_server_messages
          (suc (length infos))
          c
          (record { current_buf = []; arriving = map arrival groups ++ more }))
unfolding append_each
handle_server_messages_game c players infos groups more a same h sendable among =
    let msgs = game_started players ∷ map turn infos in
    let (c', gone, scored) = Returns-ok (Scores c.lobby_info.players) (each understand msgs c) (
      Returns->>= (Scores c.lobby_info.players) (Scores c.lobby_info.players)
        (understand (game_started players) c) (each understand (map turn infos))
        (game_started-Scores players c h)
        (λ c1 k. turns-Scores c.lobby_info.players infos c1 k among)) in
    let rounds : length msgs ≡ suc (length infos) = ap suc (length-map turn infos) in
    let gets_through = messages_lem msgs [] groups c c' more a same sendable gone in
    let gets_through' : handle_server_messages (suc (length infos)) c
          (record { current_buf = []; arriving = map arrival groups ++ more })
        ≡ ok (c', record { current_buf = []; arriving = more }) =
      subst
        (λ n.
          handle_server_messages n c (waiting [] groups more)
          ≡ ok (c', record { current_buf = []; arriving = more }))
        rounds gets_through in
    rw gets_through' (refl, scored)
