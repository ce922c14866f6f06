-- ===== src/Client/Session/Scores.antt =====
-- How the client counts points: a robot that several bombs hit in a turn counts for each of them.
use bomberrobots.Base.{
  ℕ, suc, ◌+◌, ◌%◌, ◌^◌, ◌<◌, ◌≡◌, ap, ◌∙◌, inl, inr, List, [], ◌∷◌, some, arith, ltb, ◌==◌,
  if◌then◌else◌, Bool-cases, Option-cases, ==_iff, each, fold, or_fail, ◌>>=◌, All, Returns,
  Returns-Ensures, Ensures, Ensures->>=, subst,
}
use bomberrobots.Containers.Maps
use bomberrobots.Containers.Sets
use bomberrobots.Containers.Occurrences.{occurrences, occurrences-fold-insert}
use bomberrobots.Messages.{Position, position_lt}
use bomberrobots.Events.{Event, bomb_placed, bomb_exploded, player_moved, block_placed, TurnInfo}
use bomberrobots.Client.State.{
  GameInfo, new_turn, add_bomb, add_block, remove_bomb, destroy_player, remove_block,
  change_player_position,
}
use bomberrobots.Client.Reading.Spec.{follow, follow_turn}
use bomberrobots.Client.Session.Alive.{IsFollowed, Keeps, each-Keeps}

-- The explosions among the events that destroy the robot.
abbrev pub hits : ℕ → List Event → ℕ
hits id [] = 0
hits id (bomb_exploded bomb robots blocks ∷ events) =
    (if Sets.has ltb id robots then 1 else 0) + hits id events
hits id (_ ∷ events) = hits id events

abbrev Scored : ℕ → ℕ → GameInfo → Type 0
Scored id n g = Maps.find id g.scores ≡ some (n % 2 ^ 32)

no_more : (id n : ℕ) (g : GameInfo) → Scored id n g → Scored id (0 + n) g
no_more id n g h = subst (λ k. Scored id k g) (omega arith) h

destroy_player-Scored :
    (id j n : ℕ) (g : GameInfo)
    → Scored id n g
    → Ensures (Scored id (if j == id then suc n else n)) (destroy_player j g)
unfolding destroy_player
destroy_player-Scored id j n g h = elim (Option-cases (Maps.find j g.scores)) [
  | inl unknown ↦ rw (unknown, or_fail, ◌>>=◌) tt
  | inr (score, found) ↦
      rw (found, or_fail, ◌>>=◌)
        (Maps.find-insert_or_assign id j ((score + 1) % 2 ^ 32) g.scores
          ∙ elim (Bool-cases (j == id)) [
            | inl same ↦
                (let at_id : Maps.find id g.scores ≡ some score =
                    subst (λ k. Maps.find k g.scores ≡ some score) ((==_iff j id).0 same) found in
                  let value : n % 2 ^ 32 ≡ score = cc in rw same (ap some (omega (arith, value))))
            | inr other ↦ rw other h
          ])
]

destroy_players-Scored :
    (id n : ℕ) (ids : List ℕ) (g : GameInfo)
    → Scored id n g
    → Ensures (Scored id (occurrences id ids + n)) (each destroy_player ids g)
destroy_players-Scored id n [] g h = no_more id n g h
destroy_players-Scored id n (j ∷ ids) g h =
    let m = if j == id then suc n else n in
    Ensures->>= (Scored id m) (Scored id (occurrences id (j ∷ ids) + n)) (destroy_player j g)
      (each destroy_player ids) (destroy_player-Scored id j n g h)
      (λ g1 h1.
        subst (λ k. Ensures (Scored id k) (each destroy_player ids g1)) (ground arith)
          (destroy_players-Scored id m ids g1 h1))

remove_blocks-Scored :
    (id n : ℕ) (ps : List Position) (g : GameInfo)
    → Scored id n g
    → Scored id n (fold remove_block ps g)
unfolding remove_block
remove_blocks-Scored id n [] g h = h
remove_blocks-Scored id n (p ∷ ps) g h = remove_blocks-Scored id n ps (remove_block p g) h

follow-Scored :
    (id n : ℕ) (event : Event) (g : GameInfo)
    → Scored id n g
    → Ensures (Scored id (hits id (event ∷ []) + n)) (follow event g)
unfolding add_bomb add_block remove_bomb change_player_position
follow-Scored id n (bomb_placed bomb position) g h = no_more id n (add_bomb bomb position g) h
follow-Scored id n (bomb_exploded bomb robots blocks) g h =
    let m = occurrences id (fold (Sets.insert ltb) robots []) + n in
    let counted : m ≡ hits id (bomb_exploded bomb robots blocks ∷ []) + n =
      omega (arith, occurrences-fold-insert id robots) in
    Ensures->>= (Scored id m) (Scored id (hits id (bomb_exploded bomb robots blocks ∷ []) + n))
      (each destroy_player (fold (Sets.insert ltb) robots []) (remove_bomb bomb g)) _
      (destroy_players-Scored id n (fold (Sets.insert ltb) robots []) (remove_bomb bomb g) h)
      (λ g1 h1.
        remove_blocks-Scored id (hits id (bomb_exploded bomb robots blocks ∷ []) + n)
          (fold (Sets.insert position_lt) blocks []) g1 (subst (λ k. Scored id k g1) counted h1))
follow-Scored id n (player_moved robot position) g h =
    no_more id n (change_player_position robot position g) h
follow-Scored id n (block_placed position) g h = no_more id n (add_block position g) h

hits_more :
    (id n : ℕ) (event : Event) (events : List Event)
    → hits id events + (hits id (event ∷ []) + n) ≡ hits id (event ∷ events) + n
hits_more id n (bomb_placed bomb position) events = omega arith
hits_more id n (bomb_exploded bomb robots blocks) events = omega arith
hits_more id n (player_moved robot position) events = omega arith
hits_more id n (block_placed position) events = omega arith

each-Scored :
    (id n : ℕ) (events : List Event) (g : GameInfo)
    → Scored id n g
    → Ensures (Scored id (hits id events + n)) (each follow events g)
each-Scored id n [] g h = no_more id n g h
each-Scored id n (event ∷ events) g h =
    Ensures->>= (Scored id (hits id (event ∷ []) + n)) (Scored id (hits id (event ∷ events) + n))
      (follow event g) (each follow events) (follow-Scored id n event g h)
      (λ g1 h1.
        subst (λ k. Ensures (Scored id k) (each follow events g1)) (hits_more id n event events)
          (each-Scored id (hits id (event ∷ []) + n) events g1 h1))

-- A turn of which every robot that is destroyed has a score is followed to its end, and each score
-- grows, modulo 2 ^ 32, by the number of explosions of the turn that destroy the robot: two bombs
-- that hit a robot at once are two points.
pub follow_turn_scores :
    (id score : ℕ) (info : TurnInfo) (g : GameInfo)
    → Maps.find id g.scores ≡ some score
    → score < 2 ^ 32
    → All (IsFollowed g) info.events
    → Returns
        (λ g'. Maps.find id g'.scores ≡ some ((hits id info.events + score) % 2 ^ 32))
        (follow_turn info g)
follow_turn_scores id score info g found lt known =
    let g0 = new_turn info.turn g in
    Returns-Ensures (Keeps g0) (Scored id (hits id info.events + score))
      (Scored id (hits id info.events + score)) (follow_turn info g)
      (each-Keeps info.events g0 known)
      (each-Scored id score info.events g0 (found ∙ ap some (omega arith))) (λ g' k h. h)
