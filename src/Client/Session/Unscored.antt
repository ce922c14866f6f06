-- ===== src/Client/Session/Unscored.antt =====
-- A client whose game has no scores, against the events of a turn: it cannot add to the score of a
-- robot that is destroyed.
use bomberrobots.Base.{
  ℕ, ◌%◌, subst, ◌^◌, ◌<◌, ◌≡◌, refl, List, [], ◌∷◌, ◌++◌, append_assoc, Option, err, out_of_range,
  each, fold, ltb, length, arith, All, Bool-cases, inl, inr, cons≢nil, Returns, Returns-ok,
  Returns->>=, All-append_inv,
}
use bomberrobots.Containers.Maps
use bomberrobots.Containers.Maps.{Map}
use bomberrobots.Containers.Sets
use bomberrobots.Messages.{Bytes, Position, position_lt}
use bomberrobots.Encoding.{
  uint8_to_byte, uint16_to_bytes, uint32_to_bytes, uint8_list_to_bytes, position_list_to_bytes,
  append_each, sized,
}
use bomberrobots.Events.{
  Event, TurnInfo, bomb_placed, player_moved, block_placed, bomb_exploded, event_to_bytes,
  turn_to_bytes,
}
use bomberrobots.Client.Stream.{
  Reader, pure, ◌>>=◌, lift, read_uint8, read_uint16, read_uint32, repeat,
}
use bomberrobots.Client.Stream.RoundTrip.{
  Decodes, read_uint8-uint8_to_byte, read_uint16-uint16_to_bytes, read_uint32-uint32_to_bytes,
}
use bomberrobots.Client.State.{
  GameInfo, new_turn, destroy_player, remove_bomb, add_bomb, add_block, remove_block,
  change_player_position,
}
use bomberrobots.Client.Reading.{
  read_player_id_list, read_position_list, remove_blocks, read_event, read_event_body,
  read_bomb_exploded, read_event_list,
}
use bomberrobots.Client.Reading.Spec.{IsFit, follow}
use bomberrobots.Client.Reading.Follows.{
  read_event-event_to_bytes, read_player_id_list-uint8_list_to_bytes,
}
use bomberrobots.Client.Session.{
  Client, send_gui_message, read_turn, handle_turn_message, handle_body, handle_server_message,
}
use bomberrobots.Client.Session.Spec.{turn, IsSendable}
use bomberrobots.Client.Display.{game_message}

-- `reader` fails on `bytes`, whatever comes after them.
abbrev pub Fails : {A : Type 0} → Reader A → Bytes → Type 0
Fails reader bytes =
    (rest : Bytes) (arriving : List (Option Bytes))
    → reader (record { current_buf = bytes ++ rest; arriving = arriving }) ≡ err out_of_range

Fails-first :
    {A B : Type 0} (m : Reader A) (f : A → Reader B) (xs : Bytes) → Fails m xs → Fails (m >>= f) xs
Fails-first m f xs d rest arriving = rw (d rest arriving, ◌>>=◌) refl

Fails-later :
    {A B : Type 0} (m : Reader A) (f : A → Reader B) (xs ys : Bytes) (a : A)
    → Decodes m xs a
    → Fails (f a) ys
    → Fails (m >>= f) (xs ++ ys)
Fails-later m f xs ys a d e rest arriving =
    rw (append_assoc) (rw (d (ys ++ rest) arriving, ◌>>=◌) (e rest arriving))

Fails-append : {A : Type 0} (m : Reader A) (xs ys : Bytes) → Fails m xs → Fails m (xs ++ ys)
Fails-append m xs ys d rest arriving = rw (append_assoc) (d (ys ++ rest) arriving)

place_lem : (r : ℕ) (s : List ℕ) → (a : ℕ) × (t : List ℕ) × (Sets.place ltb r s ≡ a ∷ t)
unfolding Sets.place
place_lem r [] = (r, [], refl)
place_lem r (b ∷ s) = elim (Bool-cases (ltb r b)) [
  | inl e ↦ (r, b ∷ s, rw e refl)
  | inr e ↦ (b, Sets.place ltb r s, rw e refl)
]

insert_lem : (r : ℕ) (s : List ℕ) → (a : ℕ) × (t : List ℕ) × (Sets.insert ltb r s ≡ a ∷ t)
unfolding Sets.insert Sets.has
insert_lem r [] = place_lem r []
insert_lem r (b ∷ s) = elim (Bool-cases (Sets.has ltb r (b ∷ s))) [
  | inl e ↦ (b, s, rw e refl)
  | inr e ↦ let (a, t, h) = place_lem r (b ∷ s) in (a, t, rw e h)
]

-- A set that robots have been added to is not empty.
fold_lem :
    (rs : List ℕ) (b : ℕ) (s : List ℕ)
    → (a : ℕ) × (t : List ℕ) × (fold (Sets.insert ltb) rs (b ∷ s) ≡ a ∷ t)
fold_lem [] b s = (b, s, refl)
fold_lem (r ∷ rs) b s = let (a, t, h) = insert_lem r (b ∷ s) in rw h (fold_lem rs a t)

-- Without scores no robot can be destroyed.
destroy_unscored :
    (r : ℕ) (rs : List ℕ) (g : GameInfo)
    → g.scores ≡ []
    → each destroy_player (fold (Sets.insert ltb) (r ∷ rs) []) g ≡ err out_of_range
unfolding destroy_player Maps.find Sets.insert Sets.place Sets.has
destroy_unscored r rs g h = let (a, t, e) = fold_lem rs r [] in rw e (rw h refl)

-- The rest of `read_bomb_exploded`, when the robots are known.
abbrev destroying : ℕ → List ℕ → GameInfo → Reader GameInfo
destroying id robots g = lift (each destroy_player robots (remove_bomb id g)) >>= λ g'.
    read_position_list >>= λ ps. pure (remove_blocks ps g')

read_bomb_exploded_unscored :
    (id r : ℕ) (robots : List ℕ) (g : GameInfo)
    → id < 2 ^ 32
    → length (r ∷ robots) < 2 ^ 32
    → All (λ i. i < 2 ^ 8) (r ∷ robots)
    → g.scores ≡ []
    → Fails (read_bomb_exploded g) (uint32_to_bytes id ++ uint8_list_to_bytes (r ∷ robots))
unfolding read_bomb_exploded remove_bomb
read_bomb_exploded_unscored id r robots g hi hl hr h =
    Fails-later read_uint32 (λ i. read_player_id_list >>= λ rs. destroying i rs g)
      (uint32_to_bytes id) (uint8_list_to_bytes (r ∷ robots)) id (read_uint32-uint32_to_bytes id hi)
      (λ rest arriving.
        rw (read_player_id_list-uint8_list_to_bytes (r ∷ robots) hl hr rest arriving, ◌>>=◌)
          (rw (destroy_unscored r robots (remove_bomb id g) h) refl))

read_event_unscored :
    (id r : ℕ) (robots : List ℕ) (blocks : List Position) (g : GameInfo)
    → IsFit (bomb_exploded id (r ∷ robots) blocks)
    → g.scores ≡ []
    → Fails (read_event g) (event_to_bytes (bomb_exploded id (r ∷ robots) blocks))
unfolding read_event event_to_bytes read_event_body
read_event_unscored id r robots blocks g (hi, hl, hr, hb, hbs) h =
    let exploded = read_bomb_exploded_unscored id r robots g hi hl hr h in
    let ids = uint32_to_bytes id ++ uint8_list_to_bytes (r ∷ robots) in
    let cells = position_list_to_bytes blocks in
    Fails-later read_uint8 (λ k. read_event_body k g) (uint8_to_byte 1 ∷ [])
      (uint32_to_bytes id ++ (uint8_list_to_bytes (r ∷ robots) ++ cells)) 1
      (read_uint8-uint8_to_byte 1 (omega arith))
      (subst (Fails (read_bomb_exploded g))
        (append_assoc (uint32_to_bytes id) (uint8_list_to_bytes (r ∷ robots)) cells)
        (Fails-append (read_bomb_exploded g) ids cells exploded))

-- An event that destroys no robot.
abbrev pub IsHarmless : Event → Type 0
IsHarmless (bomb_exploded id robots blocks) = robots ≡ []
IsHarmless _ = Unit

-- There are no scores, and the turn is `n`.
abbrev pub Unscored : Option ℕ → GameInfo → Type 0
Unscored n g = (g.scores ≡ []) × (g.turn ≡ n)

remove_block-Unscored :
    (n : Option ℕ) (ps : List Position) (g : GameInfo)
    → Unscored n g
    → Unscored n (fold remove_block ps g)
unfolding remove_block
remove_block-Unscored n [] g h = h
remove_block-Unscored n (p ∷ ps) g h = remove_block-Unscored n ps (remove_block p g) h

follow-Unscored :
    (n : Option ℕ) (event : Event) (g : GameInfo)
    → IsHarmless event
    → Unscored n g
    → Returns (Unscored n) (follow event g)
unfolding add_bomb add_block remove_bomb change_player_position
follow-Unscored n (bomb_placed id p) g harmless h = h
follow-Unscored n (bomb_exploded id [] blocks) g harmless h =
    remove_block-Unscored n (fold (Sets.insert position_lt) blocks []) (remove_bomb id g) h
follow-Unscored n (bomb_exploded id (r ∷ robots) blocks) g harmless h = absurd (cons≢nil harmless)
follow-Unscored n (player_moved id p) g harmless h = h
follow-Unscored n (block_placed p) g harmless h = h

pub each-Unscored :
    (n : Option ℕ) (events : List Event) (g : GameInfo)
    → All IsHarmless events
    → Unscored n g
    → Returns (Unscored n) (each follow events g)
each-Unscored n [] g harmless h = h
each-Unscored n (event ∷ events) g (harmless, more) h =
    Returns->>= (Unscored n) (Unscored n) (follow event g) (each follow events)
      (follow-Unscored n event g harmless h) (λ g' h'. each-Unscored n events g' more h')

-- Events of which one fails, after some that destroy no robot.
repeat-Fails :
    (before : List Event) (event : Event) (after : List Event) (g : GameInfo)
    → All IsHarmless before
    → All IsFit before
    → ((g' : GameInfo) → g'.scores ≡ [] → Fails (read_event g') (event_to_bytes event))
    → g.scores ≡ []
    → Fails
        (repeat (length (before ++ event ∷ after)) read_event g)
        (append_each event_to_bytes (before ++ event ∷ after))
unfolding repeat append_each
repeat-Fails [] event after g harmless fit d h =
    Fails-first (read_event g) (λ g'. repeat (length after) read_event g')
      (event_to_bytes event ++ append_each event_to_bytes after)
      (Fails-append (read_event g) (event_to_bytes event) (append_each event_to_bytes after)
        (d g h))
repeat-Fails (b ∷ before) event after g (harmless, later) (fit, fits) d h =
    let (g1, followed, h1) =
      Returns-ok (Unscored g.turn) (follow b g) (follow-Unscored g.turn b g harmless (h, refl)) in
    Fails-later (read_event g) (λ g'. repeat (length (before ++ event ∷ after)) read_event g')
      (event_to_bytes b) (append_each event_to_bytes (before ++ event ∷ after)) g1
      (read_event-event_to_bytes b g g1 fit followed)
      (repeat-Fails before event after g1 later fits d h1.0)

-- A turn with an explosion that destroys a robot, after events that destroy none.
abbrev pub fatal_turn : ℕ → List Event → Event → List Event → TurnInfo
fatal_turn n before event after = record { turn = n; events = before ++ event ∷ after }

pub handle_turn-Fails :
    (n : ℕ) (before : List Event) (id r : ℕ) (robots : List ℕ) (blocks : List Position)
    (after : List Event) (c : Client)
    → c.game_info.scores ≡ []
    → All IsHarmless before
    → IsSendable (turn (fatal_turn n before (bomb_exploded id (r ∷ robots) blocks) after))
    → Fails
        (handle_server_message c)
        (turn_to_bytes (fatal_turn n before (bomb_exploded id (r ∷ robots) blocks) after))
unfolding handle_server_message handle_body handle_turn_message read_turn turn_to_bytes
    read_event_list
handle_turn-Fails n before id r robots blocks after c unscored harmless (hn, small, fits) =
    let event = bomb_exploded id (r ∷ robots) blocks in
    let events = before ++ event ∷ after in
    let (fits_before, (fit, fits_after)) = All-append_inv IsFit before (event ∷ after) fits in
    let listed = sized event_to_bytes events in
    let same : length events % 2 ^ 32 ≡ length events = omega arith in
    let list_fails : Fails (read_event_list (new_turn n c.game_info)) listed =
      unfold sized in
      Fails-later read_uint32 (λ k. repeat k read_event (new_turn n c.game_info))
        (uint32_to_bytes (length events % 2 ^ 32)) (append_each event_to_bytes events)
        (length events)
        (subst (λ k. Decodes read_uint32 (uint32_to_bytes (length events % 2 ^ 32)) k) same
          (read_uint32-uint32_to_bytes (length events % 2 ^ 32) (omega arith)))
        (repeat-Fails before event after (new_turn n c.game_info) harmless fits_before
          (λ g' h. read_event_unscored id r robots blocks g' fit h) unscored) in
    Fails-later read_uint8 (λ k. handle_body k c) (uint8_to_byte 3 ∷ [])
      (uint16_to_bytes n ++ listed) 3 (read_uint8-uint8_to_byte 3 (omega arith))
      (Fails-first (read_turn c.game_info)
        (λ g. lift (game_message g) >>= λ m. pure (send_gui_message m (record c { game_info = g })))
        (uint16_to_bytes n ++ listed)
        (Fails-later read_uint16 (λ k. read_event_list (new_turn k c.game_info)) (uint16_to_bytes n)
          listed n (read_uint16-uint16_to_bytes n hn) list_fails))
