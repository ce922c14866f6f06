-- ===== src/Client/Reading/Follows.antt =====
-- The readers of events against the bytes that the server writes for an event (event.cpp).
use bomberrobots.Base.{
  ℕ, ◌^◌, ◌<◌, ◌≡◌, refl, List, [], ◌∷◌, ◌++◌, ok, each, fold, ok->>=, ltb, length, arith, All,
  subst, ok_inj,
}
use bomberrobots.Containers.Sets
use bomberrobots.Messages.{Bytes, Position, position_lt}
use bomberrobots.Encoding.{
  uint8_to_byte, uint32_to_bytes, position_to_bytes, uint8_list_to_bytes, position_list_to_bytes,
  sized,
}
use bomberrobots.Events.{
  Event, bomb_placed, bomb_exploded, player_moved, block_placed, event_to_bytes,
}
use bomberrobots.Client.Stream.{Reader, pure, ◌>>=◌, read_uint8, read_uint32, read_position}
use bomberrobots.Client.Stream.RoundTrip.{
  Decodes, Decodes->>=, Decodes-last, Decodes-lift, read_uint8-uint8_to_byte,
  read_uint32-uint32_to_bytes, read_position-position_to_bytes, sized-fold, sized_lem,
}
use bomberrobots.Client.State.{
  GameInfo, add_bomb, add_block, remove_bomb, destroy_player, remove_block, change_player_position,
}
use bomberrobots.Client.Reading.Spec.{IsWord, IsFit, follow}
use bomberrobots.Client.Reading.{
  read_player_id, read_player_id_list, read_listed_position, read_position_list, read_bomb_placed,
  remove_blocks, read_bomb_exploded, read_player_moved, read_block_placed, read_event_body,
  read_event, read_event_list,
}

pub read_player_id_list-uint8_list_to_bytes :
    (ids : List ℕ)
    → length ids < 2 ^ 32
    → All (λ id. id < 2 ^ 8) ids
    → Decodes read_player_id_list (uint8_list_to_bytes ids) (fold (Sets.insert ltb) ids [])
unfolding read_player_id_list uint8_list_to_bytes read_player_id
read_player_id_list-uint8_list_to_bytes ids small h =
    sized-fold read_player_id (Sets.insert ltb) (λ e. uint8_to_byte e ∷ []) (λ id. id < 2 ^ 8)
      (λ id s fit.
        Decodes-last read_uint8 (λ id'. Sets.insert ltb id' s) (uint8_to_byte id ∷ []) id
          (read_uint8-uint8_to_byte id fit))
      ids [] small h

pub read_position_list-position_list_to_bytes :
    (ps : List Position)
    → length ps < 2 ^ 32
    → All IsWord ps
    → Decodes read_position_list (position_list_to_bytes ps) (fold (Sets.insert position_lt) ps [])
unfolding read_position_list position_list_to_bytes read_listed_position
read_position_list-position_list_to_bytes ps small h =
    sized-fold read_listed_position (Sets.insert position_lt) position_to_bytes IsWord
      (λ p s fit.
        Decodes-last read_position (λ p'. Sets.insert position_lt p' s) (position_to_bytes p) p
          (read_position-position_to_bytes p fit.0 fit.1))
      ps [] small h

remove_blocks-fold :
    (ps : List Position) (g : GameInfo) → remove_blocks ps g ≡ fold remove_block ps g
unfolding remove_blocks
remove_blocks-fold [] g = refl
remove_blocks-fold (p ∷ ps) g = remove_blocks-fold ps (remove_block p g)

read_bomb_placed_lem :
    (id : ℕ) (p : Position) (g : GameInfo)
    → id < 2 ^ 32
    → IsWord p
    → Decodes (read_bomb_placed g) (uint32_to_bytes id ++ position_to_bytes p) (add_bomb id p g)
unfolding read_bomb_placed
read_bomb_placed_lem id p g hi (hx, hy) =
    Decodes->>= read_uint32 _ (uint32_to_bytes id) (position_to_bytes p) id _
      (read_uint32-uint32_to_bytes id hi)
      (Decodes-last read_position (λ q. add_bomb id q g) (position_to_bytes p) p
        (read_position-position_to_bytes p hx hy))

read_player_moved_lem :
    (id : ℕ) (p : Position) (g : GameInfo)
    → id < 2 ^ 8
    → IsWord p
    → Decodes
        (read_player_moved g)
        (uint8_to_byte id ∷ position_to_bytes p)
        (change_player_position id p g)
unfolding read_player_moved
read_player_moved_lem id p g hi (hx, hy) =
    Decodes->>= read_uint8 (λ i. read_position >>= λ q. pure (change_player_position i q g))
      (uint8_to_byte id ∷ []) (position_to_bytes p) id (change_player_position id p g)
      (read_uint8-uint8_to_byte id hi)
      (Decodes-last read_position (λ q. change_player_position id q g) (position_to_bytes p) p
        (read_position-position_to_bytes p hx hy))

-- The end of `read_bomb_exploded`.
abbrev remove_listed : GameInfo → Reader GameInfo
remove_listed g = read_position_list >>= λ ps. pure (remove_blocks ps g)

remove_listed_lem :
    (blocks : List Position) (g : GameInfo)
    → length blocks < 2 ^ 32
    → All IsWord blocks
    → Decodes
        (remove_listed g)
        (position_list_to_bytes blocks)
        (fold remove_block (fold (Sets.insert position_lt) blocks []) g)
remove_listed_lem blocks g hb hbs =
    let cells = fold (Sets.insert position_lt) blocks [] in
    subst (Decodes (remove_listed g) (position_list_to_bytes blocks)) (remove_blocks-fold cells g) (
      Decodes-last read_position_list (λ ps. remove_blocks ps g) (position_list_to_bytes blocks)
        cells (read_position_list-position_list_to_bytes blocks hb hbs))

read_bomb_exploded_lem :
    (id : ℕ) (robots : List ℕ) (blocks : List Position) (g g' : GameInfo)
    → IsFit (bomb_exploded id robots blocks)
    → follow (bomb_exploded id robots blocks) g ≡ ok g'
    → Decodes
        (read_bomb_exploded g)
        (uint32_to_bytes id ++ (uint8_list_to_bytes robots ++ position_list_to_bytes blocks))
        g'
unfolding read_bomb_exploded
read_bomb_exploded_lem id robots blocks g g' (hi, hr, hrs, hb, hbs) e =
    let ids = fold (Sets.insert ltb) robots [] in
    let cells = fold (Sets.insert position_lt) blocks [] in
    let (g1, destroyed, rest) =
      ok->>= (each destroy_player ids (remove_bomb id g)) (λ g1. ok (fold remove_block cells g1)) g'
        e in
    Decodes->>= read_uint32 _ (uint32_to_bytes id) _ id _ (read_uint32-uint32_to_bytes id hi) (
      Decodes->>= read_player_id_list _ (uint8_list_to_bytes robots) _ ids _
        (read_player_id_list-uint8_list_to_bytes robots hr hrs)
        (Decodes-lift _ remove_listed g1 _ _ destroyed (
          subst (Decodes (remove_listed g1) (position_list_to_bytes blocks)) (ok_inj rest)
            (remove_listed_lem blocks g1 hb hbs))))

read_block_placed_lem :
    (p : Position) (g : GameInfo)
    → IsWord p
    → Decodes (read_block_placed g) (position_to_bytes p) (add_block p g)
unfolding read_block_placed
read_block_placed_lem p g (hx, hy) =
    Decodes-last read_position (λ q. add_block q g) (position_to_bytes p) p
      (read_position-position_to_bytes p hx hy)

-- The code of an event, then its fields.
coded_lem :
    (code : ℕ) (payload : Bytes) (g g' : GameInfo)
    → code < 2 ^ 8
    → Decodes (read_event_body code g) payload g'
    → Decodes (read_event g) (uint8_to_byte code ∷ payload) g'
unfolding read_event
coded_lem code payload g g' h d =
    Decodes->>= read_uint8 (λ c. read_event_body c g) (uint8_to_byte code ∷ []) payload code g'
      (read_uint8-uint8_to_byte code h) d

pub read_event-event_to_bytes :
    (event : Event) (g g' : GameInfo)
    → IsFit event
    → follow event g ≡ ok g'
    → Decodes (read_event g) (event_to_bytes event) g'
unfolding event_to_bytes read_event_body
read_event-event_to_bytes (bomb_placed id p) g g' (hi, hp) e =
    coded_lem 0 (uint32_to_bytes id ++ position_to_bytes p) g g' (omega arith) (
      subst (Decodes (read_bomb_placed g) (uint32_to_bytes id ++ position_to_bytes p)) (ok_inj e)
        (read_bomb_placed_lem id p g hi hp))
read_event-event_to_bytes (bomb_exploded id robots blocks) g g' h e =
    coded_lem 1
      (uint32_to_bytes id ++ (uint8_list_to_bytes robots ++ position_list_to_bytes blocks)) g g'
      (omega arith) (read_bomb_exploded_lem id robots blocks g g' h e)
read_event-event_to_bytes (player_moved id p) g g' (hi, hp) e =
    coded_lem 2 (uint8_to_byte id ∷ position_to_bytes p) g g' (omega arith) (
      subst (Decodes (read_player_moved g) (uint8_to_byte id ∷ position_to_bytes p)) (ok_inj e)
        (read_player_moved_lem id p g hi hp))
read_event-event_to_bytes (block_placed p) g g' h e =
    coded_lem 3 (position_to_bytes p) g g' (omega arith) (
      subst (Decodes (read_block_placed g) (position_to_bytes p)) (ok_inj e)
        (read_block_placed_lem p g h))

-- The events of a turn after their number.
pub read_event_list-append_each :
    (events : List Event) (g g' : GameInfo)
    → length events < 2 ^ 32
    → All IsFit events
    → each follow events g ≡ ok g'
    → Decodes (read_event_list g) (sized event_to_bytes events) g'
unfolding read_event_list
read_event_list-append_each events g g' small h e =
    sized_lem read_event follow event_to_bytes IsFit read_event-event_to_bytes events g g' small h e
