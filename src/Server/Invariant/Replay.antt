-- ===== src/Server/Invariant/Replay.antt =====
-- What a list of events says about the bombs of a game, and what stands in the engine.
pub mod Names
pub mod Followed
pub mod Steps
pub mod Kept
pub mod Client
use bomberrobots.Base.{
  ℕ, ◌^◌, ◌-◌, ◌≡◌, refl, ap, sym, ◌∙◌, ◌<◌, true, false, inl, inr, List, [], ◌∷◌, ◌++◌, arith,
  ◌==◌, ==_refl, if◌then◌else◌, Bool-cases, fold, All,
}
use bomberrobots.Containers.Maps
use bomberrobots.Containers.Maps.{Map, contains, erase}
use bomberrobots.Containers.Maps.Values.{
  values, IsDistinct, erase_absent, erase_others, contains-values,
}
use bomberrobots.Messages.{Position, Bomb}
use bomberrobots.Events.{Event, bomb_placed, bomb_exploded, player_moved, block_placed}
use bomberrobots.Server.Invariant.Bombs.{Explosions, due, survivors, IsTimed}

-- What an event does to the places of the bombs.
abbrev pub follow_bomb : Event → Map Position → Map Position
follow_bomb (bomb_placed id position) m = Maps.insert id position m
follow_bomb (bomb_exploded id robots blocks) m = erase id m
follow_bomb (player_moved id position) m = m
follow_bomb (block_placed position) m = m

-- The places of bombs.
abbrev pub places : Map Bomb → Map Position
places = values (λ bomb. bomb.position)

-- Explosions take the bombs away that they are explosions of.
pub follow-Explosions :
    (news : List Event) (ids : List ℕ) (m : Map Position)
    → Explosions news ids
    → fold follow_bomb news m ≡ fold erase ids m
follow-Explosions [] [] m h = refl
follow-Explosions (bomb_exploded id r b ∷ es) (i ∷ ids) m (same, h) =
    rw same (follow-Explosions es ids (erase i m) h)
follow-Explosions [] (i ∷ ids) m h = absurd h
follow-Explosions (bomb_exploded id r b ∷ es) [] m h = absurd h
follow-Explosions (bomb_placed id p ∷ es) ids m h = absurd h
follow-Explosions (player_moved id p ∷ es) ids m h = absurd h
follow-Explosions (block_placed p ∷ es) ids m h = absurd h

-- What is no key is not due.
due_others :
    (k : ℕ) (bombs : Map Bomb)
    → contains k bombs ≡ false
    → All (λ id. (k == id) ≡ false) (due bombs)
unfolding contains
due_others k [] h = tt
due_others k ((id, bomb) ∷ bombs) h =
    let rest = due_others k bombs (ground (arith, h)) in
    elim (Bool-cases (bomb.timer == 1)) [
      | inl last ↦ rw last (ground (arith, h), rest)
      | inr more ↦ rw more rest
    ]

-- A key that stands at the front only goes.
erase_front :
    (id : ℕ) (bomb : Bomb) (bombs : Map Bomb)
    → contains id bombs ≡ false
    → erase id (places ((id, bomb) ∷ bombs)) ≡ places bombs
unfolding erase
erase_front id bomb bombs new =
    rw (==_refl id)
      (erase_absent id (places bombs) (contains-values (λ b. b.position) id bombs ∙ new))

-- With the bombs that are due taken away, the others are left where they are.
pub fold-erase-due :
    (bombs : Map Bomb)
    → IsDistinct bombs
    → fold erase (due bombs) (places bombs) ≡ places (survivors bombs)
fold-erase-due [] d = refl
fold-erase-due ((id, bomb) ∷ bombs) (new, d) = elim (Bool-cases (bomb.timer == 1)) [
  | inl last ↦
      rw last (ap (fold erase (due bombs)) (erase_front id bomb bombs new) ∙ fold-erase-due bombs d)
  | inr more ↦ rw more (
      erase_others (due bombs) id bomb.position (places bombs) (due_others id bombs new)
      ∙ ap (λ m. (id, bomb.position) ∷ m) (fold-erase-due bombs d))
]

contains-survivors :
    (k : ℕ) (bombs : Map Bomb) → contains k bombs ≡ false → contains k (survivors bombs) ≡ false
unfolding contains
contains-survivors k [] h = refl
contains-survivors k ((id, bomb) ∷ bombs) h =
    let rest = contains-survivors k bombs (ground (arith, h)) in ground (arith, h, rest)

pub survivors-IsDistinct : (bombs : Map Bomb) → IsDistinct bombs → IsDistinct (survivors bombs)
survivors-IsDistinct [] d = tt
survivors-IsDistinct ((id, bomb) ∷ bombs) (new, d) = elim (Bool-cases (bomb.timer == 1)) [
  | inl last ↦ rw last (survivors-IsDistinct bombs d)
  | inr more ↦ rw more (contains-survivors id bombs new, survivors-IsDistinct bombs d)
]

pub survivors-IsTimed : (bombs : Map Bomb) → All IsTimed bombs → All IsTimed (survivors bombs)
survivors-IsTimed [] h = tt
survivors-IsTimed ((id, bomb) ∷ bombs) (t, ts) = elim (Bool-cases (bomb.timer == 1)) [
  | inl last ↦ rw last (survivors-IsTimed bombs ts)
  | inr more ↦ rw more (ground (arith, t), survivors-IsTimed bombs ts)
]
