-- ===== src/Client/Session/Stale.antt =====
-- What the client's picture of a game misses.
use bomberrobots.Base.{ℕ, ◌≡◌, refl, true}
use bomberrobots.Containers.Maps
use bomberrobots.Messages.{Position}
use bomberrobots.Events.{player_moved, event_to_bytes}
use bomberrobots.Client.Stream.RoundTrip.{Decodes}
use bomberrobots.Client.State.{GameInfo, change_player_position}
use bomberrobots.Client.Reading.{read_event}
use bomberrobots.Client.Reading.Spec.{IsFit}
use bomberrobots.Client.Reading.Follows.{read_event-event_to_bytes}

-- The client does not move a robot that it has a position of: it reads the event and its picture
-- of the game stays the same, whatever the new position.
pub read_event_moved :
    (id : ℕ) (p : Position) (g : GameInfo)
    → IsFit (player_moved id p)
    → Maps.contains id g.player_positions ≡ true
    → Decodes (read_event g) (event_to_bytes (player_moved id p)) g
unfolding change_player_position Maps.insert
read_event_moved id p g fit known =
    read_event-event_to_bytes (player_moved id p) g g fit (rw known refl)
