-- ===== src/Client/Session/Late.antt =====
-- A client that has no players in its lobby when a game begins for it: the server sends a client
-- that comes late GameStarted and the turns, and no AcceptedPlayer.
use bomberrobots.Base.{
  ℕ, none, ◌≡◌, refl, false, List, [], ◌∷◌, ◌++◌, Option, ok, err, out_of_range, length, All, suc,
  ◌∙◌, map, flatten, Returns, Returns-ok, Returns->>=, some,
}
use bomberrobots.Containers.Maps.{Map}
use bomberrobots.Messages.{Bytes, Player, Position}
use bomberrobots.Encoding.{append_each}
use bomberrobots.Events.{Event, TurnInfo, bomb_exploded, turn_to_bytes}
use bomberrobots.Client.Stream.{◌>>=◌, repeat}
use bomberrobots.Client.State.{new_game, drop_scores, start_scores, new_turn}
use bomberrobots.Client.Reading.Spec.{follow_turn}
use bomberrobots.Client.Session.{Client, handle_server_message, handle_server_messages}
use bomberrobots.Client.Session.Spec.{
  ServerMessage, turn, game_started, server_bytes, understand, IsSendable,
}
use bomberrobots.Client.Display.{game_message}
use bomberrobots.Client.Session.Arrivals.{arrival, IsArrival, waiting, waiting-Next}
use bomberrobots.Client.Session.Follows.{handle_server_message_lem}
use bomberrobots.Client.Session.Unscored.{
  Fails, IsHarmless, Unscored, each-Unscored, fatal_turn, handle_turn-Fails,
}

-- What GameStarted makes of such a client.
abbrev begun_of : Client → Client
begun_of c = record c {
  is_lobby_status = false;
  game_info = record {
    server_name = c.lobby_info.server_name;
    size_x = c.lobby_info.size_x;
    size_y = c.lobby_info.size_y;
    game_length = c.lobby_info.game_length;
    bomb_timer = c.lobby_info.bomb_timer;
    turn = none;
    players = [];
    player_positions = [];
    blocks = [];
    bombs = [];
    explosions = [];
    scores = [];
  };
}

understand_begun :
    (c : Client) (players : Map Player)
    → c.lobby_info.players ≡ []
    → c.scores ≡ []
    → understand (game_started players) c ≡ ok (begun_of c)
unfolding understand new_game drop_scores start_scores
understand_begun c players hp hs = rw hp (rw hs refl)

-- A client without scores gets through a turn that destroys no robot.
abbrev NoScores : Client → Type 0
NoScores c = c.game_info.scores ≡ []

turn-NoScores :
    (info : TurnInfo) (c : Client)
    → All IsHarmless info.events
    → NoScores c
    → Returns NoScores (understand (turn info) c)
unfolding understand game_message
turn-NoScores info c harmless h =
    Returns->>= (Unscored (some info.turn)) NoScores (follow_turn info c.game_info) _
      (each-Unscored (some info.turn) info.events (new_turn info.turn c.game_info) harmless
        (h, refl))
      (λ g (unscored, same). rw same unscored)

turns_fail :
    (infos : List TurnInfo) (fatal : TurnInfo) (msgs now : List ServerMessage)
    (groups : List (List ServerMessage)) (c : Client) (more : List (Option Bytes))
    → ((c' : Client) → NoScores c' → Fails (handle_server_message c') (turn_to_bytes fatal))
    → All IsArrival groups
    → now ++ flatten groups ≡ map turn infos ++ turn fatal ∷ msgs
    → All IsSendable (map turn infos)
    → All (λ info. All IsHarmless info.events) infos
    → NoScores c
    → handle_server_messages (suc (length infos)) c (waiting now groups more) ≡ err out_of_range
unfolding handle_server_messages repeat server_bytes
turns_fail [] fatal msgs now groups c more d a same s harmless h =
    let (now', groups', a', same', next) = waiting-Next (turn fatal) msgs now groups a same in
    let fails : handle_server_message c (waiting now groups more) ≡ err out_of_range =
      next c more ∙ d c h (append_each server_bytes now') (map arrival groups' ++ more) in
    rw (fails, ◌>>=◌) refl
turns_fail (info ∷ infos) fatal msgs now groups c more d a same (s, ss) (harmless, later) h =
    let (now', groups', a', same', next) =
      waiting-Next (turn info) (map turn infos ++ turn fatal ∷ msgs) now groups a same in
    let (c1, understood, h1) =
      Returns-ok NoScores (understand (turn info) c) (turn-NoScores info c harmless h) in
    let handled : handle_server_message c (waiting now groups more)
        ≡ ok (c1, waiting now' groups' more) =
      next c more
      ∙ handle_server_message_lem (turn info) c c1 s understood (append_each server_bytes now')
          (map arrival groups' ++ more) in
    rw (handled, ◌>>=◌) (turns_fail infos fatal msgs now' groups' c1 more d a' same' ss later h1)

-- A client that comes when a game is on has no players in its lobby and no scores from before, and is
-- sent the game's start and its turns; let each call of `read_some` bring one or more of these
-- messages, whole, and at most 256 bytes. The first explosion that destroys a robot, in whatever turn and after whatever events of the
-- turn, ends the client by an exception. The values sent are in the ranges of their types.
pub handle_server_messages_late :
    (c : Client) (players : Map Player) (infos : List TurnInfo) (n : ℕ) (before : List Event)
    (id r : ℕ) (robots : List ℕ) (blocks : List Position) (after : List Event)
    (msgs : List ServerMessage) (groups : List (List ServerMessage)) (more : List (Option Bytes))
    → c.lobby_info.players ≡ []
    → c.scores ≡ []
    → All IsArrival groups
    → flatten groups
      ≡ game_started players
        ∷ (map turn infos
            ++ turn (fatal_turn n before (bomb_exploded id (r ∷ robots) blocks) after) ∷ msgs)
    → IsSendable (game_started players)
    → All IsSendable (map turn infos)
    → IsSendable (turn (fatal_turn n before (bomb_exploded id (r ∷ robots) blocks) after))
    → All (λ info. All IsHarmless info.events) infos
    → All IsHarmless before
    → handle_server_messages
        (suc (suc (length infos)))
        c
        (record { current_buf = []; arriving = map arrival groups ++ more })
      ≡ err out_of_range
unfolding handle_server_messages repeat append_each
handle_server_messages_late c players infos n before id r robots blocks after msgs groups more hp hs
      a same s ss sf harmless earlier =
    let fatal = fatal_turn n before (bomb_exploded id (r ∷ robots) blocks) after in
    let (now', groups', a', same', next) =
      waiting-Next (game_started players) (map turn infos ++ turn fatal ∷ msgs) [] groups a same in
    let handled : handle_server_message c (waiting [] groups more)
        ≡ ok (begun_of c, waiting now' groups' more) =
      next c more
      ∙ handle_server_message_lem (game_started players) c (begun_of c) s
          (understand_begun c players hp hs) (append_each server_bytes now')
          (map arrival groups' ++ more) in
    rw (handled, ◌>>=◌)
      (turns_fail infos fatal msgs now' groups' (begun_of c) more
        (λ c' h. handle_turn-Fails n before id r robots blocks after c' h earlier sf) a' same' ss
        harmless refl)
