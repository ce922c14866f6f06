-- ===== src/Server/Invariant/Replay/Kept.antt =====
-- game-engine.cpp: every operation keeps the bombs of the engine in step with the events of the
-- game.
use bomberrobots.Base.{
  ℕ, suc, ◌+◌, ◌%◌, ◌^◌, ◌<◌, ◌≤◌, ◌≡◌, refl, ap, sym, subst, ◌∙◌, true, false, inl, inr, [], ◌∷◌,
  ◌++◌, Option, none, some, Result, ok, arith, Bool-cases, length, ◌==◌, or_fail, false≢true, fold,
  fold_append, get_elem?, out_of_range, uninitialised, All, Ensures, Ensures->>=, Ensures-after,
  Ensures-if, Ensures-mono, Ensures-both,
}
use bomberrobots.Containers.Maps
use bomberrobots.Containers.Maps.{Map}
use bomberrobots.Containers.Maps.Values.{IsDistinct}
use bomberrobots.Messages.{Bytes, Player}
use bomberrobots.Events.{Event}
use bomberrobots.Server.Connections.{get_address}
use bomberrobots.Server.Engine.{Engine, add_event_at, send_to_all, accepted_player_msg}
use bomberrobots.Server.Turns.{
  seed_players, seed_blocks, start_gameplay, begin_turn, respawn, end_gameplay, summarise_turn,
}
use bomberrobots.Server.Handlers.{
  ClientMessage, join, place_bomb, place_block, move, active_robot, accept_player, handle_join,
  drop_bomb, handle_place_bomb, drop_block, handle_place_block, new_position, move_robot,
  handle_move, check_position_to_move, execute,
}
use bomberrobots.Server.Invariant.Bombs.{IsTimed, due, Exploded, begin_turn-Exploded}
use bomberrobots.Server.Invariant.Log.{happened}
use bomberrobots.Server.Invariant.Replay.{
  follow_bomb, places, follow-Explosions, fold-erase-due, survivors-IsDistinct, survivors-IsTimed,
}
use bomberrobots.Server.Invariant.{IsKey}
use bomberrobots.Client.Session.Alive.{AmongEvent}
use bomberrobots.Server.Invariant.Replay.Names.{Named, begin_turn-Named}
use bomberrobots.Server.Invariant.Replay.Followed.{
  told_places, IsBounded, Followed, Quiet, Told, ToldBetween, add_event_at-Quiet,
}
use bomberrobots.Server.Invariant.Replay.Steps.{
  seed_players-Followed, seed_blocks-Followed, respawn-Followed, drop_bomb-Followed,
  drop_block-Followed, move_robot-Followed,
}

start_gameplay-Told : (e : Engine) → Quiet e → Ensures Told (start_gameplay e)
unfolding start_gameplay send_to_all
start_gameplay-Told e (waiting, zeroth, empty, no_bombs, bounds, no_robots, none_doomed) =
    let opened : e.turns ++ (record { turn = 0; events = [] }) ∷ []
        ≡ (record { turn = 0; events = [] }) ∷ [] =
      ap (λ t. t ++ (record { turn = 0; events = [] }) ∷ []) empty in
    Ensures->>= (Followed 0 e.players []) Told (seed_players e.players _) _
      (seed_players-Followed 0 e.players e.players _ (Maps.All-keys e.players) (
        refl,
        zeroth,
        ap length opened,
        omega arith,
        bounds,
        subst IsDistinct (sym no_bombs) tt,
        subst (All IsTimed) (sym no_bombs) tt,
        ap told_places opened ∙ sym (ap places no_bombs),
        (
          refl,
          bounds.2,
          subst (All (λ r. IsKey e.players r.0)) (sym no_robots) tt,
          subst (All (λ id. IsKey e.players id)) (sym none_doomed) tt,
          subst (All (AmongEvent e.players)) (sym (ap happened opened)) tt,
        ),
        tt,
      ))
      (λ seeded w.
        Ensures-mono (Followed 0 e.players []) Told
          (seed_blocks seeded.game_params.initial_blocks seeded)
          (seed_blocks-Followed seeded.game_params.initial_blocks e.players seeded w)
          (λ e' w'. inr (0, e.players, w')))

accept_player-Told :
    (name : Bytes) (i : ℕ) (e : Engine) → Quiet e → Ensures Told (accept_player name i e)
unfolding accept_player send_to_all
accept_player-Told name i e w = Ensures-after Told (get_address i e.tcp_handler) _ (λ address.
    let player : Player = record { name = name; address = address } in
    let joined : Engine = record e {
      tcp_handler = (send_to_all (accepted_player_msg e.next_player_id player) e).tcp_handler;
      next_player_id = (e.next_player_id + 1) % 2 ^ 8;
      player_ids = Maps.insert_or_assign i e.next_player_id e.player_ids;
      players = Maps.insert e.next_player_id player e.players;
      scores = Maps.insert e.next_player_id 0 e.scores;
    } in
    Ensures-if Told (length joined.players == e.game_params.players_count) (start_gameplay joined)
      (ok joined) (λ _. start_gameplay-Told joined w) (λ _. inl w))

module _ (e : Engine) (w : Quiet e) where
  no_event :
      (k : ℕ) (event : Event) (e' : Engine)
      → e'.turns ≡ e.turns
      → Ensures Told (add_event_at k event e')
  no_event k event e' same = add_event_at-Quiet k event e' (same ∙ w.2)

  drop_bomb-Quiet : (p_id : ℕ) → Ensures Told (drop_bomb p_id e)
  unfolding drop_bomb
  drop_bomb-Quiet p_id =
      Ensures-after Told (or_fail (Maps.find p_id e.players_positions) out_of_range) _
        (λ position. no_event e.current_turn _ _ refl)

  drop_block-Quiet : (p_id : ℕ) → Ensures Told (drop_block p_id e)
  unfolding drop_block
  drop_block-Quiet p_id =
      Ensures-after Told (or_fail (Maps.find p_id e.players_positions) out_of_range) _
        (λ position. no_event e.current_turn _ _ refl)

  move_robot-Quiet : (direction p_id : ℕ) → Ensures Told (move_robot direction p_id e)
  unfolding move_robot
  move_robot-Quiet direction p_id =
      Ensures-after Told (or_fail (Maps.find p_id e.players_positions) out_of_range) _ (λ position.
        Ensures-after Told (or_fail (new_position direction position) uninitialised) _ (λ target.
          Ensures-if Told (check_position_to_move target e) _ _
            (λ free. no_event e.current_turn _ _ refl) (λ taken. inl w)))

-- What an active robot does, in a game and before it.
when_active :
    (o : Option ℕ) (act : ℕ → Result Engine) (e : Engine)
    → Told e
    → ((p_id : ℕ) → Ensures Told (act p_id))
    → Ensures Told (elim o [ none ↦ ok e | some p_id ↦ act p_id ])
when_active none act e w f = w
when_active (some p_id) act e w f = f p_id

pub execute-Told :
    (msg : ClientMessage) (i : ℕ) (e : Engine) → Told e → Ensures Told (execute msg i e)
unfolding execute handle_join handle_place_bomb handle_place_block handle_move
execute-Told (join name) i e (inl w) =
    Ensures-if Told e.gameplay_started (ok e) _ (λ _. inl w) (λ _. accept_player-Told name i e w)
execute-Told (join name) i e (inr w) =
    Ensures-if Told e.gameplay_started (ok e) _ (λ _. inr w)
      (λ waiting. absurd (false≢true (sym waiting ∙ w.2.0)))
execute-Told place_bomb i e (inl w) =
    when_active (active_robot i e) (λ p_id. drop_bomb p_id e) e (inl w) (drop_bomb-Quiet e w)
execute-Told place_bomb i e (inr (k, ps, w)) =
    when_active (active_robot i e) (λ p_id. drop_bomb p_id e) e (inr (k, ps, w))
      (λ p_id.
        Ensures-mono (Followed k ps []) Told (drop_bomb p_id e) (drop_bomb-Followed k ps p_id e w)
          (λ e' w'. inr (k, ps, w')))
execute-Told place_block i e (inl w) =
    when_active (active_robot i e) (λ p_id. drop_block p_id e) e (inl w) (drop_block-Quiet e w)
execute-Told place_block i e (inr (k, ps, w)) =
    when_active (active_robot i e) (λ p_id. drop_block p_id e) e (inr (k, ps, w))
      (λ p_id.
        Ensures-mono (Followed k ps []) Told (drop_block p_id e) (drop_block-Followed k ps p_id e w)
          (λ e' w'. inr (k, ps, w')))
execute-Told (move direction) i e (inl w) =
    when_active (active_robot i e) (λ p_id. move_robot direction p_id e) e (inl w)
      (move_robot-Quiet e w direction)
execute-Told (move direction) i e (inr (k, ps, w)) =
    when_active (active_robot i e) (λ p_id. move_robot direction p_id e) e (inr (k, ps, w))
      (λ p_id.
        Ensures-mono (Followed k ps []) Told (move_robot direction p_id e)
          (move_robot-Followed k ps direction p_id e w) (λ e' w'. inr (k, ps, w')))

pub begin_turn-Told :
    (e : Engine) → ToldBetween e → e.gameplay_started ≡ true → Ensures Told (begin_turn e)
begin_turn-Told e (inl w) started = absurd (false≢true (sym w.0 ∙ started))
begin_turn-Told e
      (inr (k, ps, lt, (started, turn, len, le, bounds, distinct, timed, told, named, rest)))
      begun =
    let now : length e.turns ≡ suc e.current_turn = len ∙ ap suc (sym turn) in
    let small : suc e.current_turn < 2 ^ 16 = omega (arith, bounds.1) in
    Ensures-both (Exploded e) (Named ps) Told (begin_turn e) (begin_turn-Exploded e now small timed)
      (begin_turn-Named ps e now small named)
      (λ e' (left, (news, ex, log), turn', len', started', params') named'. inr (
        suc k,
        ps,
        (
          started' ∙ started,
          turn' ∙ ap suc turn,
          len' ∙ ap suc len,
          subst (λ params. suc k ≤ params.game_length) (sym params') (omega arith),
          subst IsBounded (sym params') bounds,
          subst IsDistinct (sym left) (survivors-IsDistinct e.bombs distinct),
          subst (All IsTimed) (sym left) (survivors-IsTimed e.bombs timed),
          ap (λ es. fold follow_bomb es []) log
              ∙ fold_append follow_bomb (happened e.turns) news []
              ∙ follow-Explosions news (due e.bombs) (told_places e.turns) ex
              ∙ ap (fold Maps.erase (due e.bombs)) told
              ∙ fold-erase-due e.bombs distinct
              ∙ sym (ap places left),
          named',
          tt,
        ),
      ))

pub summarise_turn-ToldBetween :
    (e : Engine) → Told e → e.gameplay_started ≡ true → Ensures ToldBetween (summarise_turn e)
unfolding summarise_turn end_gameplay send_to_all
summarise_turn-ToldBetween e (inl w) started = absurd (false≢true (sym w.0 ∙ started))
summarise_turn-ToldBetween e (inr (k, ps, w)) started =
    Ensures->>= (Followed k ps []) ToldBetween (respawn e.current_players_to_destroy e) _
      (respawn-Followed k ps e.current_players_to_destroy e w.8.3 w)
      (λ e'
          (
            begun,
            turn,
            len,
            le,
            bounds,
            distinct,
            timed,
            told,
            (players, radius, robots, doomed, log),
            rest,
          ).
        Ensures-after ToldBetween (or_fail (get_elem? e'.turns e'.current_turn) out_of_range) _
          (λ info. elim (Bool-cases (e'.current_turn == e'.game_params.game_length)) [
            | inl over ↦ rw over (inl (refl, refl, refl, refl, bounds, refl, refl))
            | inr more ↦ rw more (
                inr (
                  k,
                  ps,
                  ground (arith, turn, le),
                  (
                    begun,
                    turn,
                    len,
                    le,
                    bounds,
                    distinct,
                    timed,
                    told,
                    (players, radius, robots, tt, log),
                    rest,
                  ),
                ))
          ]))

pub Told-waiting : (e : Engine) → Told e → e.gameplay_started ≡ false → ToldBetween e
Told-waiting e (inl w) waiting = inl w
Told-waiting e (inr w) waiting = absurd (false≢true (sym waiting ∙ w.2.0))

pub ToldBetween-Told : (e : Engine) → ToldBetween e → Told e
ToldBetween-Told e (inl w) = inl w
ToldBetween-Told e (inr (k, ps, lt, w)) = inr (k, ps, w)
