-- ===== src/Server/Invariant/Scores.antt =====
-- game-engine.cpp: how the server counts points.
use bomberrobots.Base.{
  ℕ, suc, ◌+◌, ◌%◌, ◌^◌, ◌<◌, ◌≢◌, ◌≡◌, refl, ap, ◌∙◌, false, inl, inr, List, [], ◌∷◌, some, arith,
  ◌==◌, ==_iff, if◌then◌else◌, Bool-cases, Option-cases, get_elem?, or_fail, out_of_range, ◌>>=◌,
  Returns, Returns-Ensures, Ensures, Ensures->>=, Ensures-after, subst,
}
use bomberrobots.Containers.Maps
use bomberrobots.Containers.Occurrences.{occurrences}
use bomberrobots.Events.{player_moved}
use bomberrobots.Server.Engine.{Engine, add_event_at, send_to_all}
use bomberrobots.Server.Turns.{draw, draw_position, seed_player, respawn, summarise_turn}
use bomberrobots.Server.Invariant.{Playing, Between}
use bomberrobots.Server.Invariant.Turns.{summarise_turn-Between}

-- In a game `e'` has the score, and the turn and the parameters of `e`.
abbrev Scored : ℕ → ℕ → Engine → Engine → Type 0
Scored id n e e' =
    (Maps.find id e'.scores ≡ some (n % 2 ^ 32))
    × (e'.current_turn ≡ e.current_turn)
    × (e'.game_params ≡ e.game_params)

module _ (id : ℕ) (e : Engine) where
  seed_player-Scored :
      (j n : ℕ) (e1 : Engine) → Scored id n e e1 → Ensures (Scored id n e) (seed_player j e1)
  unfolding seed_player draw_position add_event_at
  seed_player-Scored j n e1 h =
      Ensures->>= (λ r. Scored id n e r.1) (Scored id n e) (draw_position e1) _
        (Ensures-after (λ r. Scored id n e r.1) (draw e1.game_params.size_x e1.random) _
          (λ x. Ensures-after (λ r. Scored id n e r.1) (draw e1.game_params.size_y x.1) _ (λ y. h)))
        (λ r h1.
          Ensures->>= (Scored id n e) (Scored id n e)
            (add_event_at r.1.current_turn (player_moved j r.0) r.1) _
            (Ensures-after (Scored id n e)
              (or_fail (get_elem? r.1.turns r.1.current_turn) out_of_range) _ (λ info. h1))
            (λ e2 h2. h2))

  respawn-Scored :
      (n : ℕ) (ids : List ℕ) (e1 : Engine)
      → Scored id n e e1
      → Ensures (Scored id (occurrences id ids + n) e) (respawn ids e1)
  unfolding respawn
  respawn-Scored n [] e1 h = subst (λ k. Scored id k e e1) (omega arith) h
  respawn-Scored n (j ∷ ids) e1 (at_id, turn, params) =
      let m = if j == id then suc n else n in
      elim (Option-cases (Maps.find j e1.scores)) [
        | inl unknown ↦ rw (unknown, or_fail, ◌>>=◌) tt
        | inr (score, found) ↦
            (let scored : Engine = record e1 {
              scores = Maps.insert_or_assign j ((score + 1) % 2 ^ 32) e1.scores;
            } in
              let now : Maps.find id scored.scores ≡ some (m % 2 ^ 32) =
                Maps.find-insert_or_assign id j ((score + 1) % 2 ^ 32) e1.scores
                ∙ counted j n score e1 at_id found in
              rw (found, or_fail, ◌>>=◌)
                (Ensures->>= (Scored id m e) (Scored id (occurrences id (j ∷ ids) + n) e)
                  (seed_player j scored) (respawn ids)
                  (seed_player-Scored j m scored (now, turn, params))
                  (λ e2 h2.
                    subst (λ k. Ensures (Scored id k e) (respawn ids e2)) (ground arith)
                      (respawn-Scored m ids e2 h2))))
      ]
    where
      counted :
          (j n score : ℕ) (e1 : Engine)
          → Maps.find id e1.scores ≡ some (n % 2 ^ 32)
          → Maps.find j e1.scores ≡ some score
          → (if j == id then some ((score + 1) % 2 ^ 32) else Maps.find id e1.scores)
            ≡ some ((if j == id then suc n else n) % 2 ^ 32)
      counted j n score e1 at_id found = elim (Bool-cases (j == id)) [
        | inl same ↦
            (let again : Maps.find id e1.scores ≡ some score =
                subst (λ k. Maps.find k e1.scores ≡ some score) ((==_iff j id).0 same) found in
              let value : n % 2 ^ 32 ≡ score = cc in rw same (ap some (omega (arith, value))))
        | inr other ↦ rw other at_id
      ]

-- In a turn of a game that is not the last one the score of a player grows, modulo 2 ^ 32, by the
-- number of times that `current_players_to_destroy` lists the player.
pub summarise_turn_scores :
    (id score : ℕ) (e : Engine)
    → Playing e
    → e.current_turn ≢ e.game_params.game_length
    → Maps.find id e.scores ≡ some score
    → score < 2 ^ 32
    → Returns
        (λ e'.
          Maps.find id e'.scores
          ≡ some ((occurrences id e.current_players_to_destroy + score) % 2 ^ 32))
        (summarise_turn e)
unfolding summarise_turn send_to_all
summarise_turn_scores id score e v more found lt =
    let n = occurrences id e.current_players_to_destroy + score in
    let Grown : Engine → Type 0 = λ e'. Maps.find id e'.scores ≡ some (n % 2 ^ 32) in
    Returns-Ensures Between Grown Grown (summarise_turn e) (summarise_turn-Between e v)
      (Ensures->>= (Scored id n e) Grown (respawn e.current_players_to_destroy e) _
        (respawn-Scored id e score e.current_players_to_destroy e
          (found ∙ ap some (omega arith), refl, refl))
        (λ e1 (now, turn, params).
          Ensures-after Grown (or_fail (get_elem? e1.turns e1.current_turn) out_of_range) _ (λ info.
            let goes_on : (e1.current_turn == e1.game_params.game_length) ≡ false =
              ground (arith, more, turn, ap (λ p. p.game_length) params) in
            rw goes_on now)))
      (λ e' v' h. h)
