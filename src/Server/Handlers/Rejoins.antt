-- ===== src/Server/Handlers/Rejoins.antt =====
-- game-engine.cpp: nothing keeps a client from joining a second time.
use bomberrobots.Base.{
  Bool-cases, inl, inr, subst, sym, false≢true, ◌∙◌, ℕ, ◌+◌, ◌≢◌, ◌≡◌, refl, false, some, ok, arith,
  ◌==◌, length, ◌>>=◌, Returns,
}
use bomberrobots.Containers.Maps
use bomberrobots.Messages.{Bytes, Player}
use bomberrobots.Server.Connections.{get_address}
use bomberrobots.Server.Engine.{Engine, send_to_all}
use bomberrobots.Server.Handlers.{join, accept_player, handle_join, execute}
use bomberrobots.Server.Invariant.{IsKey}

-- Before a game, a client that is the one to play a player, and joins again, becomes a second player,
-- unless the server has used up the ids or the game begins with it: the lobby has one player more, the
-- client plays the new one, and the old one stays among the players, with no client to play it.
pub execute_join_again :
    (name address : Bytes) (i old : ℕ) (e : Engine)
    → e.gameplay_started ≡ false
    → get_address i e.tcp_handler ≡ ok address
    → Maps.find i e.player_ids ≡ some old
    → IsKey e.players old
    → ((j : ℕ) → Maps.find j e.player_ids ≡ some old → j ≡ i)
    → Maps.contains e.next_player_id e.players ≡ false
    → length e.players + 1 ≢ e.game_params.players_count
    → Returns
        (λ e'.
          (length e'.players ≡ length e.players + 1)
          × (Maps.find i e'.player_ids ≡ some e.next_player_id)
          × IsKey e'.players old
          × ((j : ℕ) → Maps.find j e'.player_ids ≢ some old)
          × (e'.gameplay_started ≡ false))
        (execute (join name) i e)
unfolding execute handle_join accept_player send_to_all
execute_join_again name address i old e waiting at_i joined known sole new room =
    let player : Player = record { name = name; address = address } in
    let more : length (Maps.insert e.next_player_id player e.players) ≡ length e.players + 1 =
      Maps.length-insert e.next_player_id player e.players new in
    let starts : (length (Maps.insert e.next_player_id player e.players)
          == e.game_params.players_count)
        ≡ false =
      ground (arith, more, room) in
    rw waiting (
      rw (at_i, ◌>>=◌)
        (rw starts (
          more,
          ground (arith, Maps.find-insert_or_assign i i e.next_player_id e.player_ids),
          ground (arith, known, Maps.contains-insert old e.next_player_id player e.players),
          abandoned,
          refl,
        )))
  where
    abandoned :
        (j : ℕ) → Maps.find j (Maps.insert_or_assign i e.next_player_id e.player_ids) ≢ some old
    abandoned j at_j =
        let now = Maps.find-insert_or_assign j i e.next_player_id e.player_ids in
        elim (Bool-cases (i == j)) [
          | inl same ↦
              (let is_old : some e.next_player_id ≡ some old = ground (arith, now, at_j, same) in
                let id : e.next_player_id ≡ old = cc in
                let gone = subst (λ k. Maps.contains k e.players ≡ false) id new in
                false≢true (sym gone ∙ known))
          | inr other ↦
              (let before : Maps.find j e.player_ids ≡ some old =
                  ground (arith, now, at_j, other) in
                let same = sole j before in ground (arith, other, same))
        ]
