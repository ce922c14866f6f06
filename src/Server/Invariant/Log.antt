-- ===== src/Server/Invariant/Log.antt =====
-- What has happened in a game: the events of all its turns, in order.
use bomberrobots.Base.{
  ℕ, zero, suc, ◌≡◌, refl, ap, sym, ◌∙◌, inl, inr, List, [], ◌∷◌, ◌++◌, append-nil, append_assoc,
  some, arith, Option-cases, length, get_elem?, set, length-set, or_fail, ◌>>=◌, Ensures,
}
use bomberrobots.Events.{Event, TurnInfo, add_event}
use bomberrobots.Server.Engine.{Engine, add_event_at}

abbrev pub happened : List TurnInfo → List Event
happened [] = []
happened (info ∷ turns) = info.events ++ happened turns

pub happened-append :
    (turns more : List TurnInfo) → happened (turns ++ more) ≡ happened turns ++ happened more
happened-append [] more = refl
happened-append (info ∷ turns) more =
    ap (λ es. info.events ++ es) (happened-append turns more)
    ∙ sym (append_assoc info.events (happened turns) (happened more))

-- An event is added to the last turn.
pub happened-set :
    (turns : List TurnInfo) (k : ℕ) (info : TurnInfo) (event : Event)
    → get_elem? turns k ≡ some info
    → length turns ≡ suc k
    → happened (set turns k (add_event event info)) ≡ happened turns ++ event ∷ []
happened-set [] k info event h len = absurd (cc)
happened-set (x ∷ []) zero info event h len =
    let same : info ≡ x = cc in
    append-nil (info.events ++ event ∷ [])
    ∙ ap (λ es. es ++ event ∷ []) (ap (λ t. t.events) same ∙ sym (append-nil x.events))
happened-set (x ∷ y ∷ turns) zero info event h len = absurd (omega arith)
happened-set (x ∷ turns) (suc k) info event h len =
    ap (λ es. x.events ++ es) (happened-set turns k info event h (omega arith))
    ∙ sym (append_assoc x.events (happened turns) (event ∷ []))

-- `e'` is further than `e` by the events `news`, in the same turn of the same game, and has the
-- same bombs.
abbrev pub Logged : Engine → Engine → List Event → Type 0
Logged e e' news =
    (e'.current_turn ≡ e.current_turn)
    × (e'.bombs ≡ e.bombs)
    × (length e'.turns ≡ length e.turns)
    × (happened e'.turns ≡ happened e.turns ++ news)
    × (e'.gameplay_started ≡ e.gameplay_started)
    × (e'.game_params ≡ e.game_params)

pub Logged-none : (e : Engine) → Logged e e []
Logged-none e = (refl, refl, refl, sym (append-nil (happened e.turns)), refl, refl)

pub Logged-trans :
    (e e' e'' : Engine) (news more : List Event)
    → Logged e e' news
    → Logged e' e'' more
    → Logged e e'' (news ++ more)
Logged-trans e e' e'' news more (turn, bombs, len, log, started, params)
      (turn', bombs', len', log', started', params') =
    (
      turn' ∙ turn,
      bombs' ∙ bombs,
      len' ∙ len,
      log' ∙ ap (λ es. es ++ more) log ∙ append_assoc (happened e.turns) news more,
      started' ∙ started,
      params' ∙ params,
    )

pub add_event_at-Logged :
    (k : ℕ) (event : Event) (e : Engine)
    → length e.turns ≡ suc k
    → Ensures (λ e'. Logged e e' (event ∷ [])) (add_event_at k event e)
unfolding add_event_at
add_event_at-Logged k event e len = elim (Option-cases (get_elem? e.turns k)) [
  | inl outside ↦ rw (outside, or_fail, ◌>>=◌) tt
  | inr (info, found) ↦
      rw (found, or_fail, ◌>>=◌)
        (
          refl,
          refl,
          length-set e.turns k (add_event event info),
          happened-set e.turns k info event found len,
          refl,
          refl,
        )
]
