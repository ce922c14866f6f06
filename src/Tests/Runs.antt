-- ===== src/Tests/Runs.antt =====
-- Runs of a server for one player.
use bomberrobots.Base.{
  ℕ, ◌≤◌, ◌≡◌, refl, sym, ◌∙◌, subst, [], ◌∷◌, none, some, true, false, false≢true, Bool, arith,
  take, length, Returns,
}
use bomberrobots.Containers.Maps
use bomberrobots.Server.Connections.{new_handler}
use bomberrobots.Server.Connections.Buffer
use bomberrobots.Server.Engine.{ServerParameters, Engine, new_engine}
use bomberrobots.Server.Handlers.{join, place_bomb, read_batch, last, ClientMessage}
use bomberrobots.Server.Handlers.Batches.{requests, read_batch-take}
use bomberrobots.Server.Rounds.{Round, poll_timeout, poll_events, round, manage_connections}
use bomberrobots.Server.Invariant.{IsPlayable}
use bomberrobots.Server.Invariant.Serving.{IsTimely, IsCivil}
use bomberrobots.Server.Invariant.Rounds.{IsCivilRun}
use bomberrobots.Encoding.{string_to_bytes}
use bomberrobots.Tests.Samples.{small}

abbrev pub solo : ServerParameters
solo = record small { players_count = 1; game_length = 2 }

pub solo-IsPlayable : IsPlayable solo
solo-IsPlayable = omega arith

abbrev pub quiet : Round
quiet = record {
  poll = poll_timeout;
  interrupted = false;
  accepted = none;
  address = [];
  received = λ i. none;
}

abbrev pub connects : Round
connects = record quiet {
  poll = poll_events ((true, false) ∷ []);
  accepted = some 4;
  address = b'a' ∷ [];
}

abbrev ann : ClientMessage
ann = join (b'a' ∷ b'n' ∷ b'n' ∷ [])

abbrev pub joins : Round
joins = record quiet {
  poll = poll_events ((false, false) ∷ (true, false) ∷ []);
  received = λ i. some (requests (ann ∷ []));
}

pub quiet-IsCivil : (began : Bool) (r : Round) → ((i : ℕ) → r.received i ≡ none) → IsCivil began r
quiet-IsCivil began r silent i buf msg h = absurd (let s = silent i in cc)

length-joins : length (requests (ann ∷ [])) ≤ 256
unfolding requests string_to_bytes
length-joins = omega arith

pub joins-IsCivil : (began : Bool) → IsCivil began joins
joins-IsCivil began i buf msg h k = subst (IsTimely began) same (tt, λ _. tt)
  where
    here : read_batch (length (take buf 256)) (take buf 256) ≡ last ann
    here =
        subst (λ b. read_batch (length (take b 256)) (take b 256) ≡ last ann) (cc)
          (read_batch-take ann [] (omega arith, tt) length-joins)

    same : ann ≡ msg
    same = cc here

-- A client connects, joins, and two turns pass: the clients are civil in any case.
pub visit-IsCivilRun : (e : Engine) → IsCivilRun (connects ∷ joins ∷ quiet ∷ quiet ∷ []) e
visit-IsCivilRun e = (
  λ h. cc,
  quiet-IsCivil e.gameplay_started connects (λ i. refl),
  λ e1 r1. (
    λ h. cc,
    joins-IsCivil e1.gameplay_started,
    λ e2 r2. (
      λ h. cc,
      quiet-IsCivil e2.gameplay_started quiet (λ i. refl),
      λ e3 r3. (λ h. cc, quiet-IsCivil e3.gameplay_started quiet (λ i. refl), λ e4 r4. tt),
    ),
  ),
)

-- A game of five turns for one player.
abbrev pub busy : ServerParameters
busy = record small { players_count = 1 }

-- The player drops a bomb.
abbrev pub plants : Round
plants = record quiet {
  poll = poll_events ((false, false) ∷ (true, false) ∷ []);
  received = λ i. some (requests (place_bomb ∷ []));
}

length-plants : length (requests (place_bomb ∷ [])) ≤ 256
unfolding requests
length-plants = omega arith

plants-IsCivil : (began : Bool) → began ≡ true → IsCivil began plants
plants-IsCivil began started i buf msg h k =
    subst (IsTimely began) same (tt, λ waiting. absurd (false≢true (sym waiting ∙ started)))
  where
    here : read_batch (length (take buf 256)) (take buf 256) ≡ last place_bomb
    here =
        subst (λ b. read_batch (length (take b 256)) (take b 256) ≡ last place_bomb) (cc)
          (read_batch-take place_bomb [] (tt, tt) length-plants)

    same : place_bomb ≡ msg
    same = cc here

-- The second round starts the game.
second_starts :
    Returns
      (λ e1. Returns (λ e2. e2.gameplay_started ≡ true) (round joins e1))
      (round connects (new_engine busy (new_handler 3)))
unfolding Maps.insert Maps.insert_or_assign new_handler Buffer.read_string new_engine requests
    manage_connections
second_starts = refl

pub planting-IsCivilRun :
    IsCivilRun (connects ∷ joins ∷ plants ∷ quiet ∷ []) (new_engine busy (new_handler 3))
unfolding new_engine
planting-IsCivilRun = (
  λ h. cc,
  quiet-IsCivil false connects (λ i. refl),
  λ e1 r1. (
    λ h. cc,
    joins-IsCivil e1.gameplay_started,
    λ e2 r2. (
      λ h. cc,
      plants-IsCivil e2.gameplay_started (
          subst (Returns (λ e. e.gameplay_started ≡ true)) r2 (
            subst (Returns (λ e. Returns (λ e'. e'.gameplay_started ≡ true) (round joins e))) r1
              second_starts)),
      λ e3 r3. (λ h. cc, quiet-IsCivil e3.gameplay_started quiet (λ i. refl), λ e4 r4. tt),
    ),
  ),
)
