-- ===== src/Machine/Phases.antt =====
-- Where the game loop sleeps, what the round says, and what was announced last agree, whatever the
-- other goroutines do; so the announcements follow the cycle of the game.
use game_production.Common.{
  ℕ, String, ◌≡◌, refl, ◌⊎◌, ◌↔◌, ◌<◌, Bool, true, false, Option, none, some, List, [], ◌∷◌, arith,
}
use game_production.Clock.{Time, unix}
use game_production.Proto.{GameState, round_started, betting, drawing, result, round_ended, stopped}
use game_production.Round.{Round, can_accept_bet, new_round, start_betting, draw, show_result}
use game_production.Machine.Defs.{
  reward, GameEvent, Pc, at_top, in_wait, in_betting, in_drawing, in_result, in_rest, finished,
  new_state_machine, register_event_handler, emit_event, stop, segment, can_accept,
}
use game_production.Machine.System.{
  System, Action, wakes, cancels, stops, registers, takes, start, act, run,
}

-- The announcement that comes next within a round.
abbrev pub next_kind : GameState → Option GameState
next_kind round_started = some betting
next_kind betting = some drawing
next_kind drawing = some result
next_kind result = some round_ended
next_kind _ = none

-- `e` may be announced after `d`: within the round, with the colour that was drawn and the betting end
-- that was announced, or after the round's end.
pub record Follows (d e : GameEvent) : Type 0 where
  pub order :
      ((next_kind d.kind ≡ some e.kind) × (e.round_id ≡ d.round_id))
      ⊎ ((d.kind ≡ round_ended) × ((e.kind ≡ round_started) ⊎ (e.kind ≡ stopped)))
  pub same_color : e.kind ≡ result → e.payload ≡ d.payload
  pub same_end : d.kind ≡ betting → e.betting_end_timestamp ≡ d.betting_end_timestamp
  pub same_end_drawing : d.kind ≡ drawing → e.betting_end_timestamp ≡ d.betting_end_timestamp
  pub same_end_result : d.kind ≡ result → e.betting_end_timestamp ≡ d.betting_end_timestamp

-- A log, newest first, that follows the cycle from its beginning.
abbrev pub InCycle : List GameEvent → Type 0
InCycle [] = Unit
InCycle (e ∷ []) = (e.kind ≡ round_started) ⊎ (e.kind ≡ stopped)
InCycle (e ∷ d ∷ l) = Follows d e × InCycle (d ∷ l)

-- The last announcement was of kind `k`, for round `r`, with the betting end of the round if it had one.
abbrev pub Announced : GameState → Round → List GameEvent → Type 0
Announced k r [] = ⊥
Announced k r (e ∷ _) = (e.kind ≡ k) × (e.round_id ≡ r.round_id)

abbrev pub AnnouncedEnd : Round → List GameEvent → Type 0
AnnouncedEnd r [] = ⊥
AnnouncedEnd r (e ∷ _) = e.betting_end_timestamp ≡ unix r.betting_end

abbrev pub AnnouncedColor : Round → List GameEvent → Type 0
AnnouncedColor r [] = ⊥
AnnouncedColor r (e ∷ _) = e.payload ≡ reward r.outcome

-- Between two rounds.
abbrev pub BetweenRounds : List GameEvent → Type 0
BetweenRounds [] = Unit
BetweenRounds (e ∷ _) = e.kind ≡ round_ended

abbrev pub RoundOver : Option Round → Type 0
RoundOver none = Unit
RoundOver (some r) = r.state ≡ result

-- The last announcement is that the machine stopped, and no round is open before it.
abbrev pub EndsStopped : List GameEvent → Type 0
EndsStopped [] = ⊥
EndsStopped (e ∷ l) = (e.kind ≡ stopped) × BetweenRounds l

abbrev pub PhaseOk : Pc → Bool → Option Round → Time → List GameEvent → Type 0
PhaseOk at_top c r t l = (c ≡ true) ⊎ (RoundOver r × BetweenRounds l)
PhaseOk finished c r t l = (c ≡ true) ⊎ (RoundOver r × EndsStopped l)
PhaseOk in_wait c (some r) t l = (r.state ≡ round_started) × Announced round_started r l
PhaseOk in_betting c (some r) t l =
    (r.state ≡ betting) × (t ≡ r.betting_end) × Announced betting r l × AnnouncedEnd r l
PhaseOk in_drawing c (some r) t l =
    (r.state ≡ drawing) × Announced drawing r l × AnnouncedEnd r l × AnnouncedColor r l
PhaseOk in_result c (some r) t l = (r.state ≡ result) × Announced result r l × AnnouncedEnd r l
PhaseOk in_rest c (some r) t l = (r.state ≡ result) × Announced round_ended r l
PhaseOk _ c none t l = ⊥

pub record IsValid (s : System) : Type 0 where
  pub cycle : InCycle s.log
  pub phase :
      PhaseOk s.machine.pc s.cancelled s.machine.current_round s.machine.phase_end_time s.log

start-IsValid : IsValid start
unfolding start new_state_machine
start-IsValid = ground arith

module _ (format : Time → String) where
  wakes-IsValid :
      (p : Pc) (now later : Time) (pick : ℕ) (s : System)
      → s.machine.pc ≡ p
      → IsValid s
      → IsValid (act format (wakes now later pick) s)
  unfolding act segment emit_event new_round start_betting draw show_result
  wakes-IsValid at_top now later pick s e v = ground arith
  wakes-IsValid in_wait now later pick s e v = ground arith
  wakes-IsValid in_betting now later pick s e v = ground arith
  wakes-IsValid in_drawing now later pick s e v = ground arith
  wakes-IsValid in_result now later pick s e v = ground arith
  wakes-IsValid in_rest now later pick s e v = ground arith
  wakes-IsValid finished now later pick s e v = ground arith

  act-IsValid : (a : Action) (s : System) → IsValid s → IsValid (act format a s)
  unfolding act stop register_event_handler
  act-IsValid (wakes now later pick) s v = wakes-IsValid s.machine.pc now later pick s refl v
  act-IsValid cancels s v = ground arith
  act-IsValid stops s v = ground arith
  act-IsValid (registers h) s v = ground arith
  act-IsValid takes s v = ground arith

  run-IsValid : (s : System) (acts : List Action) → IsValid s → IsValid (run format s acts)
  unfolding run
  run-IsValid s [] v = v
  run-IsValid s (a ∷ acts) v = run-IsValid (act format a s) acts (act-IsValid a s v)

  pub reached-IsValid : (acts : List Action) → IsValid (run format start acts)
  reached-IsValid acts = run-IsValid start acts start-IsValid

  -- Whatever the order of wake-ups, cancellations, stops, registrations and takes, the announcements
  -- of a new state machine follow the cycle ROUND_STARTED, BETTING, DRAWING, RESULT, ROUND_ENDED with
  -- one round ID each time; RESULT has the payload of the DRAWING before it, every announcement after
  -- BETTING in a round repeats its betting end, and STOPPED comes first of all or after a ROUND_ENDED.
  pub announcements-InCycle : (acts : List Action) → InCycle (run format start acts).log
  announcements-InCycle acts = (reached-IsValid acts).cycle

  -- As long as the context is not cancelled, a bet is accepted at a time exactly if the game loop
  -- sleeps in the betting phase and the time is before the phase's end.
  pub accepts_iff_betting :
      (acts : List Action) (now : Time)
      → (run format start acts).cancelled ≡ false
      → (can_accept now (run format start acts).machine ≡ true) ↔ (
          ((run format start acts).machine.pc ≡ in_betting)
          × (now < (run format start acts).machine.phase_end_time))
  unfolding can_accept can_accept_bet
  accepts_iff_betting acts now c =
      let v = reached-IsValid acts in (ground (arith, v), ground (arith, v))

  -- A machine that has ended with no cancelled context has completed its last round: no round is
  -- accepting bets, its last announcement is STOPPED, and before it stands ROUND_ENDED or nothing.
  pub finished_whole_rounds :
      (acts : List Action)
      → (run format start acts).machine.pc ≡ finished
      → (run format start acts).cancelled ≡ false
      → RoundOver (run format start acts).machine.current_round
        × EndsStopped (run format start acts).log
  finished_whole_rounds acts f c = let v = reached-IsValid acts in ground (arith, v)
