-- ===== src/Gs/Defs.antt =====
-- The use case of a game server over any implementation of the services that it calls:
-- internal/modules/color_game/gs/usecase/gs_uc.go. `S` is the state of all that it reaches, `F` is
-- float64. Log lines, and the totals that only they use, are left out.
use game_production.Common.{
  ℕ, List, String, Bool, ◌||◌, Option, none, some, Error, about, ok, err, Exec, ◌>>=◌, ◌>>◌, pure,
  or_wrap, mul64, if◌then◌else◌,
}
use game_production.Proto.{Reward, red, green, blue, yellow, same_reward, reward_name}
use game_production.Float.{Float64}
use game_production.Bets.{Bet, BetPtr, new_bet, BetOrder}
use game_production.Gs.Services.{Services}

unfoldable pub is_valid_color : Reward → Bool
is_valid_color c =
    same_reward c red || same_reward c green || same_reward c blue || same_reward c yellow

unfoldable pub calculate_win : Bet → Reward → ℕ
calculate_win b winning = if same_reward b.color winning then mul64 b.amount 2 else 0

-- const batchSize
abbrev pub batch_size : ℕ
batch_size = 500

abbrev pub check : {S : Type 0} → Bool → Error → Exec S (Unit {0})
check b e s = if b then (ok tt, s) else (err e, s)

-- `_ = f()`: the error is dropped.
abbrev pub ignore : {S A : Type 0} → Exec S A → Exec S (Unit {0})
ignore m s = (ok tt, (m s).1)

abbrev pub do_state : {S : Type 0} → (S → S) → Exec S (Unit {0})
do_state f s = (ok tt, f s)

-- What a run of settlement keeps in local variables.
pub record Progress (F : Type 0) : Type 0 where
  pub current_batch : List (BetOrder F)
  pub current_bets : List BetPtr
  pub all_bet_orders : List (BetOrder F)
  pub total_processed : ℕ
  pub batch_number : ℕ

-- The state that GetCurrentRound answers to a player.
pub record StateView : Type 0 where
  pub round_id : String
  pub state : String
  pub betting_end_timestamp : ℕ
  pub player_bets : List (String × ℕ)

module _ {F S : Type 0} (float : Float64 F) (svc : Services F S) where
  -- &domain.NewBet(...), then SaveBet.
  create_bet : String → ℕ → Reward → ℕ → Exec S BetPtr
  unfolding new_bet
  create_bet round user color amount = do
    id ← svc.generate_bet_id
    bet ← (λ s. svc.alloc (new_bet id round user color amount (svc.now s)) s)
    or_wrap "failed to save bet" (svc.save_bet bet)
    pure bet

  raise_bet : BetPtr → ℕ → Exec S BetPtr
  raise_bet bet amount = do
    or_wrap "failed to update bet amount" (svc.update_bet_amount bet amount)
    pure bet

  create_or_raise : Option BetPtr → String → ℕ → Reward → ℕ → Exec S BetPtr
  unfolding create_bet raise_bet
  create_or_raise none round user color amount = create_bet round user color amount
  create_or_raise (some bet) round user color amount = raise_bet bet amount

  unfoldable pub place_bet : ℕ → Reward → ℕ → Exec S BetPtr
  unfolding create_or_raise is_valid_color
  place_bet user color amount = do
    round ← or_wrap "failed to get current round" (svc.get_current_round 0)
    check (is_valid_color color) (about "invalid color" (reward_name color))
    or_wrap "failed to deduct from wallet" (svc.wallet_place_bet user amount round.round_id)
    or_wrap "failed to record bet in GMS" (
        svc.record_bet
          (record { round_id = round.round_id; user_id = user; color = color; amount = amount }))
    existing ← or_wrap "failed to check existing bet" (svc.get_user_bet round.round_id user color)
    create_or_raise existing round.round_id user color amount
