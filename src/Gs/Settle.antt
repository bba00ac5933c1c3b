-- ===== src/Gs/Settle.antt =====
-- SettleRound, processBatch and GetCurrentRound of
-- internal/modules/color_game/gs/usecase/gs_uc.go.
use game_production.Common.{
  ℕ, zero, suc, ◌+◌, ◌∷◌, [], ◌++◌, List, String, Bool, true, false, Option, none, some, ok, err,
  Exec, concat, ◌>>=◌, ◌>>◌, pure, or_wrap, is_positive, leb, length, if◌then◌else◌,
}
use game_production.Clock.{Time}
use game_production.Proto.{Reward, unspecified, reward_name, state_name}
use game_production.Float.{Float64}
use game_production.Bets.{Bet, BetPtr, BetOrder, settled}
use game_production.Gs.Services.{Services, Gateway, SettlementBrc}
use game_production.Gs.Defs.{Progress, StateView, calculate_win, batch_size, ignore, do_state}

module _ {F S : Type 0} (float : Float64 F) (svc : Services F S) where
  -- `shouldNotify` after the wallet's part of one bet: a failed deposit is logged and goes unannounced.
  pay : String → BetPtr → ℕ → Exec S Bool
  pay round bet win s =
      let (r, s') = svc.wallet_add_balance (svc.read bet s).user_id win (concat "win:" round) s in
      if is_positive win then (ok (elim r [ ok _ ↦ true | err _ ↦ false ]), s') else (ok true, s)

  personal_notice : String → Reward → Bet → ℕ → SettlementBrc
  personal_notice round winning bet win = record {
    round_id = round;
    winning_color = winning;
    bet_id = bet.bet_id;
    bet_color = bet.color;
    bet_amount = bet.amount;
    win_amount = win;
    is_winner = is_positive win;
  }

  notify : Option (Gateway S) → ℕ → SettlementBrc → S → S
  notify none user brc s = s
  notify (some g) user brc s = g.send_to_user user brc s

  -- One turn of the loop of processBatch.
  unfoldable pub settle_bet : String → Reward → BetOrder F → BetPtr → Exec S (Unit {0})
  unfolding pay personal_notice notify
  settle_bet round winning order bet = do
    let win = float.to_int64 order.payout
    told ← pay round bet win
    do_state λ s.
        let b = svc.read bet s in
        if told then notify svc.gateway b.user_id (personal_notice round winning b win) s else s

  unfoldable pub settle_bets : String → Reward → List (BetOrder F) → List BetPtr → Exec S (Unit {0})
  settle_bets round winning (order ∷ orders) (bet ∷ bets) = do
    settle_bet round winning order bet
    settle_bets round winning orders bets
  settle_bets round winning _ _ = pure tt

  -- The number of the batch is left out of the error's text.
  store_batch :
      Option (List (BetOrder F) → Exec S (Unit {0})) → List (BetOrder F) → Exec S (Unit {0})
  store_batch none orders = pure tt
  store_batch (some create) [] = pure tt
  store_batch (some create) (o ∷ orders) =
      or_wrap "failed to persist bet orders batch" (create (o ∷ orders))

  unfoldable pub process_batch :
      String → Reward → List (BetOrder F) → List BetPtr → Exec S (Unit {0})
  unfolding settle_bet settle_bets store_batch
  process_batch round winning orders bets = do
    store_batch svc.batch_create orders
    settle_bets round winning orders bets

  unfoldable pub make_order : String → Reward → Time → Bet → BetOrder F
  make_order round winning now bet = record {
    order_id = bet.bet_id;
    user_id = bet.user_id;
    round_id = round;
    game_code = "color_game";
    bet_area = reward_name bet.color;
    amount = float.of_int64 bet.amount;
    payout = float.of_int64 (calculate_win bet winning);
    status = settled;
    created_at = bet.time;
    settled_at = some now;
  }

  -- processBatch of what has been collected, and the batch begun anew.
  unfoldable pub flush : String → Reward → Progress F → Exec S (Progress F)
  flush round winning p = do
    process_batch round winning p.current_batch p.current_bets
    pure (record p {
      current_batch = [];
      current_bets = [];
      total_processed = p.total_processed + length p.current_batch;
      batch_number = p.batch_number + 1;
    })

  collect : String → Reward → Time → BetPtr → Progress F → S → Progress F
  unfolding make_order
  collect round winning now bet p s =
      let order = make_order round winning now (svc.read bet s) in
      record p {
        current_batch = p.current_batch ++ order ∷ [];
        current_bets = p.current_bets ++ bet ∷ [];
        all_bet_orders = p.all_bet_orders ++ order ∷ [];
      }

  flush_if : Bool → String → Reward → Progress F → Exec S (Progress F)
  flush_if b round winning p s = if b then flush round winning p s else (ok p, s)

  -- len(currentBatch) > 0
  has_orders : List (BetOrder F) → Bool
  has_orders [] = false
  has_orders (_ ∷ _) = true

  -- One turn of the loop over the bets: the bet is collected, and a full batch is processed.
  unfoldable pub take_bet : String → Reward → Time → BetPtr → Progress F → Exec S (Progress F)
  unfolding collect flush_if
  take_bet round winning now bet p s =
      let c = collect round winning now bet p s in
      flush_if (leb batch_size (length c.current_batch)) round winning c s

  -- The loop over the bets that one call returned, and what is left over at its end. The next call's
  -- `currentBatch` begins empty: `flush_if` leaves it so.
  unfoldable pub batch_loop :
      String → Reward → Time → List BetPtr → Progress F → Exec S (Progress F)
  unfolding flush_if has_orders
  batch_loop round winning now [] p = flush_if (has_orders p.current_batch) round winning p
  batch_loop round winning now (bet ∷ bets) p = do
    q ← take_bet round winning now bet p
    batch_loop round winning now bets q

  -- The loop of SettleRound, with fuel for its turns; `none` means that the fuel ran out.
  unfoldable pub settle_loop : ℕ → String → Reward → Progress F → Exec S (Option (Progress F))
  unfolding batch_loop
  settle_loop zero round winning p = pure none
  settle_loop (suc fuel) round winning p = do
    bets ← or_wrap "failed to get bets for settlement" (svc.get_bets_for_settlement round)
    elim bets [
      | [] ↦ pure (some p)
      | bet ∷ rest ↦ (do
        q ← (λ s. batch_loop round winning (svc.now s) (bet ∷ rest) p s)
        settle_loop fuel round winning q)
    ]

  unfoldable pub round_notice : String → Reward → SettlementBrc
  round_notice round winning = record {
    round_id = round;
    winning_color = winning;
    bet_id = "";
    bet_color = unspecified;
    bet_amount = 0;
    win_amount = 0;
    is_winner = false;
  }

  announce : Option (Gateway S) → SettlementBrc → S → S
  announce none brc s = s
  announce (some g) brc s = g.broadcast brc s

  unfoldable pub finish_round : String → Reward → Option (Progress F) → Exec S (Option (Progress F))
  unfolding round_notice announce
  finish_round round winning none = pure none
  finish_round round winning (some p) = do
    ignore (svc.clear_bets round)
    do_state (announce svc.gateway (round_notice round winning))
    pure (some p)

  -- The answer holds the counters that the source logs.
  unfoldable pub settle_round : ℕ → String → Reward → Exec S (Option (Progress F))
  unfolding settle_loop finish_round
  settle_round fuel round winning = do
    p ← settle_loop fuel round winning (record {
      current_batch = [];
      current_bets = [];
      all_bet_orders = [];
      total_processed = 0;
      batch_number = 0;
    })
    finish_round round winning p

  bet_views : List BetPtr → S → List (String × ℕ)
  bet_views [] s = []
  bet_views (p ∷ ps) s = let b = svc.read p s in (reward_name b.color, b.amount) ∷ bet_views ps s

  -- Bets that cannot be read are shown as none.
  player_bets : Exec S (List BetPtr) → S → List BetPtr × S
  player_bets m s = let (r, s') = m s in elim r [ ok l ↦ (l, s') | err e ↦ ([], s') ]

  unfoldable pub get_current_round : ℕ → Exec S StateView
  unfolding bet_views player_bets
  get_current_round user = do
    round ← svc.get_current_round user
    (λ s.
        let (ps, s') = player_bets (svc.get_user_bets round.round_id user) s in
        (
          ok (record {
            round_id = round.round_id;
            state = state_name round.state;
            betting_end_timestamp = round.betting_end_timestamp;
            player_bets = bet_views ps s';
          }),
          s',
        ))
