-- ===== src/World/Settling.antt =====
-- SettleRound in a whole game server whose database takes the orders: the batches together do what one
-- pass over all the bets would do.
use mathlib.Core.List.{append-nil, append_assoc}
use game_production.Common.{
  ◌≤◌, ◌++◌, ◌∷◌, [], List, map, concat, String, string_key, nat_key, ◌≡◌, ok, >>=-ok, or_wrap,
  or_wrap-ok, arith, if◌then◌else◌, is_positive, All, ◌∙◌,
}
use game_production.Clock.{Time}
use game_production.Proto.{Reward}
use game_production.Float.{Float64, two53}
use game_production.Bets.{Bet, BetPtr, BetOrder, Heap, deref}
use game_production.Wallet.{Wallet, add_balance}
use game_production.Gs.{calculate_win, settle_bet, settle_bets, process_batch, make_order}
use game_production.World.{World, Outside, Deployment, services, Sent, to_user, batch_create}

-- The win that a bet is paid is a whole number that a float64 holds.
abbrev pub Exact : Reward → Bet → Type 0
Exact winning b = calculate_win b winning ≤ two53

-- One payment, made only if there is a win.
unfoldable pub paid : String → Reward → Bet → Wallet → Wallet
paid round winning b s =
    if is_positive (calculate_win b winning)
    then (add_balance b.user_id (calculate_win b winning) (concat "win:" round) s).1
    else s

unfoldable pub notice : String → Reward → Bet → Sent
notice round winning b = to_user b.user_id (record {
  round_id = round;
  winning_color = winning;
  bet_id = b.bet_id;
  bet_color = b.color;
  bet_amount = b.amount;
  win_amount = calculate_win b winning;
  is_winner = is_positive (calculate_win b winning);
})

unfoldable pub all_paid : String → Reward → List Bet → Wallet → Wallet
all_paid round winning [] s = s
all_paid round winning (b ∷ bs) s = all_paid round winning bs (paid round winning b s)

module _ {F : Type 0} (float : Float64 F) (out : Outside F) (d : Deployment) where
  -- One pass: every bet gets its order, its payment and its notice.
  abbrev pub settled_by : String → Reward → Time → List Bet → World F → World F
  settled_by round winning now bs w = record w {
    wallet = all_paid round winning bs w.wallet;
    orders = w.orders ++ map (make_order float (services float out d) round winning now) bs;
    sent = w.sent ++ map (notice round winning) bs;
  }

  settle_bet-paid :
      (round : String) (winning : Reward) (now : Time) (p : BetPtr) (w : World F)
      → Exact winning (deref w.store.heap p)
      → settle_bet float
          (services float out d)
          round
          winning
          (make_order float (services float out d) round winning now (deref w.store.heap p))
          p
          w
        ≡ (
          ok tt,
          record w {
            wallet = paid round winning (deref w.store.heap p) w.wallet;
            sent = w.sent ++ notice round winning (deref w.store.heap p) ∷ [];
          },
        )
  unfolding settle_bet make_order paid notice add_balance
  settle_bet-paid round winning now p w x =
      ground (arith, float.exact (calculate_win (deref w.store.heap p) winning) x)

  abbrev pub bets_at : Heap → List BetPtr → List Bet
  bets_at h ps = map (deref h) ps

  abbrev pub orders_of : String → Reward → Time → List Bet → List (BetOrder F)
  orders_of round winning now = map (make_order float (services float out d) round winning now)

  settle_bets-paid :
      (round : String) (winning : Reward) (now : Time) (ps : List BetPtr) (w : World F)
      → All (Exact winning) (bets_at w.store.heap ps)
      → settle_bets float
          (services float out d)
          round
          winning
          (orders_of round winning now (bets_at w.store.heap ps))
          ps
          w
        ≡ (
          ok tt,
          record w {
            wallet = all_paid round winning (bets_at w.store.heap ps) w.wallet;
            sent = w.sent ++ map (notice round winning) (bets_at w.store.heap ps);
          },
        )
  unfolding settle_bets all_paid
  settle_bets-paid round winning now [] w x = rw append-nil
  settle_bets-paid round winning now (p ∷ ps) w x =
      >>=-ok
        (settle_bet float (services float out d) round winning
          (make_order float (services float out d) round winning now (deref w.store.heap p)) p)
        (λ _.
          settle_bets float (services float out d) round winning
            (orders_of round winning now (bets_at w.store.heap ps)) ps)
        w (settle_bet-paid round winning now p w x.0)
      ∙ ground (
        arith,
        settle_bets-paid round winning now ps
            (record w {
              wallet = paid round winning (deref w.store.heap p) w.wallet;
              sent = w.sent ++ notice round winning (deref w.store.heap p) ∷ [];
            })
            x.1,
        append_assoc w.sent (notice round winning (deref w.store.heap p) ∷ [])
            (map (notice round winning) (bets_at w.store.heap ps)),
      )

  -- The database takes every batch.
  abbrev pub TakesAll : Type 0
  TakesAll = (old new : List (BetOrder F)) → out.insert_orders old new ≡ ok tt

  batch_create-takes :
      (os : List (BetOrder F)) (w : World F)
      → TakesAll
      → batch_create float out os w ≡ (ok tt, record w { orders = w.orders ++ os })
  unfolding batch_create
  batch_create-takes [] w takes = rw (append-nil w.orders)
  batch_create-takes (o ∷ os) w takes = rw (takes w.orders (o ∷ os), batch_create)

  pub process_batch-settled :
      (round : String) (winning : Reward) (now : Time) (ps : List BetPtr) (w : World F)
      → TakesAll
      → All (Exact winning) (bets_at w.store.heap ps)
      → process_batch float
          (services float out d)
          round
          winning
          (orders_of round winning now (bets_at w.store.heap ps))
          ps
          w
        ≡ (ok tt, settled_by round winning now (bets_at w.store.heap ps) w)
  unfolding process_batch batch_create
  process_batch-settled round winning now [] w takes x =
      settle_bets-paid round winning now [] w x ∙ rw (append-nil w.orders)
  process_batch-settled round winning now (p ∷ ps) w takes x =
      let os = orders_of round winning now (bets_at w.store.heap (p ∷ ps)) in
      >>=-ok (or_wrap "failed to persist bet orders batch" (batch_create float out os))
        (λ _. settle_bets float (services float out d) round winning os (p ∷ ps)) w
        (or_wrap-ok _ (batch_create float out os) w (batch_create-takes os w takes))
      ∙ settle_bets-paid round winning now (p ∷ ps) (record w { orders = w.orders ++ os }) x
