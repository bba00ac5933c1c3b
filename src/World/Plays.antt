-- ===== src/World/Plays.antt =====
-- Rounds that are played and settled in a whole game server, as the ledger sees them.
use game_production.Common.{
  ℕ, suc, nat_key, string_key, ◌<◌, ◌≤◌, ◌≡◌, ◌∙◌, List, [], ◌∷◌, String, ok, arith, two64, mul64,
  All, inl, inr, Option-cases, lookup-delete, same_self,
}
use game_production.Proto.{Reward}
use game_production.Float.{Float64, two53}
use game_production.Bets.{BetPtr, new_bet}
use game_production.MemoryRepo.{
  entries, get_user_bet, find_bet, clear_bets, get_bets_for_settlement,
}
use game_production.MemoryRepo.Stakes.{InHeap, stake, stake_in}
use game_production.MemoryRepo.Once.{won, won-Once, All-stake, All-bettors}
use game_production.Wallet.{Wallet, place_bet as wallet_place_bet}
use game_production.Wallet.Balances.{Known}
use game_production.Gs.{calculate_win, place_bet, settle_round}
use game_production.World.{World, Outside, Deployment, services}
use game_production.World.Outcomes.{round_of, placed}
use game_production.World.Betting.{placed-wallet, place_bet-placed, place_bet_books}
use game_production.World.Settling.{TakesAll, Exact, bets_at}
use game_production.World.Rounds.{waiting, closed, settle_round-closed}
use game_production.World.Payout.{AllKnown, settle_round-balances}
use game_production.World.Ledger.{Ledger, Wager, wagered, all_wagered, paid_out, Refines}
use game_production.World.Sound.{Sound, none-Sound, save_bet-Sound, update_bet_amount-Sound}

module _ {F : Type 0} (float : Float64 F) (out : Outside F) (d : Deployment) (round : String) where
  -- A round goes on from one world to another, with these bets answered in between. Between the bets
  -- anything may happen that changes neither the bets nor the wallet: time passes, the GMS moves on.
  pub data Plays : World F → List Wager → World F → Type 0 where
    stops : {w : World F} → Plays w [] w
    bets :
        {w w' w'' : World F} {bs : List Wager} (b : Wager) (p : BetPtr)
        → round_of float out w ≡ round
        → b.amount < two64
        → place_bet float (services float out d) b.user b.color b.amount w ≡ (ok p, w')
        → Plays w' bs w''
        → Plays w (b ∷ bs) w''
    goes_on :
        {w w' w'' : World F} {bs : List Wager}
        → w'.store ≡ w.store
        → w'.wallet ≡ w.wallet
        → Plays w' bs w''
        → Plays w bs w''

  placed-Sound :
      (user : ℕ) (color : Reward) (amount : ℕ) (u : World F) (wallet : Wallet)
      → Sound (round_of float out u) u.store wallet
      → Sound
          (round_of float out u)
          (placed float out user color amount u).1.store
          (wallet_place_bet user amount (round_of float out u) wallet).1
  unfolding placed new_bet
  placed-Sound user color amount u wallet h =
      let r = round_of float out u in
      elim (Option-cases (get_user_bet r user color u.store)) [
        | inr (p, e) ↦ rw e (update_bet_amount-Sound r user color p u.store wallet amount e h)
        | inl e ↦ rw e (
            save_bet-Sound (new_bet (out.id_text u.next_id) r user color amount u.clock) u.store
              wallet amount e h)
      ]

  bet-Sound :
      (b : Wager) (p : BetPtr) (w w' : World F)
      → round_of float out w ≡ round
      → place_bet float (services float out d) b.user b.color b.amount w ≡ (ok p, w')
      → Sound round w.store w.wallet
      → Sound round w'.store w'.wallet
  bet-Sound b p w w' e done h =
      let (u, q, f) = place_bet-placed float out d b.user b.color b.amount w p w' done in
      let now : round_of float out u ≡ round = q.same_round ∙ e in
      let filed : Sound round (placed float out b.user b.color b.amount u).1.store
          (wallet_place_bet b.user b.amount round w.wallet).1 =
        rw (← now) (placed-Sound b.user b.color b.amount u w.wallet (rw (now, q.same_store) h)) in
      rw (f, placed-wallet float out b.user b.color b.amount u, q.same_wallet, e) filed

  bet-Refines :
      (b : Wager) (p : BetPtr) (w w' : World F) (l : Ledger)
      → round_of float out w ≡ round
      → b.amount < two64
      → place_bet float (services float out d) b.user b.color b.amount w ≡ (ok p, w')
      → Sound round w.store w.wallet
      → Refines round w l
      → Refines round w' (wagered b l)
  unfolding wagered
  bet-Refines b p w w' l e small done h r =
      let filed : InHeap (round_of float out w) w.store = rw e h.in_heap in
      let books = place_bet_books float out d b.user b.color b.amount w p w' in
      record {
        same_balance =
            λ v. rw ((books v b.color small filed done).1, r.same_balance v, r.same_balance b.user);
        same_stakes = λ v c.
            rw (← r.same_stakes v c, ← r.same_stakes b.user b.color, ← e)
              (books v c small filed done).0;
      }

  Plays-Refines :
      {w w' : World F} {bs : List Wager}
      → Plays w bs w'
      → (l : Ledger) → Sound round w.store w.wallet
      → Refines round w l
      → Refines round w' (all_wagered bs l) × Sound round w'.store w'.wallet
  unfolding all_wagered
  Plays-Refines stops l h r = (r, h)
  Plays-Refines (bets {w} {w'} b p e small done rest) l h r =
      Plays-Refines rest (wagered b l) (bet-Sound b p w w' e done h)
        (bet-Refines b p w w' l e small done h r)
  Plays-Refines (goes_on es ew rest) l h r = Plays-Refines rest l (rw (es, ew) h) (record {
    same_balance = λ v. rw ew (r.same_balance v);
    same_stakes = λ v c. rw es (r.same_stakes v c);
  })

  all_wagered-small :
      (bs : List Wager) (l : Ledger) (v : ℕ)
      → l.balance v < two64
      → (all_wagered bs l).balance v < two64
  unfolding all_wagered wagered
  all_wagered-small [] l v small = small
  all_wagered-small (b ∷ bs) l v small =
      all_wagered-small bs (wagered b l) v (ground (arith, small))

  waiting-won :
      (winning : Reward) (w : World F) (v : ℕ)
      → Sound round w.store w.wallet
      → won v winning (bets_at float out d w.store.heap (waiting float out d round w))
        ≡ mul64 (stake round v winning w.store) 2
  unfolding stake get_user_bet
  waiting-won winning w v h =
      rw h.queued (won-Once v winning w.store.heap (entries round w.store.bets) h.once)

  waiting-Exact :
      (winning : Reward) (w : World F)
      → Sound round w.store w.wallet
      → ((v : ℕ) → mul64 (stake round v winning w.store) 2 ≤ two53)
      → All (Exact winning) (bets_at float out d w.store.heap (waiting float out d round w))
  unfolding stake get_user_bet calculate_win
  waiting-Exact winning w h small =
      rw h.queued (All-stake two53 winning w.store.heap (entries round w.store.bets) h.once small)

  waiting-AllKnown :
      (w : World F)
      → Sound round w.store w.wallet
      → AllKnown (bets_at float out d w.store.heap (waiting float out d round w)) w.wallet
  unfolding get_user_bet
  waiting-AllKnown w h = rw h.queued (
      All-bettors (λ v. Known v w.wallet) w.store.heap (entries round w.store.bets) h.bettors_known)

  closed-stake :
      (winning : Reward) (w : World F) (v : ℕ) (c : Reward)
      → stake round v c (closed float out d round winning w).store ≡ 0
  unfolding stake get_user_bet clear_bets find_bet stake_in
  closed-stake winning w v c =
      rw (lookup-delete round round (get_bets_for_settlement round w.store).1.bets, same_self round)

  settle_round-Refines :
      (fuel : ℕ) (winning : Reward) (w : World F) (l : Ledger)
      → TakesAll float out d
      → Sound round w.store w.wallet
      → Refines round w l
      → ((v : ℕ) → mul64 (l.stakes v winning) 2 ≤ two53)
      → ((v : ℕ) → l.balance v < two64)
      → Refines round
          (settle_round float (services float out d) (suc (suc fuel)) round winning w).1
          (paid_out winning l)
  unfolding paid_out
  settle_round-Refines fuel winning w l takes h r small bounded =
      let exact = waiting-Exact winning w h (λ v. rw (r.same_stakes v winning) (small v)) in
      record {
        same_balance = λ v.
            settle_round-balances float out d fuel round winning w v takes exact
              (waiting-AllKnown w h) (rw (r.same_balance v) (bounded v))
            ∙ rw (waiting-won winning w v h, r.same_balance v, r.same_stakes v winning);
        same_stakes = λ v c.
            rw (settle_round-closed float out d fuel round winning w takes exact)
              (closed-stake winning w v c);
      }

  -- A round whose bets are all answered with success, in either deployment and whatever the GMS does
  -- meanwhile, and which is then settled with at least two turns of the loop, is the ledger's round:
  -- every balance and stake is what the ledger says, with each bet moved from the balance to the
  -- stake, and twice the stake on the winning colour paid out. That is so if the round starts without
  -- bets and as the ledger says, the amounts and the ledger's balances are below 2 ^ 64, the database
  -- takes the orders, and a float64 holds every win.
  pub played_round-Refines :
      (fuel : ℕ) (winning : Reward) (w w' : World F) (bs : List Wager) (l : Ledger)
      → entries round w.store.bets ≡ []
      → entries round w.store.settlement_queue ≡ []
      → Refines round w l
      → ((v : ℕ) → l.balance v < two64)
      → TakesAll float out d
      → Plays w bs w'
      → ((v : ℕ) → mul64 ((all_wagered bs l).stakes v winning) 2 ≤ two53)
      → Refines round
          (settle_round float (services float out d) (suc (suc fuel)) round winning w').1
          (paid_out winning (all_wagered bs l))
  played_round-Refines fuel winning w w' bs l none_filed none_queued r bounded takes plays small =
      let (r', h) =
        Plays-Refines plays l (none-Sound round w.store w.wallet none_filed none_queued) r in
      settle_round-Refines fuel winning w' (all_wagered bs l) takes h r' small
        (λ v. all_wagered-small bs l v (bounded v))
