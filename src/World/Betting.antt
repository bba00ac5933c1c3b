-- ===== src/World/Betting.antt =====
-- The stake that PlaceBet books is the amount that leaves the wallet, and what remains of a refused bet.
use game_production.Common.{
  ℕ, ◌<◌, ◌&&◌, String, string_key, nat_key, eq_iff, ◌==◌, ◌≡◌, refl, ◌≢◌, true, false, not, Error,
  ok, err, arith, if◌then◌else◌, two64, add64, sub64, Option-cases, inl, inr, ◌⊎◌, ◌↔◌, eqb, sym,
  ◌∙◌,
}
use game_production.Proto.{Reward, same_reward}
use game_production.Float.{Float64}
use game_production.Bets.{BetPtr, new_bet}
use game_production.MemoryRepo.{Store, get_user_bet}
use game_production.MemoryRepo.Stakes.{
  InHeap, stake, stake-update_bet_amount, stake-save_bet, stake-none, update_bet_amount-InHeap,
  save_bet-InHeap,
}
use game_production.Wallet.{get_balance, place_bet as wallet_place_bet}
use game_production.Wallet.Balances.{get_balance-place_bet}
use game_production.Gs.{is_valid_color, place_bet}
use game_production.World.{World, Outside, Deployment, local, grpc, services}
use game_production.World.Outcomes.{
  round_of, accepting, charged, counted, placed, local_outcome, grpc_outcome, place_bet-local,
  place_bet-grpc,
}

-- What a bet does to the stakes of its round: the user's stake on the colour grows by the amount,
-- modulo 2 ^ 64, and no other changes.
pub record Booked (user : ℕ) (color : Reward) (amount : ℕ) (round : String) (s t : Store)
    : Type 0 where
  pub stakes :
      (v : ℕ) (d : Reward)
      → stake round v d t ≡ (
          if v == user && same_reward d color
          then add64 (stake round user color s) amount
          else stake round v d s)
  pub kept : InHeap round t

module _ {F : Type 0} (float : Float64 F) (out : Outside F) where
  placed-Booked :
      (user : ℕ) (color : Reward) (amount : ℕ) (w : World F)
      → amount < two64
      → InHeap (round_of float out w) w.store
      → Booked user color amount
          (round_of float out w)
          w.store
          (placed float out user color amount w).1.store
  unfolding placed new_bet
  placed-Booked user color amount w small h =
      let round = round_of float out w in
      elim (Option-cases (get_user_bet round user color w.store)) [
        | inr (p, e) ↦ rw e (record {
          stakes = λ v d. stake-update_bet_amount round user v color d amount w.store p h e;
          kept = update_bet_amount-InHeap round p amount w.store h;
        })
        | inl e ↦
            let b = new_bet (out.id_text w.next_id) round user color amount w.clock in
            rw e (record {
              stakes = λ v d.
                  ground (
                    arith,
                    stake-save_bet v d b w.store h e,
                    stake-none round user color w.store e,
                  );
              kept = save_bet-InHeap round b w.store h h;
            })
      ]

  -- Filing a bet moves no money.
  pub placed-wallet :
      (user : ℕ) (color : Reward) (amount : ℕ) (w : World F)
      → (placed float out user color amount w).1.wallet ≡ w.wallet
  unfolding placed
  placed-wallet user color amount w = ground arith

  -- The world in which a bet that was answered is filed: the amount has left the wallet, and the GMS may
  -- have counted the bet.
  pub record Charged (user amount : ℕ) (w u : World F) : Type 0 where
    pub same_round : round_of float out u ≡ round_of float out w
    pub same_store : u.store ≡ w.store
    pub same_wallet : u.wallet ≡ (charged float out user amount w).wallet

  charged-Charged :
      (user amount : ℕ) (w : World F) → Charged user amount w (charged float out user amount w)
  charged-Charged user amount w = record {
    same_round = refl;
    same_store = refl;
    same_wallet = refl;
  }

  counted-Charged :
      (user amount : ℕ) (w : World F)
      → Charged user amount w (counted float out user amount (charged float out user amount w))
  counted-Charged user amount w = record {
    same_round = refl;
    same_store = refl;
    same_wallet = refl;
  }

  local_outcome-ok :
      (user : ℕ) (color : Reward) (amount : ℕ) (w : World F) (p : BetPtr) (w' : World F)
      → local_outcome float out user color amount w ≡ (ok p, w')
      → w'
        ≡ (placed float out user color amount
            (counted float out user amount (charged float out user amount w))).1
  unfolding local_outcome
  local_outcome-ok user color amount w p w' e = ground arith

  grpc_outcome-ok :
      (user : ℕ) (color : Reward) (amount : ℕ) (w : World F) (p : BetPtr) (w' : World F)
      → grpc_outcome float out user color amount w ≡ (ok p, w')
      → (w'
          ≡ (placed float out user color amount
              (counted float out user amount (charged float out user amount w))).1)
        ⊎ (w' ≡ (placed float out user color amount (charged float out user amount w)).1)
  unfolding grpc_outcome
  grpc_outcome-ok user color amount w p w' e = ground arith

  pub place_bet-placed :
      (d : Deployment) (user : ℕ) (color : Reward) (amount : ℕ) (w : World F) (p : BetPtr)
      (w' : World F)
      → place_bet float (services float out d) user color amount w ≡ (ok p, w')
      → (u : World F) × Charged user amount w u × (w' ≡ (placed float out user color amount u).1)
  place_bet-placed local user color amount w p w' e = (
    counted float out user amount (charged float out user amount w),
    counted-Charged user amount w,
    local_outcome-ok user color amount w p w'
        (sym (place_bet-local float out user color amount w) ∙ e),
  )
  place_bet-placed grpc user color amount w p w' e =
      elim (grpc_outcome-ok user color amount w p w'
        (sym (place_bet-grpc float out user color amount w) ∙ e)) [
          | inl g ↦ (
            counted float out user amount (charged float out user amount w),
            counted-Charged user amount w,
            g,
          )
          | inr g ↦ (charged float out user amount w, charged-Charged user amount w, g)
        ]

  -- The claim for a world `u` that differs from the charged one in neither the bets nor the wallet.
  books_from :
      (user : ℕ) (color : Reward) (amount : ℕ) (w u w' : World F) (v : ℕ) (c : Reward)
      → amount < two64
      → InHeap (round_of float out w) w.store
      → round_of float out u ≡ round_of float out w
      → u.store ≡ w.store
      → u.wallet ≡ (charged float out user amount w).wallet
      → w' ≡ (placed float out user color amount u).1
      → (stake (round_of float out w) v c w'.store ≡ (
          if v == user && same_reward c color
          then add64 (stake (round_of float out w) user color w.store) amount
          else stake (round_of float out w) v c w.store))
        × (get_balance v w'.wallet ≡ (
            if eqb user v
            then sub64 (get_balance user w.wallet) amount
            else get_balance v w.wallet))
  books_from user color amount w u w' v c small h er es ew e = (
    rw e (simp (er, es) at (placed-Booked user color amount u small (rw (er, es) h)).stakes v c),
    rw (e, placed-wallet user color amount u, ew)
        (get_balance-place_bet user v amount (round_of float out w) w.wallet).1,
  )

  -- A bet of an amount below 2 ^ 64, where the round's pointers lie in the heap of bets, that is
  -- answered with success, in either deployment, has taken its amount from the user's
  -- balance and put it on the user's stake on the colour in the current round (both modulo 2 ^ 64);
  -- no other balance and no other stake of the round has changed.
  pub place_bet_books :
      (d : Deployment) (user : ℕ) (color : Reward) (amount : ℕ) (w : World F) (p : BetPtr)
      (w' : World F) (v : ℕ) (c : Reward)
      → amount < two64
      → InHeap (round_of float out w) w.store
      → place_bet float (services float out d) user color amount w ≡ (ok p, w')
      → (stake (round_of float out w) v c w'.store ≡ (
          if v == user && same_reward c color
          then add64 (stake (round_of float out w) user color w.store) amount
          else stake (round_of float out w) v c w.store))
        × (get_balance v w'.wallet ≡ (
            if eqb user v
            then sub64 (get_balance user w.wallet) amount
            else get_balance v w.wallet))
  place_bet_books d user color amount w p w' v c small h e =
      let (u, q, f) = place_bet-placed d user color amount w p w' e in
      books_from user color amount w u w' v c small h q.same_round q.same_store q.same_wallet f

  -- Behind the local adapters a bet succeeds exactly if the colour is one of the four, there is a
  -- round and it accepts bets now.
  pub place_bet_ok_iff :
      (user : ℕ) (color : Reward) (amount : ℕ) (w : World F)
      → ((pw : BetPtr × World F) × (place_bet float (services float out local) user color amount w
            ≡ (ok pw.0, pw.1)))
        ↔ ((is_valid_color color ≡ true)
            × (round_of float out w ≢ "")
            × (accepting float out w ≡ true))
  unfolding local_outcome
  place_bet_ok_iff user color amount w =
      let here = place_bet-local float out user color amount w in
      let named = eq_iff (round_of float out w) "" in
      (
        λ done. ground (arith, done.1, here, named),
        λ conditions. (
          placed float out user color amount
              (counted float out user amount (charged float out user amount w)),
          ground (arith, conditions, here, named),
        ),
      )

  -- Behind the local adapters a bet that is answered with an error has changed nothing, or it was
  -- refused by a round that takes no bets, and then all that changed is that the amount has left the
  -- user's wallet.
  pub place_bet_refused :
      (user : ℕ) (color : Reward) (amount : ℕ) (w : World F) (x : Error) (w' : World F)
      → place_bet float (services float out local) user color amount w ≡ (err x, w')
      → (w' ≡ w)
        ⊎ ((accepting float out w ≡ false)
            × (w' ≡ record w {
              wallet = (wallet_place_bet user amount (round_of float out w) w.wallet).1;
            }))
  unfolding local_outcome
  place_bet_refused user color amount w x w' e =
      ground (arith, place_bet-local float out user color amount w)

  -- Behind the gRPC adapters, when each call reaches the GMS, a bet on one of the four colours, of an amount
  -- below 2 ^ 64 and where the round's pointers lie in the heap of bets, succeeds and is booked,
  -- whether or not a round is going on and takes bets: its amount has left the user's balance and is on the
  -- user's stake on the colour in the current round (both modulo 2 ^ 64), and no other balance
  -- and no other stake of the round has changed.
  pub place_bet-grpc_ok :
      (user : ℕ) (color : Reward) (amount : ℕ) (w : World F) (v : ℕ) (c : Reward)
      → is_valid_color color ≡ true
      → amount < two64
      → InHeap (round_of float out w) w.store
      → (pw : BetPtr × World F) × (place_bet float (services float out grpc) user color amount w
          ≡ (ok pw.0, pw.1))
        × (stake (round_of float out w) v c pw.1.store ≡ (
            if v == user && same_reward c color
            then add64 (stake (round_of float out w) user color w.store) amount
            else stake (round_of float out w) v c w.store))
        × (get_balance v pw.1.wallet ≡ (
            if eqb user v
            then sub64 (get_balance user w.wallet) amount
            else get_balance v w.wallet))
  unfolding grpc_outcome
  place_bet-grpc_ok user color amount w v c valid small h =
      let (p, w') = placed float out user color amount (
        if accepting float out w && not (round_of float out w == "")
        then counted float out user amount (charged float out user amount w)
        else charged float out user amount w) in
      let done : place_bet float (services float out grpc) user color amount w ≡ (ok p, w') =
        ground (arith, valid, place_bet-grpc float out user color amount w) in
      let booked = place_bet_books grpc user color amount w p w' v c small h done in
      ((p, w'), done, booked.0, booked.1)
