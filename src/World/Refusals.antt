-- ===== src/World/Refusals.antt =====
-- SettleRound in a whole game server whose database refuses the orders.
use game_production.Common.{
  ℕ, suc, ◌+◌, ◌<◌, ◌++◌, ◌∷◌, [], List, String, string_key, ◌≡◌, refl, Error, wrapped, ok, err,
  >>=-ok, >>=-err, if◌then◌else◌, arith, length, length-append, leb, Bool-cases, inl, inr, ◌∙◌,
}
use game_production.Clock.{Time}
use game_production.Proto.{Reward}
use game_production.Float.{Float64}
use game_production.Bets.{BetPtr, BetOrder, deref}
use game_production.MemoryRepo.{get_bets_for_settlement}
use game_production.Gs.{
  Progress, process_batch, make_order, flush, take_bet, batch_loop, settle_loop, settle_round,
  finish_round, batch_size,
}
use game_production.World.{World, Outside, Deployment, services, batch_create}
use game_production.World.Rounds.{waiting, popped, pop-empty, begun}

module _ {F : Type 0} (float : Float64 F) (out : Outside F) (d : Deployment) (x : Error) where
  -- The database answers every insertion with the error `x`.
  abbrev pub RefusesAll : Type 0
  RefusesAll = (old new : List (BetOrder F)) → out.insert_orders old new ≡ err x

  abbrev pub refusal : Error
  refusal = wrapped "failed to persist bet orders batch" x

  flush-refused :
      (round : String) (winning : Reward) (p : Progress F) (batch : List (BetOrder F)) (w : World F)
      → RefusesAll
      → p.current_batch ≡ batch
      → 0 < length batch
      → flush float (services float out d) round winning p w ≡ (err refusal, w)
  unfolding flush process_batch batch_create
  flush-refused round winning p [] w refuses e more = absurd (omega (arith, more))
  flush-refused round winning p (o ∷ os) w refuses e more =
      rw e (ground (arith, refuses w.orders (o ∷ os)))

  -- The counters with one more bet collected.
  abbrev with_bet : String → Reward → Time → BetPtr → Progress F → World F → Progress F
  with_bet round winning now q p w =
      let o = make_order float (services float out d) round winning now (deref w.store.heap q) in
      record p {
        current_batch = p.current_batch ++ o ∷ [];
        current_bets = p.current_bets ++ q ∷ [];
        all_bet_orders = p.all_bet_orders ++ o ∷ [];
      }

  take_bet_lem :
      (round : String) (winning : Reward) (now : Time) (q : BetPtr) (p : Progress F) (w : World F)
      → take_bet float (services float out d) round winning now q p w ≡ (
          if leb batch_size (length (with_bet round winning now q p w).current_batch)
          then flush float (services float out d) round winning (with_bet round winning now q p w) w
          else (ok (with_bet round winning now q p w), w))
  unfolding take_bet
  take_bet_lem round winning now q p w = refl

  batch_loop-refused :
      (round : String) (winning : Reward) (now : Time) (ps : List BetPtr) (p : Progress F)
      (w : World F)
      → RefusesAll
      → 0 < length p.current_batch + length ps
      → batch_loop float (services float out d) round winning now ps p w ≡ (err refusal, w)
  unfolding batch_loop
  batch_loop-refused round winning now [] p w refuses more = ground (
    arith,
    more,
    flush-refused round winning p p.current_batch w refuses refl (omega (arith, more)),
  )
  batch_loop-refused round winning now (q ∷ ps) p w refuses more =
      let o = make_order float (services float out d) round winning now (deref w.store.heap q) in
      let c = with_bet round winning now q p w in
      let turn = take_bet_lem round winning now q p w in
      let grown = length-append p.current_batch (o ∷ []) in
      let loop = batch_loop float (services float out d) round winning now ps in
      elim (Bool-cases (leb batch_size (length c.current_batch))) [
        | inl full ↦ >>=-err (take_bet float (services float out d) round winning now q p) loop w (
            rw full at turn
            ∙ flush-refused round winning c c.current_batch w refuses refl (omega (arith, grown)))
        | inr room ↦
            >>=-ok (take_bet float (services float out d) round winning now q p) loop w
              (rw room at turn)
            ∙ batch_loop-refused round winning now ps c w refuses (omega (arith, grown))
      ]

  settle_loop-refused :
      (fuel : ℕ) (round : String) (winning : Reward) (p : Progress F) (q : BetPtr)
      (qs : List BetPtr) (w : World F)
      → waiting float out d round w ≡ q ∷ qs
      → batch_loop float
          (services float out d)
          round
          winning
          w.clock
          (q ∷ qs)
          p
          (popped float out d round w)
        ≡ (err refusal, popped float out d round w)
      → settle_loop float (services float out d) (suc fuel) round winning p w
        ≡ (err refusal, popped float out d round w)
  unfolding settle_loop get_bets_for_settlement
  settle_loop-refused fuel round winning p q qs w e b = ground arith

  -- If the database refuses every insertion, the settlement of a round in which bets wait fails with
  -- the database's error: nobody is paid or told anything, but the bets have left the queue, so that
  -- no later settlement of the round finds them.
  pub settle_round-refused :
      (fuel : ℕ) (round : String) (winning : Reward) (w : World F) (q : BetPtr) (qs : List BetPtr)
      → RefusesAll
      → waiting float out d round w ≡ q ∷ qs
      → (settle_round float (services float out d) (suc fuel) round winning w
          ≡ (err refusal, popped float out d round w))
        × (waiting float out d round (popped float out d round w) ≡ [])
  unfolding settle_round
  settle_round-refused fuel round winning w q qs refuses e = (
    >>=-err (settle_loop float (services float out d) (suc fuel) round winning (begun float out d))
        (finish_round float (services float out d) round winning) w
        (settle_loop-refused fuel round winning (begun float out d) q qs w e (
          batch_loop-refused round winning w.clock (q ∷ qs) (begun float out d)
            (popped float out d round w) refuses (omega arith))),
    pop-empty float out d round w.store,
  )
