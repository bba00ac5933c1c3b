-- ===== src/World/Rounds.antt =====
-- The settlement of a whole round: every queued bet is settled once, and nothing is left.
use mathlib.Core.List.{append-nil}
use mathlib.Core.Path.{subst}
use game_production.Common.{
  ℕ, suc, ◌++◌, ◌∷◌, [], List, String, string_key, ◌≡◌, refl, some, ok, >>=-ok, arith, All, sym,
  ◌∙◌, lookup-delete, same_self,
}
use game_production.Proto.{Reward}
use game_production.Float.{Float64}
use game_production.Bets.{BetPtr}
use game_production.MemoryRepo.{Store, entries, get_bets_for_settlement, clear_bets}
use game_production.Gs.{Progress, settle_loop, settle_round, finish_round, batch_loop, round_notice}
use game_production.World.{World, Outside, Deployment, services, to_all}
use game_production.World.Settling.{Exact, all_paid, settled_by, bets_at, TakesAll}
use game_production.World.Batches.{advanced, batch_loop-settled}

module _ {F : Type 0} (float : Float64 F) (out : Outside F) (d : Deployment) where
  -- The pointers that wait for settlement.
  abbrev pub waiting : String → World F → List BetPtr
  waiting round w = entries round w.store.settlement_queue

  abbrev pub popped : String → World F → World F
  popped round w = record w { store = (get_bets_for_settlement round w.store).1 }

  -- After the pass over all waiting bets the round is cleared and announced to everybody.
  abbrev pub closed : String → Reward → World F → World F
  closed round winning w =
      let v =
        settled_by float out d round winning w.clock
          (bets_at float out d w.store.heap (waiting round w)) w in
      record v {
        store = clear_bets round (get_bets_for_settlement round w.store).1;
        sent = v.sent ++ to_all (round_notice float (services float out d) round winning) ∷ [];
      }

  pub pop-empty :
      (round : String) (s : Store)
      → entries round (get_bets_for_settlement round s).1.settlement_queue ≡ []
  unfolding get_bets_for_settlement
  pop-empty round s = ground (arith, lookup-delete round round s.settlement_queue, same_self round)

  pop-heap : (round : String) (s : Store) → (get_bets_for_settlement round s).1.heap ≡ s.heap
  unfolding get_bets_for_settlement
  pop-heap round s = ground arith

  pop-bets :
      (round : String) (s : Store)
      → (get_bets_for_settlement round s).0 ≡ entries round s.settlement_queue
  unfolding get_bets_for_settlement
  pop-bets round s = ground arith

  pop-none :
      (round : String) (s : Store)
      → entries round s.settlement_queue ≡ []
      → get_bets_for_settlement round s ≡ ([], s)
  unfolding get_bets_for_settlement
  pop-none round s e = ground arith

  settle_loop-done :
      (fuel : ℕ) (round : String) (winning : Reward) (p : Progress F) (w : World F)
      → waiting round w ≡ []
      → settle_loop float (services float out d) (suc fuel) round winning p w ≡ (ok (some p), w)
  unfolding settle_loop
  settle_loop-done fuel round winning p w e = ground (arith, pop-none round w.store e)

  settle_loop-turn :
      (fuel : ℕ) (round : String) (winning : Reward) (p r : Progress F) (q : BetPtr)
      (qs : List BetPtr) (w v : World F)
      → waiting round w ≡ q ∷ qs
      → batch_loop float (services float out d) round winning w.clock (q ∷ qs) p (popped round w)
        ≡ (ok r, v)
      → settle_loop float (services float out d) (suc fuel) round winning p w
        ≡ settle_loop float (services float out d) fuel round winning r v
  unfolding settle_loop get_bets_for_settlement
  settle_loop-turn fuel round winning p r q qs w v e b = ground arith

  abbrev pub begun : Progress F
  begun = record {
    current_batch = [];
    current_bets = [];
    all_bet_orders = [];
    total_processed = 0;
    batch_number = 0;
  }

  -- The loop takes at most two turns: the second finds the queue empty.
  settle_loop-settled :
      (fuel : ℕ) (round : String) (winning : Reward) (ps : List BetPtr) (w : World F)
      → waiting round w ≡ ps
      → TakesAll float out d
      → All (Exact winning) (bets_at float out d w.store.heap ps)
      → settle_loop float (services float out d) (suc (suc fuel)) round winning begun w ≡ (
        ok (some (advanced float out d round winning w.clock w.store.heap [] ps [] 0 0)),
        settled_by float out d round winning w.clock
            (bets_at float out d w.store.heap ps)
            (popped round w),
      )
  unfolding all_paid
  settle_loop-settled fuel round winning [] w e takes x =
      settle_loop-done (suc fuel) round winning begun w e
      ∙ rw (pop-none round w.store e, append-nil w.orders, append-nil w.sent)
  settle_loop-settled fuel round winning (q ∷ qs) w e takes x =
      settle_loop-turn (suc fuel) round winning begun
        (advanced float out d round winning w.clock w.store.heap [] (q ∷ qs) [] 0 0) q qs w
        (settled_by float out d round winning w.clock (bets_at float out d w.store.heap (q ∷ qs))
          (popped round w))
        e
        (subst
          (λ h.
            batch_loop float (services float out d) round winning w.clock (q ∷ qs) begun
              (popped round w)
            ≡ (
              ok (advanced float out d round winning w.clock h [] (q ∷ qs) [] 0 0),
              settled_by float out d round winning w.clock (bets_at float out d h (q ∷ qs))
                  (popped round w),
            ))
          (pop-heap round w.store)
          (batch_loop-settled float out d round winning w.clock (q ∷ qs) [] [] 0 0 (popped round w)
            takes
            (subst (λ h. All (Exact winning) (bets_at float out d h (q ∷ qs)))
              (sym (pop-heap round w.store)) x)
            (omega arith)))
      ∙ settle_loop-done fuel round winning _ _ (pop-empty round w.store)

  -- If the database takes the orders and every win is a whole number that a float64 holds, then the
  -- settlement of a round succeeds within two turns of its loop. Every bet that was waiting gets one
  -- order, one notice, a losing bet too, and, if it wins, one payment, in the order of the queue and
  -- however the bets fall into batches; then the round's bets are cleared and the result is announced
  -- to everybody. The counters are the number of bets and the number of batches of 500.
  pub settle_round-closed :
      (fuel : ℕ) (round : String) (winning : Reward) (w : World F)
      → TakesAll float out d
      → All (Exact winning) (bets_at float out d w.store.heap (waiting round w))
      → settle_round float (services float out d) (suc (suc fuel)) round winning w ≡ (
        ok (
            some (
              advanced float out d round winning w.clock w.store.heap [] (waiting round w) [] 0 0)),
        closed round winning w,
      )
  unfolding settle_round finish_round
  settle_round-closed fuel round winning w takes x =
      >>=-ok (settle_loop float (services float out d) (suc (suc fuel)) round winning begun)
        (finish_round float (services float out d) round winning) w
        (settle_loop-settled fuel round winning (waiting round w) w refl takes x)
      ∙ refl
