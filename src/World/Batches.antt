-- ===== src/World/Batches.antt =====
-- The batches of SettleRound: however the bets fall into batches of 500, together they do what one pass
-- over all the bets does.
use mathlib.Core.List.{append-nil, append_assoc, map-append}
use native.Mathlib.Nat.{add-zero}
use game_production.Common.{
  ℕ, ◌+◌, ◌/◌, ◌<◌, ◌++◌, ◌∷◌, [], List, length, length-append, length-map, pure, String, ◌≡◌, refl,
  ok, >>=-ok, arith, if◌then◌else◌, leb, All, sym, ◌∙◌, Bool-cases, inl, inr,
}
use game_production.Clock.{Time}
use game_production.Proto.{Reward}
use game_production.Float.{Float64}
use game_production.Bets.{Bet, BetPtr, BetOrder, Heap, deref}
use game_production.Wallet.{Wallet}
use game_production.Gs.{
  Progress, batch_size, process_batch, make_order, flush, take_bet, batch_loop,
}
use game_production.World.{World, Outside, Deployment, services}
use game_production.World.Settling.{
  Exact, all_paid, notice, settled_by, bets_at, orders_of, TakesAll, process_batch-settled,
}

all_paid-append :
    (round : String) (winning : Reward) (xs bs : List Bet) (s : Wallet)
    → all_paid round winning (xs ++ bs) s ≡ all_paid round winning bs (all_paid round winning xs s)
unfolding all_paid
all_paid-append round winning [] bs s = refl
all_paid-append round winning (a ∷ xs) bs s = all_paid-append round winning xs bs _

module _ {F : Type 0} (float : Float64 F) (out : Outside F) (d : Deployment) where
  -- Two passes in a row are one pass.
  settled_by-append :
      (round : String) (winning : Reward) (now : Time) (xs ys : List Bet) (w : World F)
      → settled_by float out d round winning now ys (settled_by float out d round winning now xs w)
        ≡ settled_by float out d round winning now (xs ++ ys) w
  settled_by-append round winning now xs ys w = rw (
    all_paid-append round winning xs ys w.wallet,
    map-append (notice round winning) xs ys,
    map-append (make_order float (services float out d) round winning now) xs ys,
    append_assoc w.orders,
    append_assoc w.sent,
  )

  -- The counters with the bets `cur` collected for the next batch.
  abbrev in_hand :
      String → Reward → Time → Heap → List BetPtr → List (BetOrder F) → ℕ → ℕ → Progress F
  in_hand round winning now h cur all n b = record {
    current_batch = orders_of float out d round winning now (bets_at float out d h cur);
    current_bets = cur;
    all_bet_orders = all;
    total_processed = n;
    batch_number = b;
  }

  abbrev nothing_in_hand : List (BetOrder F) → ℕ → ℕ → Progress F
  nothing_in_hand all n b = record {
    current_batch = [];
    current_bets = [];
    all_bet_orders = all;
    total_processed = n;
    batch_number = b;
  }

  flush-settled :
      (round : String) (winning : Reward) (now : Time) (cur : List BetPtr) (all : List (BetOrder F))
      (n b : ℕ) (w : World F)
      → TakesAll float out d
      → All (Exact winning) (bets_at float out d w.store.heap cur)
      → flush float
          (services float out d)
          round
          winning
          (in_hand round winning now w.store.heap cur all n b)
          w
        ≡ (
          ok (nothing_in_hand all (n + length cur) (b + 1)),
          settled_by float out d round winning now (bets_at float out d w.store.heap cur) w,
        )
  unfolding flush
  flush-settled round winning now cur all n b w takes x =
      let bs = bets_at float out d w.store.heap cur in
      let os = orders_of float out d round winning now bs in
      let count : length os ≡ length cur =
        length-map bs (make_order float (services float out d) round winning now)
        ∙ length-map cur (deref w.store.heap) in
      >>=-ok (process_batch float (services float out d) round winning os cur)
        (λ _. pure (nothing_in_hand all (n + length os) (b + 1))) w
        (process_batch-settled float out d round winning now cur w takes x)
      ∙ rw count

  -- What holds of the bets at the pointers of a list holds of those of its two parts.
  All-parts :
      (winning : Reward) (h : Heap) (xs ys : List BetPtr)
      → All (Exact winning) (bets_at float out d h (xs ++ ys))
      → All (Exact winning) (bets_at float out d h xs)
        × All (Exact winning) (bets_at float out d h ys)
  All-parts winning h [] ys x = (tt, x)
  All-parts winning h (p ∷ xs) ys x = let (l, r) = All-parts winning h xs ys x.1 in ((x.0, l), r)

  -- One turn of the loop collects a bet.
  collected :
      (round : String) (winning : Reward) (now : Time) (q : BetPtr) (cur : List BetPtr)
      (all : List (BetOrder F)) (n b : ℕ) (h : Heap)
      → let o = make_order float (services float out d) round winning now (deref h q) in
        ◌≡◌ {A = Progress F}
          (record {
            current_batch =
                orders_of float out d round winning now (bets_at float out d h cur) ++ o ∷ [];
            current_bets = cur ++ q ∷ [];
            all_bet_orders = all ++ o ∷ [];
            total_processed = n;
            batch_number = b;
          })
          (in_hand round winning now h (cur ++ q ∷ []) (all ++ o ∷ []) n b)
  collected round winning now q cur all n b h = rw (
    map-append (deref h) cur (q ∷ []),
    map-append (make_order float (services float out d) round winning now),
  )

  -- What the loop over one answer of the repository leaves in its counters.
  abbrev pub advanced :
      String
      → Reward
      → Time
      → Heap
      → List BetPtr
      → List BetPtr
      → List (BetOrder F)
      → ℕ
      → ℕ
      → Progress F
  advanced round winning now h cur ps all n b =
      nothing_in_hand (all ++ orders_of float out d round winning now (bets_at float out d h ps))
        (n + length (cur ++ ps)) (b + (length (cur ++ ps) + 499) / 500)

  rest-settled :
      (round : String) (winning : Reward) (now : Time) (cur : List BetPtr) (all : List (BetOrder F))
      (n b : ℕ) (w : World F)
      → TakesAll float out d
      → All (Exact winning) (bets_at float out d w.store.heap cur)
      → length cur < 500
      → batch_loop float
          (services float out d)
          round
          winning
          now
          []
          (in_hand round winning now w.store.heap cur all n b)
          w
        ≡ (
          ok (nothing_in_hand all (n + length cur) (b + (length cur + 499) / 500)),
          settled_by float out d round winning now (bets_at float out d w.store.heap cur) w,
        )
  unfolding batch_loop all_paid
  rest-settled round winning now [] all n b w takes x small =
      rw (add-zero n, add-zero b, append-nil w.orders, append-nil w.sent)
  rest-settled round winning now (q ∷ cur) all n b w takes x small =
      let one : (length (q ∷ cur) + 499) / 500 ≡ 1 = omega arith in
      flush-settled round winning now (q ∷ cur) all n b w takes x ∙ rw one

  take_bet-settled :
      (round : String) (winning : Reward) (now : Time) (q : BetPtr) (cur : List BetPtr)
      (all : List (BetOrder F)) (n b : ℕ) (w : World F)
      → let o = make_order float (services float out d) round winning now (deref w.store.heap q) in
        let c = in_hand round winning now w.store.heap (cur ++ q ∷ []) (all ++ o ∷ []) n b in
        take_bet float
          (services float out d)
          round
          winning
          now
          q
          (in_hand round winning now w.store.heap cur all n b)
          w
        ≡ (if leb batch_size (length cur + 1)
            then flush float (services float out d) round winning c w
            else (ok c, w))
  unfolding take_bet
  take_bet-settled round winning now q cur all n b w =
      let bs = bets_at float out d w.store.heap cur in
      let o = make_order float (services float out d) round winning now (deref w.store.heap q) in
      let count : length (orders_of float out d round winning now bs ++ o ∷ []) ≡ length cur + 1 =
        omega (
          arith,
          length-append (orders_of float out d round winning now bs) (o ∷ []),
          length-map bs (make_order float (services float out d) round winning now),
          length-map cur (deref w.store.heap),
        ) in
      rw (count, collected round winning now q cur all n b w.store.heap)

  -- With `cur` in hand the loop over `ps` settles both, in as many batches as 500 bets each make.
  pub batch_loop-settled :
      (round : String) (winning : Reward) (now : Time) (ps cur : List BetPtr)
      (all : List (BetOrder F)) (n b : ℕ) (w : World F)
      → TakesAll float out d
      → All (Exact winning) (bets_at float out d w.store.heap (cur ++ ps))
      → length cur < 500
      → batch_loop float
          (services float out d)
          round
          winning
          now
          ps
          (in_hand round winning now w.store.heap cur all n b)
          w
        ≡ (
          ok (advanced round winning now w.store.heap cur ps all n b),
          settled_by float out d round winning now (bets_at float out d w.store.heap (cur ++ ps)) w,
        )
  unfolding batch_loop
  batch_loop-settled round winning now [] cur all n b w takes x small =
      rw (append-nil cur, append-nil all)
        (rest-settled round winning now cur all n b w takes (rw (append-nil cur) at x) small)
  batch_loop-settled round winning now (q ∷ ps) cur all n b w takes x small =
      let o = make_order float (services float out d) round winning now (deref w.store.heap q) in
      let h = w.store.heap in
      let more = cur ++ q ∷ [] in
      let turn = take_bet-settled round winning now q cur all n b w in
      let grown = length-append cur (q ∷ []) in
      let whole = length-append cur (q ∷ ps) in
      let x' = rw (sym (append_assoc cur (q ∷ []) ps)) at x in
      elim (Bool-cases (leb batch_size (length cur + 1))) [
        | inl full ↦
            let w' = settled_by float out d round winning now (bets_at float out d h more) w in
            let processed : n + length more + length ps ≡ n + length (cur ++ q ∷ ps) =
              omega (arith, grown, whole) in
            let batches : b + 1 + (length ps + 499) / 500
                ≡ b + (length (cur ++ q ∷ ps) + 499) / 500 =
              ground (arith, grown, whole) in
            >>=-ok
              (take_bet float (services float out d) round winning now q
                (in_hand round winning now h cur all n b))
              (batch_loop float (services float out d) round winning now ps) w
              (rw full at turn
                ∙ flush-settled round winning now more (all ++ o ∷ []) n b w takes
                    (All-parts winning h more ps x').0)
            ∙ batch_loop-settled round winning now ps [] (all ++ o ∷ []) (n + length more) (b + 1)
                w' takes (All-parts winning h more ps x').1 (omega arith)
            ∙ rw (
              settled_by-append round winning now (bets_at float out d h more)
                  (bets_at float out d h ps) w,
              ← map-append (deref h) more ps,
              append_assoc cur (q ∷ []) ps,
              append_assoc all (o ∷ []),
              processed,
              batches,
            )
        | inr room ↦
            >>=-ok
              (take_bet float (services float out d) round winning now q
                (in_hand round winning now h cur all n b))
              (batch_loop float (services float out d) round winning now ps) w (rw room at turn)
            ∙ batch_loop-settled round winning now ps more (all ++ o ∷ []) n b w takes x'
                (ground (arith, grown))
            ∙ rw (append_assoc cur (q ∷ []) ps, append_assoc all (o ∷ []))
      ]
