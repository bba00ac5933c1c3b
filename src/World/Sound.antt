-- ===== src/World/Sound.antt =====
-- What every bet of a round keeps true of a whole game server, so that the settlement pays each stake
-- once.
use game_production.Common.{
  ℕ, nat_key, ◌≡◌, refl, ◌∷◌, [], ◌++◌, String, string_key, inl, inr, ◌⊎◌, arith, none, some,
  Bool-cases, eqb_iff, add64, eqb, length, lookup-insert, or_else, lookup, sub64,
}
use game_production.Proto.{Reward}
use game_production.Bets.{BetPtr, Bet, deref}
use game_production.MemoryRepo.{Store, entries, get_user_bet, find_bet, save_bet, update_bet_amount}
use game_production.MemoryRepo.Stakes.{
  InHeap, save_bet-InHeap, update_bet_amount-InHeap, find_bet-append, find_bet-set, find_bet-found,
  get_elem?-append_length, entries-insert, add_to_heap,
}
use game_production.MemoryRepo.Once.{Once, append-Once, set-Once}
use game_production.Wallet.{Wallet, place_bet as wallet_place_bet}
use game_production.Wallet.Balances.{Known}

-- Bets are filed in the history and the queue of the round alike, one for each user and colour, and
-- whoever has one has an entry in the wallet.
pub record Sound (round : String) (s : Store) (wallet : Wallet) : Type 0 where
  pub in_heap : InHeap round s
  pub queued : entries round s.settlement_queue ≡ entries round s.bets
  pub once : Once s.heap (entries round s.bets)
  pub bettors_known : (v : ℕ) (c : Reward) → (get_user_bet round v c s ≡ none) ⊎ Known v wallet

pub none-Sound :
    (round : String) (s : Store) (wallet : Wallet)
    → entries round s.bets ≡ []
    → entries round s.settlement_queue ≡ []
    → Sound round s wallet
unfolding get_user_bet find_bet
none-Sound round s wallet e q = record {
  in_heap = rw e tt;
  queued = rw (e, q);
  once = rw e tt;
  bettors_known = λ v c. inl (rw e);
}

place_bet-Known :
    (u v a : ℕ) (round : String) (s : Wallet)
    → (Known v s ⊎ (v ≡ u))
    → Known v (wallet_place_bet u a round s).1
unfolding wallet_place_bet
place_bet-Known u v a round s k =
    let rest = sub64 (or_else (lookup u s.balances) 1000000) a in
    rw (lookup-insert u v rest s.balances) (ground (arith, k))

pub save_bet-Sound :
    (b : Bet) (s : Store) (wallet : Wallet) (a : ℕ)
    → get_user_bet b.round_id b.user_id b.color s ≡ none
    → Sound b.round_id s wallet
    → Sound b.round_id
        (save_bet (length s.heap) (add_to_heap b s))
        (wallet_place_bet b.user_id a b.round_id wallet).1
unfolding get_user_bet save_bet
save_bet-Sound b s wallet a new h =
    let ps = entries b.round_id s.bets in
    let n = length s.heap in
    record {
      in_heap = save_bet-InHeap b.round_id b s h.in_heap h.in_heap;
      queued = rw (
        get_elem?-append_length s.heap b,
        entries-insert b.round_id (ps ++ n ∷ []) s.bets,
        h.queued,
        entries-insert b.round_id (ps ++ n ∷ []) s.settlement_queue,
      );
      once =
          rw (get_elem?-append_length s.heap b, entries-insert b.round_id (ps ++ n ∷ []) s.bets)
            (append-Once s.heap b ps h.in_heap new h.once);
      bettors_known = λ v c. elim (Bool-cases (eqb v b.user_id)) [
        | inl same ↦
            inr
              (place_bet-Known b.user_id v a b.round_id wallet (inr ((eqb_iff v b.user_id).0 same)))
        | inr other ↦ elim (h.bettors_known v c) [
          | inr k ↦ inr (place_bet-Known b.user_id v a b.round_id wallet (inl k))
          | inl e ↦ inl (
              rw
                (
                  get_elem?-append_length s.heap b,
                  entries-insert b.round_id (ps ++ n ∷ []) s.bets,
                  find_bet-append v c s.heap b ps h.in_heap,
                  e,
                )
                (ground (arith, other, eqb_iff v b.user_id)))
        ]
      ];
    }

pub update_bet_amount-Sound :
    (round : String) (u : ℕ) (c : Reward) (p : BetPtr) (s : Store) (wallet : Wallet) (a : ℕ)
    → get_user_bet round u c s ≡ some p
    → Sound round s wallet
    → Sound round (update_bet_amount p a s) (wallet_place_bet u a round wallet).1
unfolding get_user_bet update_bet_amount
update_bet_amount-Sound round u c p s wallet a e h =
    let ps = entries round s.bets in
    let b : Bet = record (deref s.heap p) { amount = add64 (deref s.heap p).amount a } in
    let found = find_bet-found u c (length s.heap) s.heap ps p h.in_heap e in
    record {
      in_heap = update_bet_amount-InHeap round p a s h.in_heap;
      queued = h.queued;
      once = set-Once s.heap p b ps found.1 refl refl h.once;
      bettors_known = λ v d. elim (h.bettors_known v d) [
        | inr k ↦ inr (place_bet-Known u v a round wallet (inl k))
        | inl none_there ↦ inl (rw (find_bet-set v d s.heap p b ps found.1 refl refl) none_there)
      ];
    }
