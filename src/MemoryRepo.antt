-- ===== src/MemoryRepo.antt =====
-- The bet repository in memory: internal/modules/color_game/gs/repository/memory/bet_repo.go. It holds
-- pointers into the heap of bets, each once in the history of its round and once in its queue.
pub mod Stakes
pub mod Once
mod Tests
use game_production.Common.{
  ℕ, ◌++◌, ◌&&◌, String, string_key, nat_key, ◌==◌, Bool, List, [], ◌∷◌, Option, none, some,
  or_else, Dict, lookup, insert, delete, set, add64, if◌then◌else◌,
}
use game_production.Proto.{Reward, same_reward}
use game_production.Bets.{Bet, BetPtr, Heap, deref}

pub record Store : Type 0 where
  pub heap : Heap
  pub bets : Dict String (List BetPtr)
  pub settlement_queue : Dict String (List BetPtr)

unfoldable pub new_store : Store
new_store = record { heap = []; bets = []; settlement_queue = [] }

abbrev pub entries : String → Dict String (List BetPtr) → List BetPtr
entries round m = or_else (lookup round m) []

-- if m[round] == nil { m[round] = make(...) }; m[round] = append(m[round], bet)
append_at : String → BetPtr → Dict String (List BetPtr) → Dict String (List BetPtr)
append_at round p m = insert round (entries round m ++ p ∷ []) m

unfoldable pub save_bet : BetPtr → Store → Store
unfolding append_at
save_bet p s =
    let round = (deref s.heap p).round_id in
    record s {
      bets = append_at round p s.bets;
      settlement_queue = append_at round p s.settlement_queue;
    }

unfoldable pub get_bets : String → Store → List BetPtr
get_bets round s = entries round s.bets

is_of_user : ℕ → Bet → Bool
is_of_user user b = b.user_id == user

of_user : ℕ → Heap → List BetPtr → List BetPtr
unfolding is_of_user
of_user user h [] = []
of_user user h (p ∷ ps) =
    let rest = of_user user h ps in if is_of_user user (deref h p) then p ∷ rest else rest

unfoldable pub get_user_bets : String → ℕ → Store → List BetPtr
unfolding of_user
get_user_bets round user s = of_user user s.heap (entries round s.bets)

abbrev pub is_bet_of : ℕ → Reward → Bet → Bool
is_bet_of user color b = b.user_id == user && same_reward b.color color

-- The loop of GetUserBet: the first bet of the user on the colour.
unfoldable pub find_bet : ℕ → Reward → Heap → List BetPtr → Option BetPtr
find_bet user color h [] = none
find_bet user color h (p ∷ ps) =
    if is_bet_of user color (deref h p) then some p else find_bet user color h ps

unfoldable pub get_user_bet : String → ℕ → Reward → Store → Option BetPtr
unfolding find_bet
get_user_bet round user color s = find_bet user color s.heap (entries round s.bets)

unfoldable pub clear_bets : String → Store → Store
clear_bets round s = record s {
  bets = delete round s.bets;
  settlement_queue = delete round s.settlement_queue;
}

-- Pops the whole queue of the round.
unfoldable pub get_bets_for_settlement : String → Store → List BetPtr × Store
get_bets_for_settlement round s = elim (entries round s.settlement_queue) [
  | [] ↦ ([], s)
  | p ∷ ps ↦ (p ∷ ps, record s { settlement_queue = delete round s.settlement_queue })
]

-- bet.Amount += additionalAmount, through the pointer.
unfoldable pub update_bet_amount : BetPtr → ℕ → Store → Store
update_bet_amount p more s =
    let b = deref s.heap p in
    record s { heap = set s.heap p (record b { amount = add64 b.amount more }) }
