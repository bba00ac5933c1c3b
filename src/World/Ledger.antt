-- ===== src/World/Ledger.antt =====
-- What a round of the game promises, without rounds, bets, pointers or queues: who has how much, and who
-- has staked how much on which colour.
use game_production.Common.{
  ℕ, nat_key, ◌%◌, ◌+◌, ◌&&◌, ◌==◌, eqb, List, [], ◌∷◌, String, string_key, ◌≡◌, two64, add64,
  sub64, mul64, if◌then◌else◌,
}
use game_production.Proto.{Reward, same_reward}
use game_production.MemoryRepo.Stakes.{stake}
use game_production.Wallet.{get_balance}
use game_production.World.{World}

pub record Ledger : Type 0 where
  pub balance : ℕ → ℕ
  pub stakes : ℕ → Reward → ℕ

pub record Wager : Type 0 where
  pub user : ℕ
  pub color : Reward
  pub amount : ℕ

-- The amount moves from the balance to the stake.
unfoldable pub wagered : Wager → Ledger → Ledger
wagered b l = record {
  balance = λ v. if eqb b.user v then sub64 (l.balance b.user) b.amount else l.balance v;
  stakes = λ v d.
      if v == b.user && same_reward d b.color
      then add64 (l.stakes b.user b.color) b.amount
      else l.stakes v d;
}

unfoldable pub all_wagered : List Wager → Ledger → Ledger
unfolding wagered
all_wagered [] l = l
all_wagered (b ∷ bs) l = all_wagered bs (wagered b l)

-- Everybody gets twice the stake on the winning colour, and all stakes are gone.
unfoldable pub paid_out : Reward → Ledger → Ledger
paid_out winning l = record {
  balance = λ v. (l.balance v + mul64 (l.stakes v winning) 2) % two64;
  stakes = λ v d. 0;
}

-- A world holds what the ledger says of a round.
pub record Refines {F : Type 0} (round : String) (w : World F) (l : Ledger) : Type 0 where
  pub same_balance : (v : ℕ) → get_balance v w.wallet ≡ l.balance v
  pub same_stakes : (v : ℕ) (d : Reward) → stake round v d w.store ≡ l.stakes v d
