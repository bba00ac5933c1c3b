-- ===== src/World.antt =====
-- A whole game server: the use case wired to the memory repository, the mock wallet, a GMS and a
-- gateway, as cmd/color_game/monolith/main.go wires it (`local` adapters) and as
-- cmd/color_game/microservices/gs/main.go does (`grpc`: the GMS answers through its gRPC adapter).
pub mod Outcomes
pub mod Betting
pub mod Settling
pub mod Batches
pub mod Rounds
pub mod Payout
pub mod Refusals
pub mod Ledger
pub mod Sound
pub mod Plays
mod Tests
use game_production.Common.{
  ℕ, suc, String, nat_key, ◌++◌, ◌∷◌, [], List, some, Result, ok, err, Exec, length,
}
use game_production.Clock.{Time}
use game_production.Float.{Float64}
use game_production.Bets.{Bet, BetPtr, BetOrder, deref}
use game_production.MemoryRepo.{Store}
use game_production.MemoryRepo
use game_production.Wallet.{Wallet}
use game_production.Wallet
use game_production.Gms.{
  Gms, local_record_bet, grpc_record_bet, local_current_round, grpc_current_round,
}
use game_production.Gs.Services.{
  Services, Gateway, SettlementBrc, RecordBetReq, RecordBetRsp, RoundRsp,
}

-- A message handed to the gateway.
pub data Sent : Type 0 where
  to_all : SettlementBrc → Sent
  to_user : ℕ → SettlementBrc → Sent

pub record World (F : Type 0) : Type 0 where
  pub store : Store
  pub wallet : Wallet
  pub gms : Gms F
  pub orders : List (BetOrder F)  -- the table bet_orders
  pub sent : List Sent  -- oldest first
  pub clock : Time
  pub next_id : ℕ

pub data Deployment : Type 0 where
  local grpc : Deployment

-- What is not in the repository: the database's answer to an insertion, and the text of the n-th ID
-- that the snowflake node generates.
pub record Outside (F : Type 0) : Type 0 where
  pub insert_orders : List (BetOrder F) → List (BetOrder F) → Result (Unit {0})
  pub id_text : ℕ → String

module _ {F : Type 0} where
  -- A call of one part of the world.
  abbrev pub on_store : {A : Type 0} → (Store → A × Store) → Exec (World F) A
  on_store f w = let (a, s) = f w.store in (ok a, record w { store = s })

  abbrev pub on_wallet : {A : Type 0} → Exec Wallet A → Exec (World F) A
  on_wallet m w = let (r, s) = m w.wallet in (r, record w { wallet = s })

  abbrev pub on_gms : {A : Type 0} → (Time → Exec (Gms F) A) → Exec (World F) A
  on_gms m w = let (r, g) = m w.clock w.gms in (r, record w { gms = g })

  abbrev pub update_store : (Store → Store) → Exec (World F) (Unit {0})
  update_store f = on_store (λ s. (tt, f s))

  abbrev pub read_store : {A : Type 0} → (Store → A) → Exec (World F) A
  read_store f = on_store (λ s. (f s, s))

  abbrev pub alloc : Bet → Exec (World F) BetPtr
  alloc b = on_store (λ s. (length s.heap, record s { heap = s.heap ++ b ∷ [] }))

  abbrev pub gateway_of : Gateway (World F)
  gateway_of = record {
    broadcast = λ brc w. record w { sent = w.sent ++ to_all brc ∷ [] };
    send_to_user = λ user brc w. record w { sent = w.sent ++ to_user user brc ∷ [] };
  }

module _ {F : Type 0} (float : Float64 F) (out : Outside F) where
  -- BatchCreate of gs/repository/db/bet_order_repo.go inserts all orders or none.
  unfoldable pub batch_create : List (BetOrder F) → Exec (World F) (Unit {0})
  batch_create [] w = (ok tt, w)
  batch_create (o ∷ os) w = elim (out.insert_orders w.orders (o ∷ os)) [
    | ok _ ↦ (ok tt, record w { orders = w.orders ++ o ∷ os })
    | err e ↦ (err e, w)
  ]

  abbrev pub record_at : Deployment → RecordBetReq → Exec (World F) RecordBetRsp
  record_at local req = on_gms (λ now. local_record_bet float now req)
  record_at grpc req = on_gms (λ now. grpc_record_bet float now req)

  abbrev pub round_at : Deployment → Exec (World F) RoundRsp
  round_at local = on_gms (λ now. local_current_round float now)
  round_at grpc = on_gms (λ now. grpc_current_round float now)

  abbrev pub services : Deployment → Services F (World F)
  services d = record {
    get_current_round = λ user. round_at d;
    record_bet = record_at d;
    wallet_place_bet = λ user amount round. on_wallet (Wallet.place_bet user amount round);
    wallet_add_balance = λ user amount reason. on_wallet (Wallet.add_balance user amount reason);
    save_bet = λ p. update_store (MemoryRepo.save_bet p);
    get_user_bets = λ round user. read_store (MemoryRepo.get_user_bets round user);
    clear_bets = λ round. update_store (MemoryRepo.clear_bets round);
    get_bets_for_settlement = λ round. on_store (MemoryRepo.get_bets_for_settlement round);
    get_user_bet = λ round user color. read_store (MemoryRepo.get_user_bet round user color);
    update_bet_amount = λ p more. update_store (MemoryRepo.update_bet_amount p more);
    batch_create = some batch_create;
    gateway = some gateway_of;
    alloc = alloc;
    read = λ p w. deref w.store.heap p;
    generate_bet_id = λ w. (ok (out.id_text w.next_id), record w { next_id = suc w.next_id });
    now = λ w. w.clock;
  }
