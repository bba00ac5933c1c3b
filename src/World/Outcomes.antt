-- ===== src/World/Outcomes.antt =====
-- What PlaceBet answers and changes in a whole game server, on every branch.
use game_production.Common.{
  ℕ, suc, ◌++◌, ◌∷◌, [], length, ◌&&◌, String, string_key, ◌==◌, ◌≡◌, Bool, not, Option, none, some,
  failure, about, wrapped, Result, ok, err, arith, if◌then◌else◌, eq_iff, same_self,
}
use game_production.Proto.{Reward, reward_name}
use game_production.Float.{Float64}
use game_production.Bets.{BetPtr, new_bet}
use game_production.MemoryRepo
use game_production.Wallet
use game_production.Machine.{can_accept, get_current_round}
use game_production.Gms.{
  local_record_bet, grpc_record_bet, local_current_round, grpc_current_round, add_bet,
}
use game_production.Gs.{is_valid_color, place_bet}
use game_production.World.{World, Outside, local, grpc, services}

module _ {F : Type 0} (float : Float64 F) (out : Outside F) where
  -- The ID of the round that is going on, empty if there is none.
  abbrev pub round_of : World F → String
  round_of w = (get_current_round w.clock w.gms.machine).round_id

  abbrev pub accepting : World F → Bool
  accepting w = can_accept w.clock w.gms.machine

  -- The stake has left the wallet.
  abbrev pub charged : ℕ → ℕ → World F → World F
  charged user amount w = record w {
    wallet = (Wallet.place_bet user amount (round_of w) w.wallet).1;
  }

  abbrev pub counted : ℕ → ℕ → World F → World F
  counted user amount w = record w {
    gms = record (w.gms) {
      counts = add_bet float (round_of w) user (float.of_int64 amount) w.gms.counts;
    };
  }

  -- The bet is filed: the user's bet on the colour is raised, or there is a new one.
  filed : Option BetPtr → ℕ → Reward → ℕ → World F → BetPtr × World F
  filed (some p) user color amount w =
      (p, record w { store = MemoryRepo.update_bet_amount p amount w.store })
  filed none user color amount w =
      let p = length w.store.heap in
      let b = new_bet (out.id_text w.next_id) (round_of w) user color amount w.clock in
      (
        p,
        record w {
          next_id = suc w.next_id;
          store = MemoryRepo.save_bet p (record (w.store) { heap = w.store.heap ++ b ∷ [] });
        },
      )

  unfoldable pub placed : ℕ → Reward → ℕ → World F → BetPtr × World F
  unfolding filed
  placed user color amount w =
      filed (MemoryRepo.get_user_bet (round_of w) user color w.store) user color amount w

  answer : BetPtr × World F → Result BetPtr × World F
  answer (p, w) = (ok p, w)

  -- What a bet leads to behind the local adapters, in the order of the checks.
  unfoldable pub local_outcome : ℕ → Reward → ℕ → World F → Result BetPtr × World F
  unfolding answer
  local_outcome user color amount w =
      if round_of w == ""
      then (err (wrapped "failed to get current round" (failure "no active round")), w)
      else if not (is_valid_color color)
      then (err (about "invalid color" (reward_name color)), w)
      else if not (accepting w)
      then (
        err (
            wrapped "failed to record bet in GMS" (failure "betting not allowed in current state")),
        charged user amount w,
      )
      else answer (placed user color amount (counted user amount (charged user amount w)))

  -- What it leads to behind the gRPC adapters.
  unfoldable pub grpc_outcome : ℕ → Reward → ℕ → World F → Result BetPtr × World F
  unfolding answer
  grpc_outcome user color amount w =
      if not (is_valid_color color)
      then (err (about "invalid color" (reward_name color)), w)
      else answer (
          placed user color amount (
            if accepting w && not (round_of w == "")
            then counted user amount (charged user amount w)
            else charged user amount w))

  pub place_bet-local :
      (user : ℕ) (color : Reward) (amount : ℕ) (w : World F)
      → place_bet float (services float out local) user color amount w
        ≡ local_outcome user color amount w
  unfolding place_bet local_current_round local_outcome local_record_bet Wallet.place_bet placed
  place_bet-local user color amount w = ground (arith, same_self (round_of w))

  pub place_bet-grpc :
      (user : ℕ) (color : Reward) (amount : ℕ) (w : World F)
      → place_bet float (services float out grpc) user color amount w
        ≡ grpc_outcome user color amount w
  unfolding place_bet grpc_current_round grpc_outcome grpc_record_bet Wallet.place_bet placed
  place_bet-grpc user color amount w =
      ground (arith, same_self (round_of w), eq_iff (round_of w) "")
