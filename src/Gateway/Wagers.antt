-- ===== src/Gateway/Wagers.antt =====
-- Requests of the players in a whole game server.
use game_production.Common.{
  ℕ, ◌<◌, ◌&&◌, String, string_key, nat_key, concat, eqb, ◌==◌, ◌≡◌, ◌⊎◌, refl, none, some, Error,
  Result, ok, err, Exec, arith, if◌then◌else◌, two64, add64, sub64, inl, inr,
}
use game_production.Proto.{Reward, same_reward, success, internal_error}
use game_production.Float.{Float64}
use game_production.Bets.{BetPtr, deref}
use game_production.MemoryRepo.Stakes.{InHeap, stake}
use game_production.Wallet.{get_balance}
use game_production.Gs.{GetStateRsp, place_bet, handle_place_bet, local_get_state, grpc_get_state}
use game_production.World.{World, Outside, Deployment, local, grpc, services}
use game_production.World.Outcomes.{round_of}
use game_production.World.Betting.{place_bet_books}
use game_production.Gateway.Requests.{
  RequestEnvelope, BetPayload, Texts, Reply, bet_reply, GsService, reward_of_name, handle_message,
  handle_color_game,
}

-- A message that HandleMessage answers with an error changes nothing, whatever the game server is: the
-- errors come before the game server is called.
pub refused_message :
    {S : Type 0} (texts : Texts) (svc : GsService S) (user : ℕ) (message : String) (s : S)
    (x : Error) (s' : S)
    → handle_message texts svc user message s ≡ (err x, s')
    → s' ≡ s
unfolding handle_message handle_color_game
refused_message texts svc user message s x s' e = ground arith

module _ {F : Type 0} (float : Float64 F) (out : Outside F) (d : Deployment) (texts : Texts) where
  abbrev get_state_at : Deployment → ℕ → Exec (World F) GetStateRsp
  get_state_at local = local_get_state float (services float out local)
  get_state_at grpc = grpc_get_state float (services float out grpc)

  abbrev pub gs_service : GsService (World F)
  gs_service = record {
    place_bet = handle_place_bet float (services float out d);
    get_state = get_state_at d;
  }

  -- The message is a bet on a colour of the enumeration.
  pub record IsBet (message : String) (color : Reward) (amount : ℕ) : Type 0 where
    pub envelope : RequestEnvelope
    pub payload : BetPayload
    pub parsed : texts.parse_envelope message ≡ ok envelope
    pub game_named : envelope.game ≡ "color_game"
    pub command_named : envelope.command ≡ "ColorGamePlaceBetREQ"
    pub payload_parsed : texts.parse_bet envelope.body ≡ ok payload
    pub color_named : reward_of_name (concat "REWARD_" (texts.to_upper payload.color)) ≡ some color
    pub amount_named : payload.amount ≡ amount

  bet_message :
      (user : ℕ) (message : String) (color : Reward) (amount : ℕ) (w w' : World F)
      (r : Result BetPtr)
      → IsBet message color amount
      → place_bet float (services float out d) user color amount w ≡ (r, w')
      → handle_message texts gs_service user message w ≡ (
        ok (elim r [
          | ok p ↦ bet_reply success (deref w'.store.heap p).bet_id none
          | err e ↦ bet_reply internal_error "" (some e)
        ]),
        w',
      )
  unfolding handle_message handle_color_game handle_place_bet
  bet_message user message color amount w w' (ok p) b e =
      rw
        (
          b.parsed, b.game_named, b.command_named, b.payload_parsed, b.color_named, b.amount_named,
          e,
        )
        refl
  bet_message user message color amount w w' (err x) b e =
      rw
        (
          b.parsed, b.game_named, b.command_named, b.payload_parsed, b.color_named, b.amount_named,
          e,
        )
        refl

  -- An answer with the code INTERNAL_ERROR, or one with the code SUCCESS after which the stakes and
  -- balances of `w` have changed by the bet.
  abbrev pub BetAnswered : ℕ → Reward → ℕ → World F → ℕ → Reward → Result Reply × World F → Type 0
  BetAnswered user color amount w v c x =
      ((e : Error) × (x.0 ≡ ok (bet_reply internal_error "" (some e))))
      ⊎ ((id : String) × (x.0 ≡ ok (bet_reply success id none))
          × (stake (round_of float out w) v c x.1.store ≡ (
              if v == user && same_reward c color
              then add64 (stake (round_of float out w) user color w.store) amount
              else stake (round_of float out w) v c w.store))
          × (get_balance v x.1.wallet ≡ (
              if eqb user v
              then sub64 (get_balance user w.wallet) amount
              else get_balance v w.wallet)))

  -- A request of a player to bet on a colour of the enumeration, with an amount below 2 ^ 64
  -- and the round's pointers in the heap of bets, is answered in either deployment. If the code is SUCCESS, the amount has left the player's balance and
  -- is on the player's stake on the colour in the current round (both modulo 2 ^ 64), and no other
  -- balance and no other stake of the round has changed; any other answer has the code
  -- INTERNAL_ERROR and an empty bet ID.
  pub bet_message_books :
      (user : ℕ) (message : String) (color : Reward) (amount : ℕ) (w : World F) (v : ℕ) (c : Reward)
      → IsBet message color amount
      → amount < two64
      → InHeap (round_of float out w) w.store
      → BetAnswered user color amount w v c (handle_message texts gs_service user message w)
  bet_message_books user message color amount w v c b small h =
      go (place_bet float (services float out d) user color amount w) refl
    where
      go :
          (x : Result BetPtr × World F)
          → place_bet float (services float out d) user color amount w ≡ x
          → BetAnswered user color amount w v c (handle_message texts gs_service user message w)
      go (err x, w') e = rw (bet_message user message color amount w w' (err x) b e) (inl (x, refl))
      go (ok p, w') e =
          let books = place_bet_books float out d user color amount w p w' v c small h e in
          rw (bet_message user message color amount w w' (ok p) b e)
            (inr ((deref w'.store.heap p).bet_id, refl, books.0, books.1))
