-- ===== src/Gms/Counting.antt =====
-- The bets that the GMS counts.
use game_production.Common.{
  ℕ, suc, ◌+◌, ◌∷◌, [], List, String, string_key, nat_key, ◌==◌, ◌≡◌, ◌≢◌, ◌↔◌, Bool, true, false,
  not, refl, sym, ap, ◌∙◌, ◌&&◌, ◌||◌, Bool-cases, inl, inr, lookup, lookup-insert, Error, ok, err,
  arith, if◌then◌else◌, eq_iff,
}
use game_production.Clock.{Time}
use game_production.Float.{Float64}
use game_production.Machine.{can_accept, get_current_round}
use game_production.Gms.Defs.{
  Gms, Counts, count_of, players_of, amount_of, add_bet, increment_bet_count, is_in, no_counts,
}

module _ {F : Type 0} (float : Float64 F) where
  -- A counted bet adds one to its round's count and its amount to the round's sum, and changes no
  -- other round.
  add_bet_lem :
      (round : String) (user : ℕ) (amount : F) (c : Counts F) (r : String)
      → (count_of float r (add_bet float round user amount c)
          ≡ (if round == r then suc (count_of float round c) else count_of float r c))
        × (amount_of float r (add_bet float round user amount c) ≡ (
            if round == r then float.add (amount_of float round c) amount else amount_of float r c))
  unfolding add_bet count_of amount_of
  add_bet_lem round user amount c r = ground (
    arith,
    eq_iff round r,
    lookup-insert round r (suc (count_of float round c)) c.bet_count,
    lookup-insert round r (float.add (amount_of float round c) amount) c.bet_amount,
  )

  -- Who is a player of a round after a counted bet: the bettor, and who was one before.
  add_bet_players :
      (round : String) (user : ℕ) (amount : F) (c : Counts F) (r : String) (v : ℕ)
      → is_in v (players_of float r (add_bet float round user amount c)) ≡ (
          if round == r
          then user == v || is_in v (players_of float r c)
          else is_in v (players_of float r c))
  unfolding add_bet players_of is_in
  add_bet_players round user amount c r v = ground (
    arith,
    eq_iff round r,
    lookup-insert round r
        (if is_in user (players_of float round c)
          then players_of float round c
          else user ∷ players_of float round c)
        c.bet_players,
  )

  -- The GMS counts a bet exactly if its state machine accepts bets and the round is the current one.
  pub increment_ok_iff :
      (now : Time) (round : String) (user : ℕ) (amount : F) (g : Gms F)
      → ((increment_bet_count float now round user amount g).0 ≡ ok tt) ↔ (
          (can_accept now g.machine ≡ true)
          × (round ≢ "")
          × ((get_current_round now g.machine).round_id ≡ round))
  unfolding increment_bet_count
  increment_ok_iff now round user amount g =
      let current = (get_current_round now g.machine).round_id in
      let named = eq_iff current "" in
      let same = eq_iff current round in
      (
        λ e. ground (arith, e, named, same),
        λ (may, named_round, e). ground (arith, may, named_round, e, named, same),
      )

  -- A bet that it refuses changes nothing.
  increment_refused :
      (now : Time) (round : String) (user : ℕ) (amount : F) (g : Gms F) (x : Error)
      → (increment_bet_count float now round user amount g).0 ≡ err x
      → (increment_bet_count float now round user amount g).1 ≡ g
  unfolding increment_bet_count
  increment_refused now round user amount g x e = ground arith

  -- A request to count a bet, at a time.
  pub record Request : Type 0 where
    pub now : Time
    pub round : String
    pub user : ℕ
    pub amount : F

  -- Requests one after another; the state machine `before` each may be any.
  pub counted : List (Request × Gms F) → Counts F → Counts F
  counted [] c = c
  counted ((q, g) ∷ rest) c =
      counted rest
        (increment_bet_count float q.now q.round q.user q.amount (record g { counts = c })).1.counts

  -- The request is one that the GMS is to count: its state machine accepts bets, and in this round.
  abbrev pub is_due : Request × Gms F → Bool
  is_due (q, g) =
      can_accept q.now g.machine
      && not (q.round == "")
      && (get_current_round q.now g.machine).round_id == q.round

  abbrev pub bets_of : String → List (Request × Gms F) → ℕ
  bets_of r [] = 0
  bets_of r ((q, g) ∷ rest) = (if is_due (q, g) && q.round == r then 1 else 0) + bets_of r rest

  -- The amounts of a round are added in the order of the requests, from `total` on.
  abbrev pub amount_from : F → String → List (Request × Gms F) → F
  amount_from total r [] = total
  amount_from total r ((q, g) ∷ rest) =
      amount_from (if is_due (q, g) && q.round == r then float.add total q.amount else total) r rest

  abbrev pub has_bet : ℕ → String → List (Request × Gms F) → Bool
  has_bet v r [] = false
  has_bet v r ((q, g) ∷ rest) = (is_due (q, g) && q.round == r && q.user == v) || has_bet v r rest

  abbrev pub NoRepeats : List ℕ → Type 0
  NoRepeats [] = Unit
  NoRepeats (u ∷ l) = (is_in u l ≡ false) × NoRepeats l

  add_bet-players_of :
      (round : String) (user : ℕ) (amount : F) (c : Counts F) (r : String)
      → players_of float r (add_bet float round user amount c) ≡ (
          if round == r
          then (if is_in user (players_of float r c)
              then players_of float r c
              else user ∷ players_of float r c)
          else players_of float r c)
  unfolding add_bet players_of
  add_bet-players_of round user amount c r = ground (
    arith,
    eq_iff round r,
    lookup-insert round r
        (if is_in user (players_of float round c)
          then players_of float round c
          else user ∷ players_of float round c)
        c.bet_players,
  )

  add_bet-NoRepeats :
      (round : String) (user : ℕ) (amount : F) (c : Counts F) (r : String)
      → NoRepeats (players_of float r c)
      → NoRepeats (players_of float r (add_bet float round user amount c))
  add_bet-NoRepeats round user amount c r distinct =
      rw (add_bet-players_of round user amount c r) (elim (Bool-cases (round == r)) [
        | inr other ↦ rw other distinct
        | inl same ↦ rw same (elim (Bool-cases (is_in user (players_of float r c))) [
          | inl known ↦ rw known distinct
          | inr fresh ↦ rw fresh (fresh, distinct)
        ])
      ])

  increment-counts :
      (q : Request) (g : Gms F) (c : Counts F)
      → (increment_bet_count float q.now q.round q.user q.amount (record g { counts = c })).1.counts
        ≡ (if is_due (q, g) then add_bet float q.round q.user q.amount c else c)
  unfolding increment_bet_count
  increment-counts q g c =
      let current = (get_current_round q.now g.machine).round_id in
      ground (arith, eq_iff current "", eq_iff current q.round, eq_iff q.round "")

  -- What the counts of a round are after the requests, from the counts before.
  pub record CountedFrom (rs : List (Request × Gms F)) (c d : Counts F) (r : String) : Type 0 where
    pub count : count_of float r d ≡ bets_of r rs + count_of float r c
    pub amount : amount_of float r d ≡ amount_from (amount_of float r c) r rs
    pub players :
        (v : ℕ)
        → is_in v (players_of float r d) ≡ (has_bet v r rs || is_in v (players_of float r c))
    pub no_repeats : NoRepeats (players_of float r c) → NoRepeats (players_of float r d)

  -- A request changes the counts of a round as `d` says, before the others.
  first_counted :
      (q : Request) (g : Gms F) (rest : List (Request × Gms F)) (c c1 d : Counts F) (r : String)
      → c1 ≡ (if is_due (q, g) then add_bet float q.round q.user q.amount c else c)
      → CountedFrom rest c1 d r
      → CountedFrom ((q, g) ∷ rest) c d r
  first_counted q g rest c c1 d r new later = elim (Bool-cases (is_due (q, g))) [
    | inr not_due ↦
        let same : c1 ≡ c = new ∙ rw not_due refl in
        record {
          count = ground (arith, not_due, later.count, ap (count_of float r) same);
          amount = rw (not_due, sym same) later.amount;
          players = λ v. rw (not_due, sym same) (later.players v);
          no_repeats = λ distinct. later.no_repeats (rw same distinct);
        }
    | inl due ↦
        let same : c1 ≡ add_bet float q.round q.user q.amount c = new ∙ rw due refl in
        let total = add_bet_lem q.round q.user q.amount c r in
        record {
          count =
              ground
                (arith, due, later.count, ap (count_of float r) same, total.0, eq_iff q.round r);
          amount =
              later.amount
              ∙ ap (λ x. amount_from x r rest)
                  (ap (amount_of float r) same ∙ ground (arith, due, total.1, eq_iff q.round r));
          players = λ v. ground (
            arith,
            due,
            later.players v,
            ap (λ x. is_in v (players_of float r x)) same,
            add_bet_players q.round q.user q.amount c r v,
          );
          no_repeats = λ distinct.
              later.no_repeats (rw same (add_bet-NoRepeats q.round q.user q.amount c r distinct));
        }
  ]

  counted_from :
      (rs : List (Request × Gms F)) (c : Counts F) (r : String) → CountedFrom rs c (counted rs c) r
  unfolding counted
  counted_from [] c r = record {
    count = omega arith;
    amount = refl;
    players = λ v. refl;
    no_repeats = λ distinct. distinct;
  }
  counted_from ((q, g) ∷ rest) c r =
      let c1 : Counts F =
        (increment_bet_count float q.now q.round q.user q.amount
          (record g { counts = c })).1.counts in
      first_counted q g rest c c1 (counted rest c1) r (increment-counts q g c)
        (counted_from rest c1 r)

  -- After any requests to count bets, whatever the state machine was at each, every round has as many bets as
  -- there were requests of it while it was the current round and took bets, the sum of their amounts, added in
  -- their order, and as players exactly the users who made them, each once.
  pub requests_counted :
      (rs : List (Request × Gms F)) (r : String)
      → (count_of float r (counted rs no_counts) ≡ bets_of r rs)
        × (amount_of float r (counted rs no_counts) ≡ amount_from (float.of_int64 0) r rs)
        × ((v : ℕ) → is_in v (players_of float r (counted rs no_counts)) ≡ has_bet v r rs)
        × NoRepeats (players_of float r (counted rs no_counts))
  unfolding no_counts count_of amount_of players_of lookup is_in
  requests_counted rs r =
      let h = counted_from rs no_counts r in
      (
        ground (arith, h.count),
        ground (arith, h.amount),
        λ v. ground (arith, h.players v),
        h.no_repeats tt,
      )
