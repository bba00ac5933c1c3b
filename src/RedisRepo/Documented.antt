-- ===== src/RedisRepo/Documented.antt =====
-- What the repository expects of a Redis server that answers, and of JSON and decimal texts.
use game_production.Common.{
  ℕ, suc, String, string_key, ◌==◌, ◌&&◌, List, [], ◌∷◌, ◌++◌, map, Option, none, some, ◌≡◌, ◌≢◌,
  ◌≤◌, length, ok, if◌then◌else◌,
}
use game_production.Bets.{Bet}
use game_production.RedisRepo.{
  Command, hset, expire, rpush, del, Reply, value, nil, Redis, BetTexts,
}

-- The hashes after some commands, by their keys and fields.
abbrev pub after_hash :
    List Command → (String → String → Option String) → String → String → Option String
after_hash [] h k f = h k f
after_hash (hset j g v ∷ cs) h k f =
    after_hash cs (λ i e. if j == i && g == e then some v else h i e) k f
after_hash (del j ∷ cs) h k f = after_hash cs (λ i e. if j == i then none else h i e) k f
after_hash (expire j ∷ cs) h k f = after_hash cs h k f
after_hash (rpush j v ∷ cs) h k f = after_hash cs h k f

-- The lists after some commands, by their keys.
abbrev pub after_list : List Command → (String → List String) → String → List String
after_list [] l k = l k
after_list (rpush j v ∷ cs) l k = after_list cs (λ i. if j == i then l i ++ v ∷ [] else l i) k
after_list (del j ∷ cs) l k = after_list cs (λ i. if j == i then [] else l i) k
after_list (expire j ∷ cs) l k = after_list cs l k
after_list (hset j g v ∷ cs) l k = after_list cs l k

abbrev pub reply_of : Option String → Reply String
reply_of none = nil
reply_of (some v) = value v

-- `hash` and `list` are what is stored. A pipeline or a command that gives no error has done what its
-- commands say; reads give no error.
pub record Answers {S : Type 0} (redis : Redis S) : Type 0 where
  pub hash : S → String → String → Option String
  pub list : S → String → List String
  pub written_hash :
      (cs : List Command) (s s' : S) (k f : String)
      → redis.exec cs s ≡ (ok tt, s')
      → hash s' k f ≡ after_hash cs (hash s) k f
  pub written_list :
      (cs : List Command) (s s' : S) (k : String)
      → redis.exec cs s ≡ (ok tt, s')
      → list s' k ≡ after_list cs (list s) k
  pub set_hash :
      (j g v : String) (s s' : S) (k f : String)
      → redis.h_set j g v s ≡ (ok tt, s')
      → hash s' k f ≡ (if j == k && g == f then some v else hash s k f)
  pub set_list :
      (j g v : String) (s s' : S) (k : String)
      → redis.h_set j g v s ≡ (ok tt, s')
      → list s' k ≡ list s k
  pub got : (k f : String) (s : S) → redis.h_get k f s ≡ reply_of (hash s k f)
  pub got_fields :
      (k : String) (fs : List String) (s : S) → redis.hm_get k fs s ≡ ok (map (hash s k) fs)
  pub popped_nil : (k : String) (n : ℕ) (s : S) → list s k ≡ [] → redis.l_pop_count k n s ≡ (nil, s)
  pub popped :
      (k : String) (n : ℕ) (s : S)
      → list s k ≢ []
      → (x : String) × (xs : List String) × (s' : S) × (redis.l_pop_count k (suc n) s
          ≡ (value (x ∷ xs), s'))
        × (length (x ∷ xs) ≤ suc n)
        × (list s k ≡ x ∷ xs ++ list s' k)
        × ((j : String) → j ≢ k → list s' j ≡ list s j)
        × ((j f : String) → hash s' j f ≡ hash s j f)

-- What json.Marshal writes is read back, and %d writes different numbers differently.
pub record Writes (texts : BetTexts) : Type 0 where
  pub read_back : (b : Bet) (t : String) → texts.marshal b ≡ ok t → texts.unmarshal t ≡ ok b
  pub decimal_differs : (m n : ℕ) → texts.decimal m ≡ texts.decimal n → m ≡ n
