-- ===== src/Pool/Defs.antt =====
-- A bounded job queue with workers, as the state machine's and the gRPC client's: a job that finds
-- the queue full gets a goroutine of its own.
use game_production.Common.{ℕ, List, [], ◌∷◌, ◌++◌, ltb, length, if◌then◌else◌}

pub record Pool (J : Type 0) : Type 0 where
  pub capacity : ℕ
  pub queue : List J  -- the channel's buffer, oldest first
  pub spawned : List J  -- jobs that got a goroutine
  pub taken : List J  -- jobs that a worker has received

module _ {J : Type 0} where
  unfoldable pub new_pool : ℕ → Pool J
  new_pool capacity = record { capacity = capacity; queue = []; spawned = []; taken = [] }

  -- select { case queue <- job: default: go job() }
  unfoldable pub submit : J → Pool J → Pool J
  submit j p =
      if ltb (length p.queue) p.capacity
      then record p { queue = p.queue ++ j ∷ [] }
      else record p { spawned = p.spawned ++ j ∷ [] }

  unfoldable pub submit_all : List J → Pool J → Pool J
  submit_all [] p = p
  submit_all (j ∷ js) p = submit_all js (submit j p)

  take_front : List J → Pool J → Pool J
  take_front [] p = p
  take_front (j ∷ js) p = record p { queue = js; taken = p.taken ++ j ∷ [] }

  -- A worker receives from the channel; on an empty one it waits.
  unfoldable pub worker_take : Pool J → Pool J
  unfolding take_front
  worker_take p = take_front p.queue p
