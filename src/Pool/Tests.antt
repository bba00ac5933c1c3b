-- ===== src/Pool/Tests.antt =====
-- A pool of two places under more jobs than that.
use mathlib.Core.List.{Perm}
use game_production.Common.{ℕ, List, [], ◌∷◌, ◌++◌, arith}
use game_production.Pool.Defs.{Pool, new_pool, submit_all}
use game_production.Pool.Jobs.{
  Op, submits, takes, run, submitted, all_jobs, run-all_jobs, Fits, run-Fits, Split,
  submit_all-Split,
}

abbrev small_pool : Pool ℕ
small_pool = new_pool 2

abbrev busy : List (Op ℕ)
busy = submits 1 ∷ submits 2 ∷ submits 3 ∷ takes ∷ submits 4 ∷ takes ∷ []

run-all_jobs_example : Perm (all_jobs (run busy small_pool)) (submitted busy ++ all_jobs small_pool)
run-all_jobs_example = run-all_jobs busy small_pool

run-Fits_test : Fits (run busy small_pool)
unfolding new_pool
run-Fits_test = run-Fits busy small_pool (omega arith)

submit_all-Split_test : Split (1 ∷ 2 ∷ 3 ∷ []) small_pool (submit_all (1 ∷ 2 ∷ 3 ∷ []) small_pool)
unfolding new_pool
submit_all-Split_test = submit_all-Split (1 ∷ 2 ∷ 3 ∷ []) small_pool (omega arith)
