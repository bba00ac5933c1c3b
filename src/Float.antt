-- ===== src/Float.antt =====
-- Go's float64, which the models take as a parameter: a type, the conversions from and to int64, the
-- sum, and that a float64 holds every whole number up to 2 ^ 53 exactly.
use game_production.Common.{ℕ, ◌≤◌, ◌≡◌}

abbrev pub two53 : ℕ
two53 = 9007199254740992

pub record Float64 (F : Type 0) : Type 0 where
  pub of_int64 : ℕ → F
  pub to_int64 : F → ℕ
  pub add : F → F → F
  pub exact : (n : ℕ) → n ≤ two53 → to_int64 (of_int64 n) ≡ n
