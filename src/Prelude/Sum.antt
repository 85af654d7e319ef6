-- ===== src/Prelude/Sum.antt =====
-- A number for each item of a list, added up.
use Prim.Native.Nat.{ℕ, zero, suc, ◌+◌, ◌<◌, ◌≤◌}
use mathlib.Core.Path.{◌≡◌}
use mathlib.Core.List.{List, [], ◌∷◌}
use native.Mathlib.Omega.{arith}
use operating_system_design.Prelude.Lists.{length, get_or, set}

module _ {ℓ} {A : Type ℓ} (weight : A → ℕ) where
  abbrev pub total : List A → ℕ
  total [] = 0
  total (x ∷ xs) = weight x + total xs

  pub total-set :
      (i : ℕ) (xs : List A) (x d : A)
      → i < length xs
      → total (set xs i x) + weight (get_or xs i d) ≡ total xs + weight x
  total-set i [] x d lt = absurd (omega arith)
  total-set zero (y ∷ xs) x d lt = omega arith
  total-set (suc i) (y ∷ xs) x d lt = omega (arith, total-set i xs x d (omega arith))

  pub total_part : (i : ℕ) (xs : List A) (d : A) → i < length xs → weight (get_or xs i d) ≤ total xs
  total_part i [] d lt = absurd (omega arith)
  total_part zero (y ∷ xs) d lt = omega arith
  total_part (suc i) (y ∷ xs) d lt = omega (arith, total_part i xs d (omega arith))
