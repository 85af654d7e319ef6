-- ===== src/Prelude/Window.antt =====
-- The items of an array at the indices `idx 0`, …, `idx (n - 1)`, for the circular buffers.
use Prim.Native.Nat.{ℕ, zero, suc, ◌+◌, ◌<◌}
use mathlib.Core.Path.{◌≡◌, refl, ap, ap₂}
use mathlib.Core.Logic.{◌≢◌}
use mathlib.Core.List.{List, [], ◌∷◌, ◌++◌}
use native.Mathlib.Omega.{arith}
use operating_system_design.Prelude.Lists.{length, get_or, set, get_or-set_ne}

abbrev pub window : (ℕ → ℕ) → ℕ → List ℕ → List ℕ
window idx zero xs = []
window idx (suc n) xs = get_or xs (idx 0) 0 ∷ window (λ k. idx (k + 1)) n xs

pub length-window : (idx : ℕ → ℕ) (n : ℕ) (xs : List ℕ) → length (window idx n xs) ≡ n
length-window idx zero xs = refl
length-window idx (suc n) xs = ap suc (length-window (λ k. idx (k + 1)) n xs)

pub window_snoc :
    (idx : ℕ → ℕ) (n : ℕ) (xs : List ℕ)
    → window idx (suc n) xs ≡ window idx n xs ++ (get_or xs (idx n) 0 ∷ [])
window_snoc idx zero xs = refl
window_snoc idx (suc n) xs =
    let e : n + 1 ≡ suc n = omega arith in
    ap (◌∷◌ (get_or xs (idx 0) 0)) (rw (← e) (window_snoc (λ k. idx (k + 1)) n xs))

pub window-set :
    (idx : ℕ → ℕ) (n : ℕ) (xs : List ℕ) (i v : ℕ)
    → ((k : ℕ) → k < n → i ≢ idx k)
    → window idx n (set xs i v) ≡ window idx n xs
window-set idx zero xs i v h = refl
window-set idx (suc n) xs i v h =
    ap₂ ◌∷◌ (get_or-set_ne xs i (idx 0) v 0 (h 0 (omega arith)))
      (window-set (λ k. idx (k + 1)) n xs i v (λ k lt. h (k + 1) (omega arith)))

pub window_ext :
    (idx idx' : ℕ → ℕ) (n : ℕ) (xs : List ℕ)
    → ((k : ℕ) → k < n → idx k ≡ idx' k)
    → window idx n xs ≡ window idx' n xs
window_ext idx idx' zero xs h = refl
window_ext idx idx' (suc n) xs h =
    ap₂ ◌∷◌ (ap (λ i. get_or xs i 0) (h 0 (omega arith)))
      (window_ext (λ k. idx (k + 1)) (λ k. idx' (k + 1)) n xs (λ k lt. h (k + 1) (omega arith)))
