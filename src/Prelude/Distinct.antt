-- ===== src/Prelude/Distinct.antt =====
-- Lists of numbers in which none stands twice.
use Prim.Native.Nat.{ℕ}
use mathlib.Core.Path.{sym}
use mathlib.Core.Logic.{◌≢◌}
use mathlib.Core.List.{List, [], ◌∷◌, ◌++◌}

abbrev pub Absent : ℕ → List ℕ → Type 0
Absent v [] = Unit
Absent v (x ∷ xs) = (v ≢ x) × Absent v xs

abbrev pub Nodup : List ℕ → Type 0
Nodup [] = Unit
Nodup (x ∷ xs) = Absent x xs × Nodup xs

Absent-append : (y v : ℕ) (xs : List ℕ) → y ≢ v → Absent y xs → Absent y (xs ++ (v ∷ []))
Absent-append y v [] ne a = (ne, a)
Absent-append y v (x ∷ xs) ne a = (a.0, Absent-append y v xs ne a.1)

pub Nodup-append : (v : ℕ) (xs : List ℕ) → Absent v xs → Nodup xs → Nodup (xs ++ (v ∷ []))
Nodup-append v [] a n = (a, n)
Nodup-append v (x ∷ xs) a n =
    (Absent-append x v xs (λ e. a.0 (sym e)) n.0, Nodup-append v xs a.1 n.1)
