-- ===== src/Mail/Owned.antt =====
-- Lists of buffer indices of a2/sysproc.c: whose they are, and the messages in them.
use mathlib.Core.Path.{ap₂}
use operating_system_design.Prelude.{
  ℕ, ◌≡◌, ◌≢◌, refl, ap, ◌∙◌, List, [], ◌∷◌, ◌++◌, map, get_or, set, get_or-set_ne, Absent,
}

-- Each buffer of the list is addressed to `p`.
abbrev pub Own : List ℕ → ℕ → List ℕ → Type 0
Own to_pids p [] = Unit
Own to_pids p (x ∷ xs) = (get_or to_pids x 0 ≡ p) × Own to_pids p xs

-- The messages in the buffers of the list.
abbrev pub messages : List (List ℕ) → List ℕ → List (List ℕ)
messages buffers xs = map (λ i. get_or buffers i []) xs

pub Own-Absent :
    (tp : List ℕ) (p v : ℕ) (xs : List ℕ) → get_or tp v 0 ≢ p → Own tp p xs → Absent v xs
Own-Absent tp p v [] ne o = o
Own-Absent tp p v (x ∷ xs) ne o =
    (λ e. ne (ap (λ i. get_or tp i 0) e ∙ o.0), Own-Absent tp p v xs ne o.1)

pub Own-set :
    (tp : List ℕ) (p v a : ℕ) (xs : List ℕ) → Absent v xs → Own tp p xs → Own (set tp v a) p xs
Own-set tp p v a [] n o = o
Own-set tp p v a (x ∷ xs) n o = (get_or-set_ne tp v x a 0 n.0 ∙ o.0, Own-set tp p v a xs n.1 o.1)

pub messages-set :
    (bs : List (List ℕ)) (v : ℕ) (m : List ℕ) (xs : List ℕ)
    → Absent v xs
    → messages (set bs v m) xs ≡ messages bs xs
messages-set bs v m [] n = refl
messages-set bs v m (x ∷ xs) n =
    ap₂ ◌∷◌ (get_or-set_ne bs v x m [] n.0) (messages-set bs v m xs n.1)

pub messages-append :
    (bs : List (List ℕ)) (xs : List ℕ) (v : ℕ)
    → messages bs (xs ++ (v ∷ [])) ≡ messages bs xs ++ (get_or bs v [] ∷ [])
messages-append bs [] v = refl
messages-append bs (x ∷ xs) v = ap (◌∷◌ (get_or bs x [])) (messages-append bs xs v)

pub Own-append :
    (tp : List ℕ) (p : ℕ) (xs : List ℕ) (v : ℕ)
    → Own tp p xs
    → get_or tp v 0 ≡ p
    → Own tp p (xs ++ (v ∷ []))
Own-append tp p [] v o e = (e, o)
Own-append tp p (x ∷ xs) v o e = (o.0, Own-append tp p xs v o.1 e)
