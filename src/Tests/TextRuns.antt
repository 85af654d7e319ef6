-- ===== src/Tests/TextRuns.antt =====
-- Patterns, path names and numbers.
use mathlib.Core.Logic.{◌↔◌}
use operating_system_design.Prelude.{
  ℕ, ◌≡◌, ◌⊎◌, refl, true, List, [], ◌∷◌, replicate, none, some, arith,
}
use operating_system_design.Grep.{match}
use operating_system_design.Grep.Language.{Found, match_iff}
use operating_system_design.Numeral.{printint, atoi}
use operating_system_design.Numeral.RoundTrip.{atoi-printint}
use operating_system_design.PathName.{skipelem}
use operating_system_design.PathName.Components.{components, Skipped, skipelem_lem}

-- `a*b` in `cab`
match_iff_example :
    (match (97 ∷ (42 ∷ (98 ∷ []))) (99 ∷ (97 ∷ (98 ∷ []))) ≡ true)
    ↔ Found (97 ∷ (42 ∷ (98 ∷ []))) (99 ∷ (97 ∷ (98 ∷ [])))
match_iff_example = match_iff (97 ∷ (42 ∷ (98 ∷ []))) (99 ∷ (97 ∷ (98 ∷ [])))

atoi-printint_example : atoi (printint 1203 10 true) ≡ 1203
atoi-printint_example = atoi-printint 1203 refl

-- `//a/bc`
abbrev two_components : List ℕ
two_components = 47 ∷ (47 ∷ (97 ∷ (47 ∷ (98 ∷ (99 ∷ [])))))

skipelem_example :
    ((components two_components ≡ []) × (skipelem two_components (replicate 14 0) ≡ none))
    ⊎ ((c path' name' : List ℕ) × (skipelem two_components (replicate 14 0) ≡ some (path', name'))
        × Skipped two_components c path' name')
skipelem_example = skipelem_lem two_components (replicate 14 0) refl (
  (λ e. absurd (omega (arith, e))),
  (
    (λ e. absurd (omega (arith, e))),
    (
      (λ e. absurd (omega (arith, e))),
      (
        (λ e. absurd (omega (arith, e))),
        ((λ e. absurd (omega (arith, e))), ((λ e. absurd (omega (arith, e))), tt)),
      ),
    ),
  ),
)
