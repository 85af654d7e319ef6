-- ===== src/Prelude/Layout.antt =====
-- Little-endian words among the bytes of a block or of memory.
use Prim.Native.Nat.{ℕ, zero, suc, ◌+◌, ◌*◌, ◌/◌, ◌%◌, ◌^◌, ◌<◌}
use mathlib.Core.Path.{◌≡◌, refl, sym, ap, ◌∙◌}
use mathlib.Core.List.{List, [], ◌∷◌, ◌++◌}
use native.Mathlib.Omega.{arith}
use operating_system_design.Prelude.Lists.{length, get_or}

-- A little-endian word.
abbrev pub get32 : (ℕ → ℕ) → ℕ → ℕ
get32 bytes o = bytes o + 2 ^ 8 * bytes (o + 1) + 2 ^ 16 * bytes (o + 2) + 2 ^ 24 * bytes (o + 3)

abbrev pub bytes32 : ℕ → List ℕ
bytes32 v = v % 256 ∷ (v / 2 ^ 8 % 256 ∷ (v / 2 ^ 16 % 256 ∷ (v / 2 ^ 24 % 256 ∷ [])))

unfoldable pub words : List ℕ → List ℕ
words [] = []
words (v ∷ vs) = bytes32 v ++ words vs

unfoldable pub get_words : ℕ → (ℕ → ℕ) → ℕ → List ℕ
get_words zero bytes o = []
get_words (suc n) bytes o = get32 bytes o ∷ get_words n bytes (o + 4)

abbrev pub AreWords : List ℕ → Type 0
AreWords [] = Unit
AreWords (v ∷ vs) = (v < 2 ^ 32) × AreWords vs

pub word :
    (v : ℕ)
    → v < 2 ^ 32
    → v % 256
        + 2 ^ 8 * (v / 2 ^ 8 % 256)
        + 2 ^ 16 * (v / 2 ^ 16 % 256)
        + 2 ^ 24 * (v / 2 ^ 24 % 256)
      ≡ v
word v h = omega (arith, h)

pub get_words-words :
    (vs : List ℕ) (n : ℕ) (bytes : ℕ → ℕ) (o : ℕ)
    → length vs ≡ n
    → AreWords vs
    → ((i : ℕ) → i < 4 * length vs → bytes (o + i) ≡ get_or (words vs) i 0)
    → get_words n bytes o ≡ vs
unfolding get_words words
get_words-words [] zero bytes o e w h = refl
get_words-words [] (suc n) bytes o e w h = absurd (omega (arith, e))
get_words-words (v ∷ vs) zero bytes o e w h = absurd (omega (arith, e))
get_words-words (v ∷ vs) (suc n) bytes o e w h =
    let first : bytes o ≡ v % 256 = ap bytes (omega arith) ∙ h 0 (omega arith) in
    let rest =
      get_words-words vs n bytes (o + 4) (omega (arith, e)) w.1
        (λ i lt. ap bytes (omega arith) ∙ h (suc (suc (suc (suc i)))) (omega arith)) in
    rw (first, h 1 (omega arith), h 2 (omega arith), h 3 (omega arith), word v w.0, rest) refl

pub length-words : (vs : List ℕ) → length (words vs) ≡ 4 * length vs
unfolding words
length-words [] = refl
length-words (v ∷ vs) = omega (arith, length-words vs)

pub get_words_ext :
    (n : ℕ) (bytes bytes' : ℕ → ℕ) (o : ℕ)
    → ((i : ℕ) → i < 4 * n → bytes (o + i) ≡ bytes' (o + i))
    → get_words n bytes o ≡ get_words n bytes' o
unfolding get_words
get_words_ext zero bytes bytes' o h = refl
get_words_ext (suc n) bytes bytes' o h =
    let z : o ≡ o + 0 = omega arith in
    let first : bytes o ≡ bytes' o = ap bytes z ∙ h 0 (omega arith) ∙ ap bytes' (sym z) in
    rw (first, h 1 (omega arith), h 2 (omega arith), h 3 (omega arith))
      (ap (◌∷◌ (get32 bytes' o)) (
        get_words_ext n bytes bytes' (o + 4) (λ i lt.
          let e : o + 4 + i ≡ o + (4 + i) = omega arith in
          ap bytes e ∙ h (4 + i) (omega arith) ∙ ap bytes' (sym e))))
