-- ===== src/Mail/Ring.antt =====
-- The ring of indices of one pid in a2/sysproc.c: its row of `queue`, `head` and `tail`.
use mathlib.Core.Path.{ap₂}
use operating_system_design.Prelude.{
  ℕ, suc, ◌+◌, ◌-◌, ◌%◌, ◌<◌, ◌≡◌, ◌≢◌, sym, ap, ◌∙◌, List, [], ◌∷◌, ◌++◌, arith, length, get_or,
  set, window, window_snoc, window-set, window_ext, get_or-set_self,
}
use operating_system_design.Mail.{max_queue_elements}

abbrev pub count : ℕ → ℕ → ℕ
count head tail = (tail + max_queue_elements - head) % max_queue_elements

-- The indices queued, oldest first.
unfoldable pub items : List ℕ → ℕ → ℕ → List ℕ
items row head tail = window (λ k. (head + k) % max_queue_elements) (count head tail) row

pub items-push :
    (row : List ℕ) (head tail v : ℕ)
    → length row ≡ max_queue_elements
    → head < max_queue_elements
    → tail < max_queue_elements
    → count head tail + 1 < max_queue_elements
    → items (set row tail v) head ((tail + 1) % max_queue_elements)
      ≡ items row head tail ++ (v ∷ [])
unfolding items
items-push row head tail v full h t room =
    let idx = λ (k : ℕ). (head + k) % max_queue_elements in
    let n = count head tail in
    let more : count head ((tail + 1) % max_queue_elements) ≡ suc n = omega arith in
    let spot : tail ≡ idx n = omega arith in
    let inside : tail < length row = omega arith in
    let away = λ (k : ℕ) (lt : k < n). apart k lt in
    ap (λ m. window idx m (set row tail v)) more
    ∙ window_snoc idx n (set row tail v)
    ∙ ap₂ (λ xs x. xs ++ (x ∷ [])) (window-set idx n row tail v away)
        (ap (λ j. get_or (set row tail v) j 0) (sym spot) ∙ get_or-set_self row tail v 0 inside)
  where
    apart : (k : ℕ) → k < count head tail → tail ≢ (head + k) % max_queue_elements
    apart k lt = omega (arith, h, t)

pub items-pop :
    (row : List ℕ) (head tail : ℕ)
    → head < max_queue_elements
    → tail < max_queue_elements
    → head ≢ tail
    → items row head tail ≡ get_or row head 0 ∷ items row ((head + 1) % max_queue_elements) tail
unfolding items
items-pop row head tail h t ne =
    let idx = λ (k : ℕ). (head + k) % max_queue_elements in
    let next = (head + 1) % max_queue_elements in
    let m = count next tail in
    let more : count head tail ≡ suc m = omega arith in
    let first : (head + 0) % max_queue_elements ≡ head = omega arith in
    ap (λ k. window idx k row) more
    ∙ ap₂ (λ i xs. get_or row i 0 ∷ xs) first
        (window_ext (λ k. idx (k + 1)) (λ k. (next + k) % max_queue_elements) m row
          (λ k lt. omega arith))

pub items_empty : (row : List ℕ) (head : ℕ) → head < max_queue_elements → items row head head ≡ []
unfolding items
items_empty row head h =
    let e : count head head ≡ 0 = omega arith in
    ap (λ n. window (λ k. (head + k) % max_queue_elements) n row) e

-- A ring with 499 indices looks empty after one more.
pub items_overflow :
    (row : List ℕ) (head tail : ℕ)
    → head < max_queue_elements
    → tail < max_queue_elements
    → count head tail + 1 ≡ max_queue_elements
    → items row head ((tail + 1) % max_queue_elements) ≡ []
unfolding items
items_overflow row head tail h t last =
    let e : count head ((tail + 1) % max_queue_elements) ≡ 0 = omega arith in
    ap (λ n. window (λ k. (head + k) % max_queue_elements) n row) e
