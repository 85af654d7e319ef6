-- ===== src/Inode/Splice.antt =====
-- Bytes written into a block, for the copies into buffers of xv6A1/fs.c.
use native.Mathlib.Decide.{dec_lt}
use operating_system_design.Prelude.{
  ℕ, zero, suc, ◌+◌, ◌-◌, ◌<◌, ◌≤◌, ◌≡◌, refl, sym, ap, ◌∙◌, ◌&&◌, List, [], ◌∷◌, length, get_or,
  take, drop, ltb, leb, if◌then◌else◌, arith, inl, inr, ◌⊎◌, lt→ltb, le→leb, gt→leb,
}
use operating_system_design.Inode.{splice}

pub length-take : (n : ℕ) (xs : List ℕ) → n ≤ length xs → length (take n xs) ≡ n
length-take zero xs h = refl
length-take (suc n) [] h = absurd (omega arith)
length-take (suc n) (x ∷ xs) h = ap suc (length-take n xs (omega arith))

pub length-drop : (n : ℕ) (xs : List ℕ) → length (drop n xs) ≡ length xs - n
length-drop zero xs = omega arith
length-drop (suc n) [] = omega arith
length-drop (suc n) (x ∷ xs) = omega (arith, length-drop n xs)

get_or-take : (n i : ℕ) (xs : List ℕ) → i < n → get_or (take n xs) i 0 ≡ get_or xs i 0
get_or-take zero i xs h = absurd (omega arith)
get_or-take (suc n) i [] h = refl
get_or-take (suc n) zero (x ∷ xs) h = refl
get_or-take (suc n) (suc i) (x ∷ xs) h = get_or-take n i xs (omega arith)

get_or-drop : (n i : ℕ) (xs : List ℕ) → get_or (drop n xs) i 0 ≡ get_or xs (n + i) 0
get_or-drop zero i xs = ap (λ k. get_or xs k 0) (omega arith)
get_or-drop (suc n) i [] = refl
get_or-drop (suc n) i (x ∷ xs) =
    let e : suc n + i ≡ suc (n + i) = omega arith in rw e (get_or-drop n i xs)

pub splice_in :
    (xs : List ℕ) (o : ℕ) (f : ℕ → ℕ) (i : ℕ)
    → o ≤ i
    → i < o + length xs
    → splice xs o f i ≡ get_or xs (i - o) 0
splice_in xs o f i low high = rw (le→leb o i low, lt→ltb i (o + length xs) high) refl

pub splice_out :
    (xs : List ℕ) (o : ℕ) (f : ℕ → ℕ) (i : ℕ)
    → (i < o) ⊎ (o + length xs ≤ i)
    → splice xs o f i ≡ f i
splice_out xs o f i (inl lt) = rw (gt→leb o i lt) refl
splice_out xs o f i (inr ge) = ground (arith, ge)

-- Two writes, one behind the other, are one write.
pub splice-splice :
    (m : ℕ) (xs : List ℕ) (o : ℕ) (f : ℕ → ℕ) (i : ℕ)
    → m ≤ length xs
    → splice (drop m xs) (o + m) (splice (take m xs) o f) i ≡ splice xs o f i
splice-splice m xs o f i h =
    let front : length (take m xs) ≡ m = length-take m xs h in
    let back : length (drop m xs) ≡ length xs - m = length-drop m xs in
    elim (dec_lt i o) [
      | yes below ↦
          splice_out (drop m xs) (o + m) (splice (take m xs) o f) i (inl (omega arith))
          ∙ splice_out (take m xs) o f i (inl below)
          ∙ sym (splice_out xs o f i (inl below))
      | no low ↦ elim (dec_lt i (o + m)) [
        | yes lt ↦
            splice_out (drop m xs) (o + m) (splice (take m xs) o f) i (inl lt)
            ∙ splice_in (take m xs) o f i (omega arith) (omega arith)
            ∙ get_or-take m (i - o) xs (omega arith)
            ∙ sym (splice_in xs o f i (omega arith) (omega arith))
        | no behind ↦ elim (dec_lt i (o + length xs)) [
          | yes lt ↦
              splice_in (drop m xs) (o + m) (splice (take m xs) o f) i (omega arith) (omega arith)
              ∙ get_or-drop m (i - (o + m)) xs
              ∙ ap (λ k. get_or xs k 0) (omega arith)
              ∙ sym (splice_in xs o f i (omega arith) lt)
          | no above ↦
              splice_out (drop m xs) (o + m) (splice (take m xs) o f) i (inr (omega arith))
              ∙ splice_out (take m xs) o f i (inr (omega arith))
              ∙ sym (splice_out xs o f i (inr (omega arith)))
        ]
      ]
    ]

-- The same write seen from `k` further down.
pub splice_shift :
    (xs : List ℕ) (k o i : ℕ) (f g : ℕ → ℕ)
    → f i ≡ g (k + i)
    → splice xs o f i ≡ splice xs (k + o) g (k + i)
splice_shift xs k o i f g e = elim (dec_lt i o) [
  | yes below ↦
      splice_out xs o f i (inl below)
      ∙ e
      ∙ sym (splice_out xs (k + o) g (k + i) (inl (omega arith)))
  | no low ↦ elim (dec_lt i (o + length xs)) [
    | yes lt ↦
        splice_in xs o f i (omega arith) lt
        ∙ ap (λ j. get_or xs j 0) (omega arith)
        ∙ sym (splice_in xs (k + o) g (k + i) (omega arith) (omega arith))
    | no above ↦
        splice_out xs o f i (inr (omega arith))
        ∙ e
        ∙ sym (splice_out xs (k + o) g (k + i) (inr (omega arith)))
  ]
]

pub splice_ext :
    (xs : List ℕ) (o i : ℕ) (f g : ℕ → ℕ) → f i ≡ g i → splice xs o f i ≡ splice xs o g i
splice_ext xs o i f g e =
    ap (λ v. if leb o i && ltb i (o + length xs) then get_or xs (i - o) 0 else v) e
