-- ===== src/Shell/Tokens.antt =====
-- `gettoken` and `peek` of xv6A1/sh.c: how much they take, and what a word is.
use mathlib.Core.Path.{subst}
use operating_system_design.Prelude.{
  ℕ, ◌+◌, ◌≤◌, ◌≡◌, refl, true, false, List, [], ◌∷◌, ◌||◌, length, ◌==◌, arith, Bool-cases, inl,
  inr, ==→eq, ◌⊎◌,
}
use operating_system_design.Shell.{
  has, is_white, is_symbol, skip_white, next_in, span_word, greater, token, gettoken, Redir,
  redir_of,
}

-- A byte that neither ends a word nor is skipped.
abbrev pub IsPlain : ℕ → Type 0
IsPlain c = (is_white c || is_symbol c) ≡ false

abbrev pub AllPlain : List ℕ → Type 0
AllPlain [] = Unit
AllPlain (c ∷ cs) = IsPlain c × AllPlain cs

-- A word has a byte, and only plain ones.
abbrev pub IsWord : List ℕ → Type 0
IsWord [] = ⊥
IsWord (c ∷ cs) = IsPlain c × AllPlain cs

abbrev pub IsRedir : Redir → Type 0
IsRedir r = IsWord r.file × (((r.mode ≡ 0) × (r.fd ≡ 0)) ⊎ ((r.mode ≡ 0x201) × (r.fd ≡ 1)))

pub length-skip_white : (ts : List ℕ) → length (skip_white ts) ≤ length ts
unfolding skip_white
length-skip_white [] = omega arith
length-skip_white (c ∷ cs) = elim (Bool-cases (is_white c)) [
  | inl white ↦ rw white (omega (arith, length-skip_white cs))
  | inr other ↦ rw other (omega arith)
]

-- `skip_white` stops at the end or at a byte that is no white space.
pub skip_white-stops :
    (ts : List ℕ) (c : ℕ) (cs : List ℕ) → skip_white ts ≡ c ∷ cs → is_white c ≡ false
unfolding skip_white
skip_white-stops [] c cs e = cc
skip_white-stops (d ∷ ds) c cs e = elim (Bool-cases (is_white d)) [
  | inl white ↦ skip_white-stops ds c cs (rw white at e)
  | inr other ↦ let z = rw other at e in cc
]

length-span_word : (ts : List ℕ) → length (span_word ts).1 ≤ length ts
unfolding span_word
length-span_word [] = omega arith
length-span_word (c ∷ cs) = elim (Bool-cases (is_white c || is_symbol c)) [
  | inl stop ↦ rw stop (omega arith)
  | inr plain ↦ rw plain (omega (arith, length-span_word cs))
]

AllPlain-span_word : (ts : List ℕ) → AllPlain (span_word ts).0
unfolding span_word
AllPlain-span_word [] = tt
AllPlain-span_word (c ∷ cs) = elim (Bool-cases (is_white c || is_symbol c)) [
  | inl stop ↦ rw stop tt
  | inr plain ↦ rw plain (plain, AllPlain-span_word cs)
]

-- Whatever stands first, a token takes it.
length-token : (c : ℕ) (cs : List ℕ) → length (token (c ∷ cs)).2 ≤ length cs
unfolding token span_word skip_white
length-token c cs = elim (Bool-cases (c == b'>')) [
  | inl gt ↦ rw gt (length-greater cs)
  | inr other ↦ rw other (elim (Bool-cases (is_symbol c)) [
    | inl symbol ↦ rw symbol (length-skip_white cs)
    | inr no_symbol ↦ rw no_symbol (elim (Bool-cases (is_white c)) [
      | inl white ↦ rw (white, white) (length-skip_white cs)
      | inr plain ↦
          rw plain (omega (arith, length-skip_white (span_word cs).1, length-span_word cs))
    ])
  ])
]
  where
    length-greater : (ts : List ℕ) → length (greater ts).2 ≤ length ts
    length-greater [] = omega arith
    length-greater (c ∷ cs) = elim (Bool-cases (c == b'>')) [
      | inl gt ↦ rw gt (omega (arith, length-skip_white cs))
      | inr other ↦ rw other (length-skip_white (c ∷ cs))
    ]

pub length-gettoken : (ts : List ℕ) → length (gettoken ts).2 ≤ length ts
unfolding token
length-gettoken ts = shorter (skip_white ts) (length-skip_white ts)
  where
    shorter : (us : List ℕ) → length us ≤ length ts → length (token us).2 ≤ length ts
    shorter [] h = omega arith
    shorter (c ∷ cs) h = omega (arith, length-token c cs)

-- Where `peek` finds something, `gettoken` takes a byte.
pub length-gettoken_next :
    (toks ts : List ℕ) → next_in toks ts ≡ true → length (gettoken ts).2 + 1 ≤ length ts
unfolding skip_white
length-gettoken_next toks [] e = cc
length-gettoken_next toks (c ∷ cs) e = elim (Bool-cases (is_white c)) [
  | inl white ↦ rw white (omega (arith, length-gettoken cs))
  | inr other ↦ rw other (omega (arith, length-token c cs))
]

greater-kind : (cs : List ℕ) → ((greater cs).0 == b'a') ≡ false
greater-kind [] = refl
greater-kind (c ∷ cs) = elim (Bool-cases (c == b'>')) [
  | inl gt ↦ rw gt refl
  | inr other ↦ rw other refl
]

letter : is_symbol b'a' ≡ false
unfolding is_symbol has
letter = refl

-- What `gettoken` says is a word is one.
pub gettoken-IsWord : (ts : List ℕ) → ((gettoken ts).0 == b'a') ≡ true → IsWord (gettoken ts).1
unfolding token span_word
gettoken-IsWord ts = word (skip_white ts) (skip_white-stops ts)
  where
    word :
        (us : List ℕ)
        → ((c : ℕ) (cs : List ℕ) → us ≡ c ∷ cs → is_white c ≡ false)
        → ((token us).0 == b'a') ≡ true
        → IsWord (token us).1
    word [] stops e = cc
    word (c ∷ cs) stops e = elim (Bool-cases (c == b'>')) [
      | inl gt ↦
          let e' : ((greater cs).0 == b'a') ≡ true = rw gt at e in let no = greater-kind cs in cc
      | inr other ↦ elim (Bool-cases (is_symbol c)) [
        | inl symbol ↦
            let e' : (c == b'a') ≡ true = rw (other, symbol) at e in
            let found = subst (λ k. is_symbol k ≡ true) (==→eq c b'a' e') symbol in
            let no = letter in cc
        | inr plain ↦
            let no_white = stops c cs refl in
            rw (other, plain, no_white) (rw (no_white, plain) refl, AllPlain-span_word cs)
      ]
    ]

pub redir_of-IsRedir : (tok : ℕ) (file : List ℕ) → IsWord file → IsRedir (redir_of tok file)
redir_of-IsRedir tok file w = elim (Bool-cases (tok == b'<')) [
  | inl input ↦ rw input (w, inl (refl, refl))
  | inr output ↦ rw output (w, inr (refl, refl))
]

-- A word takes a byte.
pub length-gettoken_word :
    (ts : List ℕ) → ((gettoken ts).0 == b'a') ≡ true → length (gettoken ts).2 + 1 ≤ length ts
unfolding token
length-gettoken_word ts = shorter (skip_white ts) (length-skip_white ts)
  where
    shorter :
        (us : List ℕ)
        → length us ≤ length ts
        → ((token us).0 == b'a') ≡ true
        → length (token us).2 + 1 ≤ length ts
    shorter [] h e = cc
    shorter (c ∷ cs) h e = omega (arith, length-token c cs)
