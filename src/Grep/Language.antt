-- ===== src/Grep/Language.antt =====
-- What the patterns of xv6A1/grep.c mean, with no order of search in it.
use operating_system_design.Prelude.{
  ℕ, ◌≡◌, ◌≢◌, refl, ap, ◌⊎◌, inl, inr, Bool, true, List, [], ◌∷◌, ◌++◌, ◌==◌, arith, Bool-cases,
  ==→eq, ==→ne,
}
use mathlib.Core.Logic.{◌↔◌}
use operating_system_design.Grep.{is_end, matchstar, match_byte, matchhere, match_anywhere, match}

-- The byte `t` is one that `c` stands for.
abbrev pub Fits : ℕ → ℕ → Type 0
Fits c t = (c ≡ t) ⊎ (c ≡ b'.')

-- What follows a byte of a pattern does not make it an operator.
abbrev pub Plain : ℕ → List ℕ → Type 0
Plain r [] = r ≢ b'$'
Plain r (s ∷ re) = s ≢ b'*'

-- The pattern matches a text from its first byte on.
pub data Matches : List ℕ → List ℕ → Type 0 where
  all : {text : List ℕ} → Matches [] text
  at_end : {r : ℕ} → r ≡ b'$' → Matches (r ∷ []) []
  leave : {r s : ℕ} {re text : List ℕ} → s ≡ b'*' → Matches re text → Matches (r ∷ (s ∷ re)) text
  take :
      {r s t : ℕ} {re ts : List ℕ}
      → s ≡ b'*'
      → Fits r t
      → Matches (r ∷ (s ∷ re)) ts
      → Matches (r ∷ (s ∷ re)) (t ∷ ts)
  byte :
      {r t : ℕ} {re ts : List ℕ} → Plain r re → Fits r t → Matches re ts → Matches (r ∷ re) (t ∷ ts)

-- Some end of the text is matched.
abbrev pub Somewhere : List ℕ → List ℕ → Type 0
Somewhere re text = (before after : List ℕ) × (text ≡ before ++ after) × Matches re after

-- The pattern matches a text: at its beginning after a `^`, or else from some byte on.
abbrev pub Found : List ℕ → List ℕ → Type 0
Found [] text = Somewhere [] text
Found (r ∷ re) text = ((r ≡ b'^') × Matches re text) ⊎ ((r ≢ b'^') × Somewhere (r ∷ re) text)

-- `here` decides `P`.
abbrev Decides : (List ℕ → Bool) → (List ℕ → Type 0) → Type 0
Decides here P = (text : List ℕ) → (here text ≡ true) ↔ P text

-- A star after which `P` holds.
matchstar_sound :
    (r s : ℕ) (re : List ℕ) (here : List ℕ → Bool)
    → s ≡ b'*'
    → Decides here (Matches re)
    → (text : List ℕ) → matchstar r here text ≡ true
    → Matches (r ∷ (s ∷ re)) text
unfolding matchstar
matchstar_sound r s re here star d [] h = leave star ((d []).0 h)
matchstar_sound r s re here star d (t ∷ ts) h = elim (Bool-cases (here (t ∷ ts))) [
  | inl now ↦ leave star ((d (t ∷ ts)).0 now)
  | inr later ↦
      let fits : Fits r t = ground arith in
      take star fits (matchstar_sound r s re here star d ts (ground arith))
]

matchstar_complete :
    (r s : ℕ) (re : List ℕ) (here : List ℕ → Bool)
    → Decides here (Matches re)
    → (text : List ℕ) → s ≡ b'*'
    → Matches (r ∷ (s ∷ re)) text
    → matchstar r here text ≡ true
unfolding matchstar
matchstar_complete r s re here d [] star (leave e m) = (d []).1 m
matchstar_complete r s re here d (t ∷ ts) star (leave e m) =
    let now = (d (t ∷ ts)).1 m in ground arith
matchstar_complete r s re here d (t ∷ ts) star (take e fits m) =
    let later = matchstar_complete r s re here d ts star m in
    elim fits [ inl same ↦ ground arith | inr any ↦ ground arith ]
matchstar_complete r s re here d (t ∷ ts) star (byte plain fits m) = absurd (plain star)

match_byte_sound :
    (r : ℕ) (re : List ℕ) (here : List ℕ → Bool)
    → Plain r re
    → Decides here (Matches re)
    → (text : List ℕ) → match_byte r here text ≡ true
    → Matches (r ∷ re) text
unfolding match_byte
match_byte_sound r re here plain d [] h = cc
match_byte_sound r re here plain d (t ∷ ts) h = byte plain (ground arith) ((d ts).0 (ground arith))

match_byte_complete :
    (r : ℕ) (re : List ℕ) (here : List ℕ → Bool)
    → Plain r re
    → Decides here (Matches re)
    → (text : List ℕ) → Matches (r ∷ re) text
    → match_byte r here text ≡ true
unfolding match_byte
match_byte_complete r re here plain d text (at_end e) = absurd (plain e)
match_byte_complete r re here plain d text (leave e m) = absurd (plain e)
match_byte_complete r re here plain d text (take e fits m) = absurd (plain e)
match_byte_complete r re here plain d (t ∷ ts) (byte p fits m) =
    let rest = (d ts).1 m in elim fits [ inl same ↦ ground arith | inr any ↦ ground arith ]

end-Matches : (r : ℕ) (text : List ℕ) → r ≡ b'$' → (is_end text ≡ true) ↔ Matches (r ∷ []) text
end-Matches r [] e = (λ h. at_end e, λ m. refl)
end-Matches r (t ∷ ts) e = (λ h. cc, λ m. elim m [ byte plain fits rest ↦ absurd (plain e) ])

-- `matchhere` decides whether the pattern matches from the first byte on.
matchhere-Decides : (re : List ℕ) → Decides (matchhere re) (Matches re)
unfolding matchhere
matchhere-Decides [] text = (λ h. all, λ m. refl)
matchhere-Decides (r ∷ []) text = elim (Bool-cases (r == b'$')) [
  | inl dollar ↦ rw dollar (end-Matches r text (==→eq _ _ dollar))
  | inr other ↦
      let ne = ==→ne _ _ other in
      rw other (
        match_byte_sound r [] (matchhere []) ne (matchhere-Decides []) text,
        match_byte_complete r [] (matchhere []) ne (matchhere-Decides []) text,
      )
]
matchhere-Decides (r ∷ s ∷ re) text = elim (Bool-cases (s == b'*')) [
  | inl star ↦
      let e = ==→eq _ _ star in
      rw star (
        matchstar_sound r s re (matchhere re) e (matchhere-Decides re) text,
        matchstar_complete r s re (matchhere re) (matchhere-Decides re) text e,
      )
  | inr plain ↦
      let ne = ==→ne _ _ plain in
      rw plain (
        match_byte_sound r (s ∷ re) (matchhere (s ∷ re)) ne (matchhere-Decides (s ∷ re)) text,
        match_byte_complete r (s ∷ re) (matchhere (s ∷ re)) ne (matchhere-Decides (s ∷ re)) text,
      )
]

module _ (re : List ℕ) (here : List ℕ → Bool) (d : Decides here (Matches re)) where
  match_anywhere_sound : (text : List ℕ) → match_anywhere here text ≡ true → Somewhere re text
  unfolding match_anywhere
  match_anywhere_sound [] h = ([], [], refl, (d []).0 h)
  match_anywhere_sound (t ∷ ts) h = elim (Bool-cases (here (t ∷ ts))) [
    | inl now ↦ ([], t ∷ ts, refl, (d (t ∷ ts)).0 now)
    | inr later ↦
        let (before, after, e, m) = match_anywhere_sound ts (ground arith) in
        (t ∷ before, after, ap (◌∷◌ t) e, m)
  ]

  match_anywhere_complete :
      (before after text : List ℕ)
      → text ≡ before ++ after
      → Matches re after
      → match_anywhere here text ≡ true
  unfolding match_anywhere
  match_anywhere_complete [] after [] e m = (d []).1 (rw e m)
  match_anywhere_complete [] after (t ∷ ts) e m = let now = (d (t ∷ ts)).1 (rw e m) in ground arith
  match_anywhere_complete (b ∷ bs) after [] e m = cc
  match_anywhere_complete (b ∷ bs) after (t ∷ ts) e m =
      let later = match_anywhere_complete bs after ts (cc e) m in ground arith

  match_anywhere-Somewhere : (text : List ℕ) → (match_anywhere here text ≡ true) ↔ Somewhere re text
  match_anywhere-Somewhere text = (
    match_anywhere_sound text,
    λ (before, after, e, m). match_anywhere_complete before after text e m,
  )

-- `match` answers true exactly on the texts in which the pattern is found: at the beginning if it
-- starts with `^`, or else anywhere, for every pattern and every text.
pub match_iff : (re text : List ℕ) → (match re text ≡ true) ↔ Found re text
unfolding match
match_iff [] text = match_anywhere-Somewhere [] (matchhere []) (matchhere-Decides []) text
match_iff (r ∷ re) text = elim (Bool-cases (r == b'^')) [
  | inl anchor ↦
      let e = ==→eq _ _ anchor in
      let d = matchhere-Decides re text in
      rw anchor
        (λ h. inl (e, d.0 h), λ f. elim f [ inl (_, m) ↦ d.1 m | inr (ne, _) ↦ absurd (ne e) ])
  | inr free ↦
      let ne = ==→ne _ _ free in
      let d =
        match_anywhere-Somewhere (r ∷ re) (matchhere (r ∷ re)) (matchhere-Decides (r ∷ re)) text in
      rw free
        (λ h. inr (ne, d.0 h), λ f. elim f [ inl (e, _) ↦ absurd (ne e) | inr (_, s) ↦ d.1 s ])
]
