-- ===== src/PathName/Components.antt =====
-- `skipelem` of xv6A1/fs.c against the list of a path's components.
use operating_system_design.Prelude.{
  ℕ, zero, suc, ◌+◌, ◌<◌, ◌≤◌, ◌≡◌, ◌≢◌, refl, sym, ap, ◌∙◌, false, List, [], ◌∷◌, ◌++◌, none, some,
  length, set, take, drop, leb, ◌==◌, if◌then◌else◌, arith, Bool-cases, inl, inr, ne→==, ◌⊎◌,
}
use mathlib.Core.List.{append_assoc, append-nil}
use operating_system_design.PathName.{
  dir_siz, skip_slashes, span_elem, copy_elem, next_elem, skipelem,
}

abbrev pub flush : List ℕ → List (List ℕ) → List (List ℕ)
flush [] rest = rest
flush (c ∷ cs) rest = (c ∷ cs) ∷ rest

-- The path cut at every slash, empty parts left out; `cur` is the part that is being read.
unfoldable pub parts : List ℕ → List ℕ → List (List ℕ)
parts cur [] = flush cur []
parts cur (c ∷ cs) = if c == b'/' then flush cur (parts [] cs) else parts (cur ++ (c ∷ [])) cs

abbrev pub components : List ℕ → List (List ℕ)
components path = parts [] path

-- The text in a name's array: up to the NUL, or all of it.
abbrev pub text_of : List ℕ → List ℕ
text_of [] = []
text_of (c ∷ cs) = if c == 0 then [] else c ∷ text_of cs

abbrev pub NonZero : List ℕ → Type 0
NonZero [] = Unit
NonZero (c ∷ cs) = (c ≢ 0) × NonZero cs

components-skip_slashes : (path : List ℕ) → components (skip_slashes path) ≡ components path
unfolding skip_slashes parts
components-skip_slashes [] = refl
components-skip_slashes (c ∷ cs) = elim (Bool-cases (c == b'/')) [
  | inl slash ↦ rw slash (components-skip_slashes cs)
  | inr other ↦ rw (other, parts) (rw other refl)
]

-- What `span_elem` passes is the rest of the part that is being read.
parts-span_elem :
    (cur path : List ℕ)
    → parts cur path ≡ flush (cur ++ (span_elem path).0) (components (span_elem path).1)
unfolding parts span_elem
parts-span_elem cur [] = ap (λ xs. flush xs []) (sym (append-nil cur))
parts-span_elem cur (c ∷ cs) = elim (Bool-cases (c == b'/')) [
  | inl slash ↦ rw (slash, append-nil, parts) (rw slash refl)
  | inr other ↦ rw other (
      parts-span_elem (cur ++ (c ∷ [])) cs
      ∙ ap (λ xs. flush xs (components (span_elem cs).1))
          (append_assoc cur (c ∷ []) (span_elem cs).0))
]

length-skip_slashes : (path : List ℕ) → length (skip_slashes path) ≤ length path
unfolding skip_slashes
length-skip_slashes [] = omega arith
length-skip_slashes (c ∷ cs) = ground (arith, length-skip_slashes cs)

NonZero-skip_slashes : (path : List ℕ) → NonZero path → NonZero (skip_slashes path)
unfolding skip_slashes
NonZero-skip_slashes [] n = n
NonZero-skip_slashes (c ∷ cs) n = elim (Bool-cases (c == b'/')) [
  | inl slash ↦ rw slash (NonZero-skip_slashes cs n.1)
  | inr other ↦ rw other n
]

length-span_elem : (path : List ℕ) → length (span_elem path).1 ≤ length path
unfolding span_elem
length-span_elem [] = omega arith
length-span_elem (c ∷ cs) = ground (arith, length-span_elem cs)

NonZero-span_elem : (path : List ℕ) → NonZero path → NonZero (span_elem path).0
unfolding span_elem
NonZero-span_elem [] n = n
NonZero-span_elem (c ∷ cs) n = elim (Bool-cases (c == b'/')) [
  | inl slash ↦ rw slash tt
  | inr other ↦ rw other (n.0, NonZero-span_elem cs n.1)
]

-- `skip_slashes` stops at the end or at another byte.
skip_slashes-stops :
    (path : List ℕ) (c : ℕ) (cs : List ℕ) → skip_slashes path ≡ c ∷ cs → (c == b'/') ≡ false
unfolding skip_slashes
skip_slashes-stops [] c cs e = cc
skip_slashes-stops (d ∷ ds) c cs e = elim (Bool-cases (d == b'/')) [
  | inl slash ↦ skip_slashes-stops ds c cs (ground arith)
  | inr other ↦ ground arith
]

set-append : (xs ys : List ℕ) (v : ℕ) → set (xs ++ ys) (length xs) v ≡ xs ++ set ys 0 v
set-append [] ys v = refl
set-append (x ∷ xs) ys v = ap (◌∷◌ x) (set-append xs ys v)

length-drop : (n : ℕ) (xs : List ℕ) → n ≤ length xs → length (drop n xs) + n ≡ length xs
length-drop zero xs h = omega arith
length-drop (suc n) [] h = absurd (omega arith)
length-drop (suc n) (x ∷ xs) h = omega (arith, length-drop n xs)

drop_all : (n : ℕ) (xs : List ℕ) → length xs ≤ n → drop n xs ≡ []
drop_all zero [] h = refl
drop_all zero (x ∷ xs) h = absurd (omega arith)
drop_all (suc n) [] h = refl
drop_all (suc n) (x ∷ xs) h = drop_all n xs (omega arith)

take_all : (n : ℕ) (xs : List ℕ) → length xs ≤ n → take n xs ≡ xs
take_all zero [] h = refl
take_all zero (x ∷ xs) h = absurd (omega arith)
take_all (suc n) [] h = refl
take_all (suc n) (x ∷ xs) h = ap (◌∷◌ x) (take_all n xs (omega arith))

length-take_full : (n : ℕ) (xs : List ℕ) → n ≤ length xs → length (take n xs) ≡ n
length-take_full zero xs h = refl
length-take_full (suc n) [] h = absurd (omega arith)
length-take_full (suc n) (x ∷ xs) h = ap suc (length-take_full n xs (omega arith))

NonZero-take : (n : ℕ) (xs : List ℕ) → NonZero xs → NonZero (take n xs)
NonZero-take zero xs h = tt
NonZero-take (suc n) [] h = tt
NonZero-take (suc n) (x ∷ xs) h = (h.0, NonZero-take n xs h.1)

text_of-append : (xs ys : List ℕ) → NonZero xs → text_of (xs ++ ys) ≡ xs ++ text_of ys
text_of-append [] ys h = refl
text_of-append (x ∷ xs) ys h = rw (ne→== x 0 h.0) (ap (◌∷◌ x) (text_of-append xs ys h.1))

text_of_cut : (ys : List ℕ) → 0 < length ys → text_of (set ys 0 0) ≡ []
text_of_cut [] h = absurd (omega arith)
text_of_cut (y ∷ ys) h = refl

-- What `copy_elem` leaves in the array.
text_of-copy_elem :
    (elem name : List ℕ)
    → NonZero elem
    → length name ≡ dir_siz
    → text_of (copy_elem elem name) ≡ take dir_siz elem
unfolding copy_elem
text_of-copy_elem elem name n size = elim (Bool-cases (leb dir_siz (length elem))) [
  | inl long ↦
      let head = take dir_siz elem in
      let full : length head ≡ dir_siz = length-take_full dir_siz elem (ground arith) in
      rw long (
        text_of-append head (drop (length head) name) (NonZero-take dir_siz elem n)
        ∙ ap (λ ys. head ++ text_of ys) (drop_all (length head) name (omega arith))
        ∙ append-nil head)
  | inr short ↦
      let fits : length elem < dir_siz = ground arith in
      let tail = drop (length elem) name in
      rw short (
        ap text_of (set-append elem tail 0)
        ∙ text_of-append elem (set tail 0 0) n
        ∙ ap (λ ys. elem ++ ys) (text_of_cut tail (omega (arith, length-drop (length elem) name)))
        ∙ append-nil elem
        ∙ sym (take_all dir_siz elem (omega arith)))
]

-- What `skipelem` gives for a path that has the components `c ∷ cs`.
pub record Skipped (path : List ℕ) (c : List ℕ) (path' name' : List ℕ) : Type 0 where
  pub first : components path ≡ c ∷ components path'
  pub name : text_of name' ≡ take dir_siz c
  pub shorter : length path' < length path

flush-span_elem :
    (c : ℕ) (cs : List ℕ) (xs : List (List ℕ))
    → (c == b'/') ≡ false
    → flush (span_elem (c ∷ cs)).0 xs ≡ (span_elem (c ∷ cs)).0 ∷ xs
unfolding span_elem
flush-span_elem c cs xs stops = rw stops refl

span_elem_shorter :
    (c : ℕ) (cs : List ℕ) → (c == b'/') ≡ false → length (span_elem (c ∷ cs)).1 ≤ length cs
unfolding span_elem
span_elem_shorter c cs stops = rw stops (length-span_elem cs)

next_elem-Skipped :
    (path name : List ℕ) (p : List ℕ)
    → skip_slashes path ≡ p
    → length name ≡ dir_siz
    → NonZero p
    → components p ≡ components path
    → ((components path ≡ []) × (next_elem p name ≡ none))
      ⊎ ((c path' name' : List ℕ) × (next_elem p name ≡ some (path', name'))
          × Skipped path c path' name')
unfolding next_elem
next_elem-Skipped path name [] e size n same = inl (sym same ∙ (unfold parts in refl), refl)
next_elem-Skipped path name (c ∷ cs) e size n same =
    let stops = skip_slashes-stops path c cs e in
    let elem = (span_elem (c ∷ cs)).0 in
    let rest = (span_elem (c ∷ cs)).1 in
    inr (
      elem,
      skip_slashes rest,
      copy_elem elem name,
      refl,
      record {
        first =
            sym same
            ∙ parts-span_elem [] (c ∷ cs)
            ∙ flush-span_elem c cs (components rest) stops
            ∙ ap (λ xs. elem ∷ xs) (sym (components-skip_slashes rest));
        name = text_of-copy_elem elem name (NonZero-span_elem (c ∷ cs) n) size;
        shorter = omega (
          arith,
          length-skip_slashes rest,
          span_elem_shorter c cs stops,
          ap length e,
          length-skip_slashes path,
        );
      },
    )

-- `skipelem` returns 0 if the path has no component. Otherwise it copies the first component, cut
-- to DIRSIZ bytes, into the name's array, and returns a path with the other components, which is
-- shorter: for a path of nonzero bytes and an array of DIRSIZ bytes.
pub skipelem_lem :
    (path name : List ℕ)
    → length name ≡ dir_siz
    → NonZero path
    → ((components path ≡ []) × (skipelem path name ≡ none))
      ⊎ ((c path' name' : List ℕ) × (skipelem path name ≡ some (path', name'))
          × Skipped path c path' name')
unfolding skipelem
skipelem_lem path name size n =
    next_elem-Skipped path name (skip_slashes path) refl size (NonZero-skip_slashes path n)
      (components-skip_slashes path)
