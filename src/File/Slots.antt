-- ===== src/File/Slots.antt =====
-- What one call of xv6A1/file.c does to the reference counts, against a list of holders.
use native.Mathlib.Decide.{ℕ_discrete}
use mathlib.Core.Path.{subst}
use operating_system_design.Prelude.{
  ℕ, zero, suc, ◌+◌, ◌-◌, ◌<◌, ◌≤◌, ◌^◌, ◌≡◌, ◌≢◌, refl, sym, ap, ◌∙◌, inl, inr, false, Option,
  none, some, List, [], ◌∷◌, ◌++◌, length, set, get_or-set_self, get_or-set_ne, arith, ◌==◌,
  if◌then◌else◌, add32, sub32, is_nonpos, Bool-cases, ==→eq,
}
use operating_system_design.File.{
  File, FileType, FileCall, zero_file, file_at, find_free, take_free, filedup, fileclose,
  close_calls,
}

abbrev pub occurs : ℕ → List ℕ → ℕ
occurs i [] = 0
occurs i (x ∷ xs) = if x == i then suc (occurs i xs) else occurs i xs

pub occurs-length : (i : ℕ) (xs : List ℕ) → occurs i xs ≤ length xs
occurs-length i [] = omega arith
occurs-length i (x ∷ xs) = ground (arith, occurs-length i xs)

pub occurs_split :
    (i j : ℕ) (xs ys : List ℕ)
    → occurs i (xs ++ (j ∷ ys))
      ≡ (if j == i then suc (occurs i (xs ++ ys)) else occurs i (xs ++ ys))
occurs_split i j [] ys = refl
occurs_split i j (x ∷ xs) ys = ground (arith, occurs_split i j xs ys)

-- A file with a count stands in the table.
pub in_table : (t : List File) (i : ℕ) → 0 < (file_at t i).ref → i < length t
in_table [] i h = omega arith
in_table (f ∷ fs) zero h = omega arith
in_table (f ∷ fs) (suc i) h = omega (arith, in_table fs i h)

-- A write of slot `i` that gives it the count `n`, for new holders.
pub set-counts :
    (t : List File) (i n : ℕ) (f : File) (hs hs' : List ℕ)
    → i < length t
    → f.ref ≡ n
    → n ≡ occurs i hs'
    → ((j : ℕ) → j ≢ i → occurs j hs' ≡ occurs j hs)
    → ((j : ℕ) → (file_at t j).ref ≡ occurs j hs)
    → (j : ℕ) → (file_at (set t i f) j).ref ≡ occurs j hs'
set-counts t i n f hs hs' inside e m others old j = elim (ℕ_discrete j i) [
  | yes same ↦ rw (same, get_or-set_self t i f zero_file inside) (e ∙ m)
  | no ne ↦ rw (get_or-set_ne t i j f zero_file (λ x. ne (sym x))) (old j ∙ sym (others j ne))
]

find_free-lt :
    (k : ℕ) (t : List File) (i : ℕ)
    → find_free k t ≡ some i
    → (j : ℕ) × (i ≡ k + j) × (j < length t) × ((file_at t j).ref ≡ 0)
unfolding find_free
find_free-lt k [] i e = cc
find_free-lt k (f ∷ fs) i e = elim (Bool-cases (f.ref == 0)) [
  | inl free ↦ (0, ground arith, omega arith, ==→eq _ _ free)
  | inr taken ↦
      let (j, at, lt, z) = find_free-lt (k + 1) fs i (ground arith) in
      (suc j, omega arith, omega arith, z)
]

pub cons-other : (i j : ℕ) (hs : List ℕ) → j ≢ i → occurs j (i ∷ hs) ≡ occurs j hs
cons-other i j hs ne = ground arith

pub cons_self : (i : ℕ) (hs : List ℕ) → occurs i (i ∷ hs) ≡ suc (occurs i hs)
cons_self i hs = ground arith

pub alloc-counts :
    (t : List File) (o : Option ℕ) (hs : List ℕ) {i : ℕ} {t' : List File}
    → ((j : ℕ) → (file_at t j).ref ≡ occurs j hs)
    → find_free 0 t ≡ o
    → take_free t o ≡ (some i, t')
    → (j : ℕ) → (file_at t' j).ref ≡ occurs j (i ∷ hs)
unfolding take_free
alloc-counts t none hs old found e = cc
alloc-counts t (some k) hs {i} {t'} old found e =
    let (j, at, lt, z) = find_free-lt 0 t k found in
    let kj : j ≡ k = omega arith in
    let ki : k ≡ i = ground arith in
    let same : set t k (record (file_at t k) { ref = 1 }) ≡ t' = ground arith in
    let none_yet : occurs k hs ≡ 0 = sym (old k) ∙ rw (← kj) z in
    subst (λ x. (j : ℕ) → (file_at x j).ref ≡ occurs j (i ∷ hs)) same
      (rw (← ki) (
        set-counts t k 1 (record (file_at t k) { ref = 1 }) hs (k ∷ hs) (omega arith) refl
          (sym (cons_self k hs ∙ ap suc none_yet)) (λ j ne. cons-other k j hs ne) old))

pub filedup-eq :
    (t : List File) (i : ℕ)
    → 0 < (file_at t i).ref
    → (file_at t i).ref + 1 < 2 ^ 31
    → filedup i t ≡ some (set t i (record (file_at t i) { ref = (file_at t i).ref + 1 }))
unfolding filedup
filedup-eq t i pos small =
    let live : is_nonpos (file_at t i).ref ≡ false = ground arith in
    let up : add32 (file_at t i).ref 1 ≡ (file_at t i).ref + 1 = omega arith in simp (live, up) refl

pub fileclose_last :
    (t : List File) (i : ℕ)
    → (file_at t i).ref ≡ 1
    → fileclose i t
      ≡ some (
        set t i (record (file_at t i) { ref = 0; type = FileType.fd_none }),
        close_calls (file_at t i),
      )
unfolding fileclose
fileclose_last t i one = simp one refl

pub fileclose_more :
    (t : List File) (i : ℕ)
    → 1 < (file_at t i).ref
    → (file_at t i).ref < 2 ^ 31
    → fileclose i t ≡ some (set t i (record (file_at t i) { ref = (file_at t i).ref - 1 }), [])
unfolding fileclose
fileclose_more t i many small =
    let live : is_nonpos (file_at t i).ref ≡ false = ground arith in
    let down : sub32 (file_at t i).ref 1 ≡ (file_at t i).ref - 1 = omega arith in
    let left : is_nonpos ((file_at t i).ref - 1) ≡ false = ground arith in
    simp (live, down, left) refl

-- Closing takes one from the count, whichever branch it takes.
pub close-counts :
    (t : List File) (i : ℕ) (hs hs' : List ℕ) {t' : List File} {calls : List FileCall}
    → ((j : ℕ) → (file_at t j).ref ≡ occurs j hs)
    → length hs < 2 ^ 31
    → occurs i hs ≡ suc (occurs i hs')
    → ((j : ℕ) → j ≢ i → occurs j hs' ≡ occurs j hs)
    → fileclose i t ≡ some (t', calls)
    → (j : ℕ) → (file_at t' j).ref ≡ occurs j hs'
close-counts t i hs hs' {t'} {calls} old few one others e =
    let count = old i ∙ one in
    let inside = in_table t i (omega (arith, count)) in
    let small : (file_at t i).ref < 2 ^ 31 = omega (arith, old i, occurs-length i hs) in
    elim (ℕ_discrete (occurs i hs') 0) [
      | yes last ↦
          let shut = fileclose_last t i (omega (arith, count, last)) in
          let same : set t i (record (file_at t i) { ref = 0; type = FileType.fd_none }) ≡ t' =
            cc (shut, e) in
          subst (λ x. (j : ℕ) → (file_at x j).ref ≡ occurs j hs') same
            (set-counts t i 0 (record (file_at t i) { ref = 0; type = FileType.fd_none }) hs hs'
              inside refl (sym last) others old)
      | no more ↦
          let shut = fileclose_more t i (omega (arith, count, more)) small in
          let same : set t i (record (file_at t i) { ref = (file_at t i).ref - 1 }) ≡ t' =
            cc (shut, e) in
          subst (λ x. (j : ℕ) → (file_at x j).ref ≡ occurs j hs') same
            (set-counts t i ((file_at t i).ref - 1)
              (record (file_at t i) { ref = (file_at t i).ref - 1 }) hs hs' inside refl
              (omega (arith, count)) others old)
    ]
