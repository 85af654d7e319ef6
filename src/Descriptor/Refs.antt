-- ===== src/Descriptor/Refs.antt =====
-- Descriptors and reference counts in one step of `sys_dup` or `sys_close` of xv6A1/sysfile.c.
use native.Mathlib.Decide.{ℕ_discrete}
use mathlib.Core.Option.{none-ne-some, some-injective}
use operating_system_design.Prelude.{
  ℕ, zero, suc, ◌+◌, ◌-◌, ◌^◌, ◌<◌, ◌≤◌, ◌≡◌, refl, sym, ap, ◌∙◌, false, Option, none, some, List,
  [], ◌∷◌, leb, ◌==◌, if◌then◌else◌, arith, add32, sub32, is_neg, is_nonpos, length, get_or, set,
  get_or-set_self, get_or-set_ne, Bool-cases, inl, inr, ne→==, eq→==, ◌||◌, total,
}
use operating_system_design.Args.{UserSpace, argint}
use operating_system_design.File.{File, zero_file, file_at, filedup, fileclose, fd_none}
use operating_system_design.Descriptor.{nofile, argfd, find_null, Open, closed}

-- 1 for a descriptor of slot `i`.
abbrev pub hit : ℕ → Option ℕ → ℕ
hit i none = 0
hit i (some f) = if f == i then 1 else 0

abbrev pub count : ℕ → List (Option ℕ) → ℕ
count i = total (hit i)

-- Each count is the number of the process's descriptors and of the references held elsewhere.
pub record Counted (others : ℕ → ℕ) (o : Open) : Type 0 where
  pub slots : length o.ofile ≡ nofile
  pub refs : (i : ℕ) → (file_at o.table i).ref ≡ count i o.ofile + others i

pub count_most : (i : ℕ) (ds : List (Option ℕ)) → count i ds ≤ length ds
count_most i [] = omega arith
count_most i (none ∷ ds) = omega (arith, count_most i ds)
count_most i (some f ∷ ds) = ground (arith, count_most i ds)

pub find_null_lem :
    (k : ℕ) (ds : List (Option ℕ)) (fd : ℕ)
    → find_null k ds ≡ some fd
    → (k ≤ fd) × (fd < k + length ds) × (get_or ds (fd - k) none ≡ none)
unfolding find_null
find_null_lem k [] fd e = absurd (none-ne-some fd e)
find_null_lem k (none ∷ ds) fd e =
    let same : k ≡ fd = some-injective k fd e in
    let z : fd - k ≡ 0 = omega (arith, same) in
    (omega (arith, same), omega (arith, same), rw z refl)
find_null_lem k (some f ∷ ds) fd e =
    let (low, high, free) = find_null_lem (k + 1) ds fd e in
    let z : fd - k ≡ suc (fd - (k + 1)) = omega (arith, low) in
    (omega arith, omega arith, rw z free)

-- The table after a change of one count.
file_at-set :
    (t : List File) (f i : ℕ) (g : File)
    → f < length t
    → (file_at (set t f g) i).ref ≡ (if f == i then g.ref else (file_at t i).ref)
file_at-set t f i g lt = elim (ℕ_discrete f i) [
  | yes e ↦ rw (eq→== _ _ e, ← e) (ap (λ h. h.ref) (get_or-set_self t f g zero_file lt))
  | no ne ↦ rw (ne→== _ _ ne) (ap (λ h. h.ref) (get_or-set_ne t f i g zero_file ne))
]

ref-inside : (t : List File) (f : ℕ) → 1 ≤ (file_at t f).ref → f < length t
ref-inside [] f h = absurd (omega arith)
ref-inside (g ∷ t) zero h = omega arith
ref-inside (g ∷ t) (suc f) h = omega (arith, ref-inside t f h)

pub filedup-ref :
    (t : List File) (f : ℕ)
    → 1 ≤ (file_at t f).ref
    → (file_at t f).ref + 1 < 2 ^ 31
    → (t' : List File) × (filedup f t ≡ some t')
      × ((i : ℕ) → (file_at t' i).ref ≡ (file_at t i).ref + hit i (some f))
unfolding filedup
filedup-ref t f pos small =
    let up : add32 (file_at t f).ref 1 ≡ (file_at t f).ref + 1 = omega (arith, small) in
    let live : is_nonpos (file_at t f).ref ≡ false = ground (arith, pos, small) in
    (
      set t f (record (file_at t f) { ref = add32 (file_at t f).ref 1 }),
      rw live refl,
      λ i.
          file_at-set t f i (record (file_at t f) { ref = add32 (file_at t f).ref 1 })
            (ref-inside t f pos)
          ∙ (elim (ℕ_discrete f i) [
            | yes e ↦ rw (eq→== _ _ e, ← e) up
            | no ne ↦ rw (ne→== _ _ ne) (omega arith)
          ]),
    )

pub fileclose-ref :
    (t : List File) (f : ℕ)
    → 1 ≤ (file_at t f).ref
    → (file_at t f).ref < 2 ^ 31
    → (t' : List File) × (closed (fileclose f t) ≡ some t')
      × ((i : ℕ) → (file_at t' i).ref + hit i (some f) ≡ (file_at t i).ref)
unfolding fileclose
fileclose-ref t f pos small =
    let down : sub32 (file_at t f).ref 1 ≡ (file_at t f).ref - 1 = omega (arith, pos, small) in
    let live : is_nonpos (file_at t f).ref ≡ false = ground (arith, pos, small) in
    elim (ℕ_discrete (file_at t f).ref 1) [
      | yes last ↦ (
        set t f (record (file_at t f) { ref = 0; type = fd_none }),
        rw (live, down, last) refl,
        λ i.
            rw
              (file_at-set t f i (record (file_at t f) { ref = 0; type = fd_none })
                (ref-inside t f pos))
              (elim (ℕ_discrete f i) [
                | yes e ↦ rw (eq→== _ _ e, ← e) (sym last)
                | no ne ↦ rw (ne→== _ _ ne) (omega arith)
              ]),
      )
      | no more ↦
          let kept : is_nonpos (sub32 (file_at t f).ref 1) ≡ false =
            rw down (ground (arith, pos, small, more)) in
          (
            set t f (record (file_at t f) { ref = sub32 (file_at t f).ref 1 }),
            rw (live, kept) refl,
            λ i.
                rw
                  (file_at-set t f i (record (file_at t f) { ref = sub32 (file_at t f).ref 1 })
                    (ref-inside t f pos))
                  (elim (ℕ_discrete f i) [
                    | yes e ↦ rw (eq→== _ _ e, ← e, down) (omega (arith, pos))
                    | no ne ↦ rw (ne→== _ _ ne) (omega arith)
                  ]),
          )
    ]

-- What `argfd` returns is a descriptor with its file.
abbrev pub Argument : List (Option ℕ) → Option (ℕ × ℕ) → Type 0
Argument ofile none = Unit
Argument ofile (some (fd, f)) = (fd < nofile) × (get_or ofile fd none ≡ some f)

pub argfd-Argument :
    (p : UserSpace) (ofile : List (Option ℕ)) (n : ℕ) → Argument ofile (argfd p ofile n)
unfolding argfd
argfd-Argument p ofile n = from (argint p n)
  where
    slot :
        (fd : ℕ)
        → fd < nofile
        → (d : Option ℕ) → get_or ofile fd none ≡ d
        → Argument ofile (elim d [ none ↦ none | some f ↦ some (fd, f) ])
    slot fd lt none e = tt
    slot fd lt (some f) e = (lt, e)

    from :
        (x : Option ℕ)
        → Argument ofile (elim x [
          | none ↦ none
          | some fd ↦
              if is_neg fd || leb nofile fd
              then none
              else elim (get_or ofile fd none) [ none ↦ none | some f ↦ some (fd, f) ]
        ])
    from none = tt
    from (some fd) = elim (Bool-cases (is_neg fd || leb nofile fd)) [
      | inl bad ↦ rw bad tt
      | inr good ↦ rw good (slot fd (ground (arith, good)) (get_or ofile fd none) refl)
    ]
