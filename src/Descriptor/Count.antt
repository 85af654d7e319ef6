-- ===== src/Descriptor/Count.antt =====
-- `sys_dup` and `sys_close` of xv6A1/sysfile.c and the reference counts of xv6A1/file.c.
use mathlib.Core.Path.{subst}
use operating_system_design.Prelude.{
  ℕ, ◌+◌, ◌-◌, ◌^◌, ◌<◌, ◌≤◌, ◌≡◌, refl, ap, ◌∙◌, Option, none, some, List, [], ◌∷◌, arith, get_or,
  set, length-set, ==-refl, total-set, total_part,
}
use operating_system_design.Args.{UserSpace}
use operating_system_design.File.{file_at, filedup, fileclose}
use operating_system_design.Descriptor.{
  nofile, argfd, find_null, placed, fdalloc, Open, returning, sys_dup, closed, sys_close,
}
use operating_system_design.Descriptor.Refs.{
  hit, count, Counted, count_most, find_null_lem, filedup-ref, fileclose-ref, Argument,
  argfd-Argument,
}

-- What a system call leaves: it does not panic, and the counts are right.
abbrev pub Keeps : (ℕ → ℕ) → Option (Option ℕ × Open) → Type 0
Keeps others none = ⊥
Keeps others (some (ret, o)) = Counted others o

module _ (others : ℕ → ℕ) (few : (i : ℕ) → others i + nofile + 1 < 2 ^ 31) where
  live_file :
      (o : Open) (fd f : ℕ)
      → Counted others o
      → fd < nofile
      → get_or o.ofile fd none ≡ some f
      → (1 ≤ (file_at o.table f).ref) × ((file_at o.table f).ref + 1 < 2 ^ 31)
  live_file o fd f c lt e =
      let one : hit f (some f) ≡ 1 = rw (==-refl f) refl in
      let held : hit f (some f) ≤ count f o.ofile =
        subst (λ d. hit f d ≤ count f o.ofile) e
          (total_part (hit f) fd o.ofile none (omega (arith, c.slots))) in
      (
        omega (arith, held, one, c.refs f),
        omega (arith, c.refs f, count_most f o.ofile, c.slots, few f),
      )

  sys_dup-Keeps : (p : UserSpace) (o : Open) → Counted others o → Keeps others (sys_dup p o)
  unfolding sys_dup fdalloc
  sys_dup-Keeps p o c = from (argfd p o.ofile 0) (argfd-Argument p o.ofile 0)
    where
      null :
          (f : ℕ)
          → (1 ≤ (file_at o.table f).ref) × ((file_at o.table f).ref + 1 < 2 ^ 31)
          → (x : Option ℕ) → find_null 0 o.ofile ≡ x
          → Keeps others (elim (placed f o.ofile x) [
            | none ↦ some (none, o)
            | some (fd, ofile) ↦ returning (some fd) ofile (filedup f o.table)
          ])
      null f live none e = c
      null f live (some fd) e =
          let (t', done, refs) = filedup-ref o.table f live.0 live.1 in
          let (_, lt, found) = find_null_lem 0 o.ofile fd e in
          let z : fd - 0 ≡ fd = omega arith in
          let free : get_or o.ofile fd none ≡ none =
            subst (λ k. get_or o.ofile k none ≡ none) z found in
          rw done (record {
            slots = length-set o.ofile fd (some f) ∙ c.slots;
            refs = λ i. omega (
              arith,
              refs i,
              c.refs i,
              total-set (hit i) fd o.ofile (some f) none (omega (arith, lt)),
              ap (hit i) free,
            );
          })

      from :
          (x : Option (ℕ × ℕ))
          → Argument o.ofile x
          → Keeps others (elim x [
            | none ↦ some (none, o)
            | some (_, f) ↦ elim (fdalloc f o.ofile) [
              | none ↦ some (none, o)
              | some (fd, ofile) ↦ returning (some fd) ofile (filedup f o.table)
            ]
          ])
      from none a = c
      from (some (fd, f)) a = null f (live_file o fd f c a.0 a.1) (find_null 0 o.ofile) refl

  sys_close-Keeps : (p : UserSpace) (o : Open) → Counted others o → Keeps others (sys_close p o)
  unfolding sys_close
  sys_close-Keeps p o c = from (argfd p o.ofile 0) (argfd-Argument p o.ofile 0)
    where
      from :
          (x : Option (ℕ × ℕ))
          → Argument o.ofile x
          → Keeps others (elim x [
            | none ↦ some (none, o)
            | some (fd, f) ↦ returning (some 0) (set o.ofile fd none) (closed (fileclose f o.table))
          ])
      from none a = c
      from (some (fd, f)) a =
          let live = live_file o fd f c a.0 a.1 in
          let (t', done, refs) = fileclose-ref o.table f live.0 (omega (arith, live.1)) in
          rw done (record {
            slots = length-set o.ofile fd none ∙ c.slots;
            refs = λ i. omega (
              arith,
              refs i,
              c.refs i,
              total-set (hit i) fd o.ofile none none (omega (arith, a.0, c.slots)),
              ap (hit i) a.1,
            );
          })

-- System calls of a process, each with the user memory that it is made in.
pub data Call : Type 0 where
  dup : UserSpace → Call
  close : UserSpace → Call

abbrev pub perform : Call → Open → Option (Option ℕ × Open)
perform (dup p) o = sys_dup p o
perform (close p) o = sys_close p o

-- One call after the other; `none` if one panics.
unfoldable pub run : List Call → Open → Option Open
run [] o = some o
run (c ∷ cs) o = elim (perform c o) [ none ↦ none | some (_, o') ↦ run cs o' ]

-- Any sequence of `sys_dup` and `sys_close`, whatever their arguments, runs without a panic, and
-- then again each file's count is the number of the process's descriptors for it and of the
-- references held elsewhere: where it was so before, and those elsewhere are fewer than 2 ^ 31 -
-- 17 for each file.
pub run-Counted :
    (others : ℕ → ℕ)
    → ((i : ℕ) → others i + nofile + 1 < 2 ^ 31)
    → (cs : List Call) (o : Open) → Counted others o
    → (o' : Open) × (run cs o ≡ some o') × Counted others o'
unfolding run
run-Counted others few [] o c = (o, refl, c)
run-Counted others few (call ∷ cs) o c =
    from (λ o' h. run-Counted others few cs o' h) (perform call o) (keeps call)
  where
    keeps : (k : Call) → Keeps others (perform k o)
    keeps (dup p) = sys_dup-Keeps others few p o c
    keeps (close p) = sys_close-Keeps others few p o c

    from :
        ((o' : Open)
          → Counted others o'
          → (o'' : Open) × (run cs o' ≡ some o'') × Counted others o'')
        → (x : Option (Option ℕ × Open)) → Keeps others x
        → (o' : Open) × (elim x [ none ↦ none | some (_, o') ↦ run cs o' ] ≡ some o')
          × Counted others o'
    from again none h = absurd h
    from again (some (ret, o')) h = again o' h
