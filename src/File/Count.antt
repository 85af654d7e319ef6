-- ===== src/File/Count.antt =====
-- Reference counts of xv6A1/file.c against the holders of the files, in any order of calls.
use native.Mathlib.Decide.{ℕ_discrete}
use mathlib.Core.Path.{subst}
use operating_system_design.Prelude.{
  ℕ, suc, ◌+◌, ◌-◌, ◌<◌, ◌^◌, ◌≡◌, refl, sym, ap, ◌∙◌, ◌⊎◌, inl, inr, some, List, [], ◌∷◌, ◌++◌,
  length, length-append, set, arith,
}
use operating_system_design.File.{
  File, FileType, FileCall, file_at, find_free, filealloc, filedup, fileclose, close_calls,
}
use operating_system_design.File.Slots.{
  occurs, occurs-length, occurs_split, set-counts, cons-other, cons_self, in_table, alloc-counts,
  filedup-eq, fileclose_last, fileclose_more, close-counts,
}

-- The table, and the file behind each descriptor and each call in progress.
pub record Files : Type 0 where
  pub table : List File
  pub holders : List ℕ

pub data Step (s : Files) : Files → Type 0 where
  allocs :
      {i : ℕ} {t : List File}
      → length s.holders + 1 < 2 ^ 31
      → filealloc s.table ≡ (some i, t)
      → Step s (record { table = t; holders = i ∷ s.holders })
  dups :
      {t : List File} (i : ℕ)
      → length s.holders + 1 < 2 ^ 31
      → 0 < occurs i s.holders
      → filedup i s.table ≡ some t
      → Step s (record { table = t; holders = i ∷ s.holders })
  closes :
      {t : List File} {calls : List FileCall} (before after : List ℕ) (i : ℕ)
      → s.holders ≡ before ++ (i ∷ after)
      → fileclose i s.table ≡ some (t, calls)
      → Step s (record { table = t; holders = before ++ after })

pub data Reach (s : Files) : Files → Type 0 where
  here : Reach s s
  next : {t u : Files} → Reach s t → Step t u → Reach s u

-- Every file counts its holders.
pub record IsCounted (s : Files) : Type 0 where
  pub counts : (i : ℕ) → (file_at s.table i).ref ≡ occurs i s.holders
  pub few : length s.holders < 2 ^ 31

Step-IsCounted : {s u : Files} → Step s u → IsCounted s → IsCounted u
unfolding filealloc
Step-IsCounted {s} (allocs room e) c = record {
  counts = alloc-counts s.table (find_free 0 s.table) s.holders c.counts refl e;
  few = omega arith;
}
Step-IsCounted {s} {u} (dups i room held e) c =
    let t = s.table in
    let pos : 0 < (file_at t i).ref = omega (arith, c.counts i) in
    let up = filedup-eq t i pos (omega (arith, c.counts i, occurs-length i s.holders)) in
    let same : set t i (record (file_at t i) { ref = (file_at t i).ref + 1 }) ≡ u.table =
      cc (up, e) in
    record {
      counts =
          subst (λ x. (j : ℕ) → (file_at x j).ref ≡ occurs j (i ∷ s.holders)) same
            (set-counts t i ((file_at t i).ref + 1)
              (record (file_at t i) { ref = (file_at t i).ref + 1 }) s.holders (i ∷ s.holders)
              (in_table t i pos) refl (omega (arith, cons_self i s.holders, c.counts i))
              (λ j ne. cons-other i j s.holders ne) c.counts);
      few = omega arith;
    }
Step-IsCounted {s} (closes before after i split e) c =
    let counted = ap (occurs i) split ∙ occurs_split i i before after in
    let sizes = ap length split ∙ length-append before (i ∷ after) in
    record {
      counts =
          close-counts s.table i s.holders (before ++ after) c.counts c.few
            (ground (arith, counted))
            (λ j ne. sym (ap (occurs j) split ∙ occurs_split j i before after ∙ ground arith)) e;
      few = omega (arith, sizes, length-append before after, c.few);
    }

-- From a table whose files count their holders, with fewer than 2 ^ 31 holders, every sequence of
-- `filealloc`, of `filedup` of files that are held and of `fileclose` by a holder keeps the counts
-- right, as long as the holders stay fewer than 2 ^ 31.
pub Reach-IsCounted : {s t : Files} → IsCounted s → Reach s t → IsCounted t
Reach-IsCounted c here = c
Reach-IsCounted c (next r st) = Step-IsCounted st (Reach-IsCounted c r)

-- In a state that such a sequence reaches, a holder's `fileclose` does not panic. If it is the last
-- holder, the slot becomes free and the file's pipe is closed or its inode given up; else the count
-- alone changes, and nothing is closed.
pub fileclose_lem :
    (s u : Files) (before after : List ℕ) (i : ℕ)
    → IsCounted s
    → Reach s u
    → u.holders ≡ before ++ (i ∷ after)
    → (let f = file_at u.table i in
        let others = occurs i (before ++ after) in
        ((others ≡ 0)
          × (fileclose i u.table
              ≡ some
                  (set u.table i (record f { ref = 0; type = FileType.fd_none }), close_calls f)))
        ⊎ ((0 < others)
            × (fileclose i u.table ≡ some (set u.table i (record f { ref = others }), []))))
fileclose_lem s u before after i c r split =
    let g = Reach-IsCounted c r in
    let f = file_at u.table i in
    let others = occurs i (before ++ after) in
    let counted : occurs i u.holders ≡ suc others =
      ground (arith, ap (occurs i) split ∙ occurs_split i i before after) in
    let count = g.counts i ∙ counted in
    elim (ℕ_discrete others 0) [
      | yes last ↦ inl (last, fileclose_last u.table i (omega (arith, count, last)))
      | no more ↦
          let down : f.ref - 1 ≡ others = omega (arith, count) in
          inr (
            omega (arith, more),
            subst (λ n. fileclose i u.table ≡ some (set u.table i (record f { ref = n }), [])) down
                (fileclose_more u.table i (omega (arith, count, more))
                  (omega (arith, g.counts i, occurs-length i u.holders, g.few))),
          )
    ]
