-- ===== src/Log/Space.antt =====
-- Space in the log of xv6A1/log.c: any number of file-system calls, interleaved in any order, each
-- of which writes at most MAXOPBLOCKS blocks between its `begin_op` and its `end_op`.
use mathlib.Core.Path.{subst}
use native.Mathlib.Decide.{ℕ_discrete}
use operating_system_design.Prelude.{
  ℕ, suc, ◌+◌, ◌-◌, ◌*◌, ◌<◌, ◌≤◌, ◌≡◌, ◌≢◌, refl, sym, arith, leb, Bool, List, [], ◌∷◌, ◌++◌,
  Option, some, none, length, length-append, false, true, ap, ◌∙◌, ◌⊎◌, inl, inr,
}
use operating_system_design.Disk.{Dev}
use operating_system_design.Log.{
  Log, log_size, max_op_blocks, begin_op, end_op_enter, end_op_leave, log_write, commit,
  commit_pending,
}

-- The log, its device, for each call in progress how many blocks it may still write, and for each
-- call that has to commit whether it has done so.
pub record Calls : Type 0 where
  pub log : Log
  pub dev : Dev
  pub credits : List ℕ
  pub commits : List Bool

pub data Step (s : Calls) : Calls → Type 0 where
  begin :
      {lg : Log}
      → begin_op s.log ≡ some lg
      → Step s (record s { log = lg; credits = max_op_blocks ∷ s.credits })
  write :
      {lg : Log} (before after : List ℕ) (c blockno : ℕ)
      → s.credits ≡ before ++ (suc c ∷ after)
      → log_write s.log blockno ≡ some lg
      → Step s (record s { log = lg; credits = before ++ (c ∷ after) })
  finish :
      {lg : Log} (before after : List ℕ) (c : ℕ)
      → s.credits ≡ before ++ (c ∷ after)
      → end_op_enter s.log ≡ some (false, lg)
      → Step s (record s { log = lg; credits = before ++ after })
  finish_last :
      {lg : Log} (before after : List ℕ) (c : ℕ)
      → s.credits ≡ before ++ (c ∷ after)
      → end_op_enter s.log ≡ some (true, lg)
      → Step s (record s { log = lg; credits = before ++ after; commits = false ∷ s.commits })
  run :
      (before after : List Bool)
      → s.commits ≡ before ++ (false ∷ after)
      → Step s (record s {
        log = (commit s.log s.dev).0;
        dev = (commit s.log s.dev).1;
        commits = before ++ (true ∷ after);
      })
  leave :
      (before after : List Bool)
      → s.commits ≡ before ++ (true ∷ after)
      → Step s (record s { log = end_op_leave s.log; commits = before ++ after })

pub data Reach (s : Calls) : Calls → Type 0 where
  here : Reach s s
  next : {t u : Calls} → Reach s t → Step t u → Reach s u

abbrev pub sum : List ℕ → ℕ
sum [] = 0
sum (x ∷ xs) = x + sum xs

sum-append : (xs ys : List ℕ) → sum (xs ++ ys) ≡ sum xs + sum ys
sum-append [] ys = omega arith
sum-append (x ∷ xs) ys = omega (arith, sum-append xs ys)

-- Every call may write at most MAXOPBLOCKS more blocks.
abbrev pub Within : List ℕ → Type 0
Within [] = Unit {0}
Within (x ∷ xs) = (x ≤ max_op_blocks) × Within xs

sum-Within : (xs : List ℕ) → Within xs → sum xs ≤ length xs * max_op_blocks
sum-Within [] w = omega arith
sum-Within (x ∷ xs) w = omega (arith, sum-Within xs w.1)

Within-write : (xs ys : List ℕ) (c : ℕ) → Within (xs ++ (suc c ∷ ys)) → Within (xs ++ (c ∷ ys))
Within-write [] ys c w = (omega arith, w.1)
Within-write (x ∷ xs) ys c w = (w.0, Within-write xs ys c w.1)

Within-finish : (xs ys : List ℕ) (c : ℕ) → Within (xs ++ (c ∷ ys)) → Within (xs ++ ys)
Within-finish [] ys c w = w.1
Within-finish (x ∷ xs) ys c w = (w.0, Within-finish xs ys c w.1)

abbrev pub flag : Bool → ℕ
flag false = 0
flag true = 1

-- What is logged and what may still be written fit the header, and at most one call commits, while
-- none is in progress.
pub record HasSpace (s : Calls) : Type 0 where
  pub fits : s.log.n + sum s.credits ≤ log_size
  pub within : Within s.credits
  pub count : s.log.outstanding ≡ length s.credits
  pub few : s.log.outstanding ≤ 3
  pub alone : length s.commits ≡ flag s.log.committing
  pub quiet : (s.log.committing ≡ false) ⊎ (s.log.outstanding ≡ 0)

begin-HasSpace :
    {s : Calls} {lg : Log}
    → begin_op s.log ≡ some lg
    → HasSpace s
    → HasSpace (record s { log = lg; credits = max_op_blocks ∷ s.credits })
unfolding begin_op
begin-HasSpace {s} e h = ground (arith, sum-Within s.credits h.within)

log_write_fields :
    (lg : Log) {lg' : Log} (blockno : ℕ)
    → log_write lg blockno ≡ some lg'
    → (lg'.n ≤ lg.n + 1) × (lg'.outstanding ≡ lg.outstanding) × (lg'.committing ≡ lg.committing)
unfolding log_write
log_write_fields lg blockno e = ground arith

pub is_none {ℓ} : {A : Type ℓ} → Option A → Bool
is_none none = true
is_none (some x) = false

log_write-is_none :
    (lg : Log) (blockno : ℕ)
    → lg.n < log_size
    → 0 < lg.outstanding
    → is_none (log_write lg blockno) ≡ leb (lg.size - 1) lg.n
unfolding log_write is_none
log_write-is_none lg blockno a b = ground arith

end_op_enter-ne-none : (lg : Log) → lg.committing ≡ false → end_op_enter lg ≢ none
unfolding end_op_enter
end_op_enter-ne-none lg e = ground arith

write-HasSpace :
    {s : Calls} {lg : Log} (before after : List ℕ) (c blockno : ℕ)
    → s.credits ≡ before ++ (suc c ∷ after)
    → log_write s.log blockno ≡ some lg
    → HasSpace s
    → HasSpace (record s { log = lg; credits = before ++ (c ∷ after) })
write-HasSpace {s} {lg} before after c blockno split e h =
    let (less, calls, same) = log_write_fields s.log blockno e in
    let total = ap sum split ∙ sum-append before (suc c ∷ after) in
    let len = ap length split ∙ length-append before (suc c ∷ after) in
    record {
      fits = omega (arith, less, total, sum-append before (c ∷ after), h.fits);
      within = Within-write before after c (subst Within split h.within);
      count = omega (arith, calls, len, length-append before (c ∷ after), h.count);
      few = omega (arith, calls, h.few);
      alone = h.alone ∙ ap flag (sym same);
      quiet = rw (same, calls) h.quiet;
    }

commit_fields :
    (lg : Log) (d : Dev)
    → (let lg' = (commit lg d).0 in
        (lg'.n ≤ lg.n) × (lg'.outstanding ≡ lg.outstanding) × (lg'.committing ≡ lg.committing))
unfolding commit commit_pending
commit_fields lg d = ground arith

-- The fields after the first critical section of `end_op`.
end_op_enter_fields :
    (lg : Log) {lg' : Log} {last : Bool}
    → 0 < lg.outstanding
    → lg.outstanding ≤ 3
    → end_op_enter lg ≡ some (last, lg')
    → (lg'.n ≡ lg.n)
      × (lg'.outstanding + 1 ≡ lg.outstanding)
      × (lg.committing ≡ false)
      × (lg'.committing ≡ last)
      × ((last ≡ false) ⊎ (lg'.outstanding ≡ 0))
unfolding end_op_enter
end_op_enter_fields lg pos few e = ground arith

finish-HasSpace :
    {s : Calls} {lg : Log} {last : Bool} (before after : List ℕ) (c : ℕ) (commits : List Bool)
    → s.credits ≡ before ++ (c ∷ after)
    → end_op_enter s.log ≡ some (last, lg)
    → length commits ≡ length s.commits + flag last
    → HasSpace s
    → HasSpace (record s { log = lg; credits = before ++ after; commits = commits })
finish-HasSpace {s} before after c commits split e one h =
    let total = ap sum split ∙ sum-append before (c ∷ after) in
    let len = ap length split ∙ length-append before (c ∷ after) in
    let (same, less, free, now, quiet) =
      end_op_enter_fields s.log (omega (arith, len, h.count)) h.few e in
    record {
      fits = omega (arith, same, total, sum-append before after, h.fits);
      within = Within-finish before after c (subst Within split h.within);
      count = omega (arith, less, len, length-append before after, h.count);
      few = omega (arith, less, h.few);
      alone = rw now (omega (arith, one, h.alone, ap flag free));
      quiet = rw now quiet;
    }

run-HasSpace :
    {s : Calls} (before after : List Bool)
    → s.commits ≡ before ++ (false ∷ after)
    → HasSpace s
    → HasSpace (record s {
      log = (commit s.log s.dev).0;
      dev = (commit s.log s.dev).1;
      commits = before ++ (true ∷ after);
    })
run-HasSpace {s} before after split h =
    let (less, calls, same) = commit_fields s.log s.dev in
    let len = ap length split ∙ length-append before (false ∷ after) in
    record {
      fits = omega (arith, less, h.fits);
      within = h.within;
      count = calls ∙ h.count;
      few = omega (arith, calls, h.few);
      alone = length-append before (true ∷ after) ∙ sym len ∙ h.alone ∙ ap flag (sym same);
      quiet = rw (same, calls) h.quiet;
    }

flag-few : (b : Bool) → flag b ≤ 1
flag-few false = omega arith
flag-few true = omega arith

leave-HasSpace :
    {s : Calls} (before after : List Bool)
    → s.commits ≡ before ++ (true ∷ after)
    → HasSpace s
    → HasSpace (record s { log = end_op_leave s.log; commits = before ++ after })
unfolding end_op_leave
leave-HasSpace {s} before after split h =
    let len = ap length split ∙ length-append before (true ∷ after) in
    record {
      fits = h.fits;
      within = h.within;
      count = h.count;
      few = h.few;
      alone = omega (arith, len, length-append before after, h.alone, flag-few s.log.committing);
      quiet = inl refl;
    }

Step-HasSpace : {s t : Calls} → Step s t → HasSpace s → HasSpace t
Step-HasSpace (begin e) h = begin-HasSpace e h
Step-HasSpace (write before after c blockno split e) h =
    write-HasSpace before after c blockno split e h
Step-HasSpace (finish before after c split e) h =
    finish-HasSpace before after c _ split e (omega arith) h
Step-HasSpace (finish_last before after c split e) h =
    finish-HasSpace before after c _ split e (omega arith) h
Step-HasSpace (run before after split) h = run-HasSpace before after split h
Step-HasSpace (leave before after split) h = leave-HasSpace before after split h

Reach-HasSpace : {s t : Calls} → HasSpace s → Reach s t → HasSpace t
Reach-HasSpace h here = h
Reach-HasSpace h (next r st) = Step-HasSpace st (Reach-HasSpace h r)

-- While a call is in progress no call commits.
no_commits :
    (s : Calls) → HasSpace s → 0 < length s.credits → (s.log.committing ≡ false) × (s.commits ≡ [])
no_commits s h some_call = elim h.quiet [
  | inl free ↦ (free, empty s.commits (h.alone ∙ ap flag free))
  | inr none_left ↦ absurd (omega (arith, h.count, none_left))
]
  where
    empty : (xs : List Bool) → length xs ≡ 0 → xs ≡ []
    empty [] e = refl
    empty (x ∷ xs) e = absurd (omega (arith, e))

-- Let what is logged and what the calls in progress may still write be at most LOGSIZE blocks, with
-- at most MAXOPBLOCKS for a call; let `outstanding` be the number of these calls, at most 3, and let
-- `committing` say whether a call commits, which is one at most, and none while a call is in
-- progress. Whatever steps calls make from there, in any order, while a call is in progress no other
-- commits, and its `end_op` does not panic. If it has written fewer than MAXOPBLOCKS blocks,
-- `log_write` panics exactly if no fewer blocks are logged than the log on the disk has behind its
-- header.
pub calls_total :
    (s t : Calls) (before after : List ℕ) (c blockno : ℕ)
    → HasSpace s
    → Reach s t
    → t.credits ≡ before ++ (c ∷ after)
    → (t.commits ≡ [])
      × (end_op_enter t.log ≢ none)
      × ((c ≡ 0) ⊎ (is_none (log_write t.log blockno) ≡ leb (t.log.size - 1) t.log.n))
calls_total s t before after c blockno h r split =
    let g = Reach-HasSpace h r in
    let total = ap sum split ∙ sum-append before (c ∷ after) in
    let len = ap length split ∙ length-append before (c ∷ after) in
    let (free, nobody) = no_commits t g (omega (arith, len)) in
    (
      nobody,
      end_op_enter-ne-none t.log free,
      elim (ℕ_discrete c 0) [
        | yes e ↦ inl e
        | no ne ↦ inr (
            log_write-is_none t.log blockno (omega (arith, g.fits, total))
              (omega (arith, g.count, len)))
      ],
    )
