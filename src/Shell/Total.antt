-- ===== src/Shell/Total.antt =====
-- The parser of xv6A1/sh.c on every line: it returns a command of the line's words, or panics.
use operating_system_design.Prelude.{
  ℕ, zero, suc, ◌+◌, ◌*◌, ◌≤◌, ◌≡◌, refl, List, [], ◌∷◌, length, arith, Bool-cases, inl, inr, ◌⊎◌,
}
use operating_system_design.Shell.{
  Cmd, Result, done, panics, bind, skip_white, next_in, gettoken, backs, parseline, parsepipe,
  parseexec, whole_line, parsecmd,
}
use operating_system_design.Shell.Loops.{
  IsCommand, Good, good_done, good_panics, bind-Good, parse_words-Good, backs-IsCommand,
  length-backs, end_block-Good,
}
use operating_system_design.Shell.Tokens.{length-skip_white, length-gettoken_next}

mutual
  unfolding parseline parsepipe parseexec

  parseline-Good :
      (fuel n : ℕ) (ts : List ℕ)
      → 3 * length ts + 3 ≤ fuel
      → length ts ≤ n
      → Good IsCommand n (parseline fuel ts)
  parseline-Good zero n ts h le = absurd (omega arith)
  parseline-Good (suc fuel) n ts h le =
      bind-Good (parsepipe-Good fuel (length ts) ts (omega arith) (omega arith)) (λ c mid is_c le'.
        let cmd = (backs c mid).0 in
        let ts' = (backs c mid).1 in
        let is_cmd = backs-IsCommand c mid is_c in
        let left = length-backs c mid in
        elim (Bool-cases (next_in (b';' ∷ []) ts')) [
          | inl more ↦
              let less = length-gettoken_next _ ts' more in
              rw more (
                bind-Good (parseline-Good fuel n (gettoken ts').2 (omega arith) (omega arith))
                  (λ right end is_right le''. good_done (is_cmd, is_right) le''))
          | inr no_more ↦ rw no_more (good_done is_cmd (omega arith))
        ])

  parsepipe-Good :
      (fuel n : ℕ) (ts : List ℕ)
      → 3 * length ts + 2 ≤ fuel
      → length ts ≤ n
      → Good IsCommand n (parsepipe fuel ts)
  parsepipe-Good zero n ts h le = absurd (omega arith)
  parsepipe-Good (suc fuel) n ts h le =
      bind-Good (parseexec-Good fuel (length ts) ts (omega arith) (omega arith))
        (λ cmd mid is_cmd le'.
          let ts' = skip_white mid in
          let left = length-skip_white mid in
          elim (Bool-cases (next_in (b'|' ∷ []) ts')) [
            | inl more ↦
                let less = length-gettoken_next _ ts' more in
                rw more (
                  bind-Good (parsepipe-Good fuel n (gettoken ts').2 (omega arith) (omega arith))
                    (λ right end is_right le''. good_done (is_cmd, is_right) le''))
            | inr no_more ↦ rw no_more (good_done is_cmd (omega arith))
          ])

  parseexec-Good :
      (fuel n : ℕ) (ts : List ℕ)
      → 3 * length ts + 1 ≤ fuel
      → length ts ≤ n
      → Good IsCommand n (parseexec fuel ts)
  parseexec-Good zero n ts h le = absurd (omega arith)
  parseexec-Good (suc fuel) n ts h le =
      let ts' = skip_white ts in
      let left = length-skip_white ts in
      elim (Bool-cases (next_in (b'(' ∷ []) ts')) [
        | inl block ↦
            let less = length-gettoken_next _ ts' block in
            rw block (
              bind-Good (parseline-Good fuel n (gettoken ts').2 (omega arith) (omega arith))
                (λ c mid is_c le'. end_block-Good n c mid is_c le'))
        | inr words ↦ rw words (parse_words-Good n ts' (omega arith))
      ]

-- A line's outcome: a command as the parser may build one, from all of the line, or a panic.
abbrev pub IsParsed : Result Cmd → Type 0
IsParsed r = ((c : Cmd) × (IsCommand c × (r ≡ done c []))) ⊎ (r ≡ panics)

whole_line-IsParsed : (c : Cmd) (ts : List ℕ) → IsCommand c → IsParsed (whole_line c ts)
whole_line-IsParsed c ts h = from (skip_white ts) refl
  where
    from : (us : List ℕ) → skip_white ts ≡ us → IsParsed (whole_line c ts)
    from [] e = inl (c, (h, rw (whole_line, e) refl))
    from (x ∷ xs) e = inr (rw (whole_line, e) refl)

-- `parsecmd` ends on every line: it panics, or it has read the whole line, and the command that it
-- returns has at most nine words for each `execcmd` and no word or file name that is empty or has
-- white space or a symbol in it, and redirects only file 0 for reading and file 1 for writing.
pub parsecmd-IsParsed : (s : List ℕ) → IsParsed (parsecmd s)
unfolding parsecmd bind
parsecmd-IsParsed s =
    outcome _ (parseline-Good (3 * length s + 3) (length s) s (omega arith) (omega arith))
  where
    outcome : (r : Result Cmd) → Good IsCommand (length s) r → IsParsed (bind r whole_line)
    outcome _ (good_done {a} {ts} p le) = whole_line-IsParsed a ts p
    outcome _ good_panics = inr refl
