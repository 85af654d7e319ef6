-- ===== src/Shell/Blocks.antt =====
-- Printed commands in parentheses under the parser of xv6A1/sh.c.
use operating_system_design.Prelude.{
  ℕ, zero, suc, ◌+◌, ◌*◌, ◌≤◌, ◌≡◌, refl, ap, ◌∙◌, false, List, [], ◌∷◌, length, arith,
}
use operating_system_design.Shell.{
  Redir, Cmd, done, has, is_white, skip_white, next_in, parseredirs, wrap, backs, parseline,
  parsepipe, parseexec,
}
use operating_system_design.Shell.Loops.{IsCommand}
use operating_system_design.Shell.Printer.{
  print_to, Ends, at_end, at_paren, IsBare, IsBare-Ends, IsBare-print_to, parseredirs_none,
}
use operating_system_design.Shell.Steps.{pipe_ends, line_ends, block_lem}

-- The parser reads the command back, whatever may follow it.
abbrev pub Reads : Cmd → Type 0
Reads c =
    (fuel : ℕ) (rest : List ℕ)
    → Ends rest
    → 3 * length (print_to c rest) + 3 ≤ fuel
    → parseline fuel (print_to c rest) ≡ done c rest

pub block-print_to :
    (fuel : ℕ) (c : Cmd) (t t' : List ℕ) (rs : List Redir)
    → IsCommand c
    → Reads c
    → 3 * length (print_to c (b')' ∷ t)) + 4 ≤ fuel
    → parseredirs (skip_white t) ≡ done rs t'
    → parseexec fuel (b'(' ∷ print_to c (b')' ∷ t)) ≡ done (wrap c rs) t'
block-print_to zero c t t' rs p ih h behind = absurd (omega arith)
block-print_to (suc fuel) c t t' rs p ih h behind =
    let bare = IsBare-print_to c (b')' ∷ t) p at_paren in
    block_lem fuel (print_to c (b')' ∷ t)) t t' c rs bare.still
      (ih fuel (b')' ∷ t) at_paren (omega arith)) behind

-- A block that no redirection follows.
pub bare_block :
    (fuel : ℕ) (c : Cmd) (t : List ℕ)
    → IsCommand c
    → Reads c
    → 3 * length (print_to c (b')' ∷ t)) + 4 ≤ fuel
    → IsBare t
    → parseexec fuel (b'(' ∷ print_to c (b')' ∷ t)) ≡ done c t
unfolding wrap
bare_block fuel c t p ih h b =
    block-print_to fuel c t t [] p ih h (ap parseredirs b.still ∙ parseredirs_none t b)

-- What `parsepipe` and `parseline` find at the end of a command.
pub record Closes (rest : List ℕ) : Type 0 where
  pub bare : IsBare rest
  pub no_pipe : next_in (b'|' ∷ []) rest ≡ false
  pub no_list : next_in (b';' ∷ []) rest ≡ false
  pub no_back : (c : Cmd) → backs c rest ≡ (c, rest)

pub Ends-Closes : (rest : List ℕ) → Ends rest → Closes rest
unfolding backs is_white has
Ends-Closes rest at_end = record {
  bare = IsBare-Ends _ at_end;
  no_pipe = refl;
  no_list = refl;
  no_back = λ c. refl;
}
Ends-Closes rest at_paren = record {
  bare = IsBare-Ends _ at_paren;
  no_pipe = refl;
  no_list = refl;
  no_back = λ c. refl;
}

pub last_pipe :
    (fuel : ℕ) (c : Cmd) (rest : List ℕ)
    → IsCommand c
    → Reads c
    → 3 * length (print_to c (b')' ∷ rest)) + 5 ≤ fuel
    → Ends rest
    → parsepipe fuel (b'(' ∷ print_to c (b')' ∷ rest)) ≡ done c rest
last_pipe zero c rest p ih h e = absurd (omega arith)
last_pipe (suc fuel) c rest p ih h e =
    let ends = Ends-Closes rest e in
    pipe_ends fuel _ rest c (bare_block fuel c rest p ih (omega arith) ends.bare) ends.bare.still
      ends.no_pipe

pub last_line :
    (fuel : ℕ) (c : Cmd) (rest : List ℕ)
    → IsCommand c
    → Reads c
    → 3 * length (print_to c (b')' ∷ rest)) + 6 ≤ fuel
    → Ends rest
    → parseline fuel (b'(' ∷ print_to c (b')' ∷ rest)) ≡ done c rest
last_line zero c rest p ih h e = absurd (omega arith)
last_line (suc fuel) c rest p ih h e =
    let ends = Ends-Closes rest e in
    line_ends fuel _ rest rest c c (last_pipe fuel c rest p ih (omega arith) e) (ends.no_back c)
      ends.no_list
