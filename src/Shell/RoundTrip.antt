-- ===== src/Shell/RoundTrip.antt =====
-- The parser of xv6A1/sh.c reads back what the printer has written.
use operating_system_design.Prelude.{
  ℕ, zero, suc, ◌+◌, ◌*◌, ◌≤◌, ◌≡◌, refl, ap, ◌∙◌, false, List, [], ◌∷◌, ◌++◌, length, arith,
}
use operating_system_design.Shell.{
  Redir, Cmd, exec, redir, pipe, list, back, done, bind, has, is_white, skip_white, parseredirs,
  wrap, backs, parseline, parsepipe, parsecmd,
}
use operating_system_design.Shell.Loops.{IsCommand}
use operating_system_design.Shell.Printer.{words_to, sign, print_to, at_end, IsBare}
use operating_system_design.Shell.Steps.{
  length-print_to, parseexec-words_to, pipe_ends, pipe_more, line_ends, line_more, sign_still,
  parseredirs-sign,
}
use operating_system_design.Shell.Blocks.{
  Reads, block-print_to, bare_block, Closes, Ends-Closes, last_pipe, last_line,
}

two_units :
    (P : ℕ → Type 0) (n : ℕ)
    → 2 ≤ n
    → ((g : ℕ) → n ≤ suc (suc g) → P (suc (suc g)))
    → (f : ℕ) → n ≤ f
    → P f
two_units P n big k zero h = absurd (omega arith)
two_units P n big k (suc zero) h = absurd (omega arith)
two_units P n big k (suc (suc g)) h = k g h

Reads-exec : (ws : List (List ℕ)) → IsCommand (exec ws) → Reads (exec ws)
Reads-exec ws p fuel rest e =
    two_units (λ f. parseline f (words_to ws rest) ≡ done (exec ws) rest)
      (3 * length (words_to ws rest) + 3) (omega arith) from fuel
  where
    ends : Closes rest
    ends = Ends-Closes rest e

    from :
        (g : ℕ)
        → 3 * length (words_to ws rest) + 3 ≤ suc (suc g)
        → parseline (suc (suc g)) (words_to ws rest) ≡ done (exec ws) rest
    from zero h = absurd (omega arith)
    from (suc g) h =
        line_ends (suc (suc g)) _ rest rest _ _
          (pipe_ends (suc g) _ rest _ (parseexec-words_to g ws rest p e) ends.bare.still
            ends.no_pipe)
          (ends.no_back (exec ws)) ends.no_list

paren_still : (ts : List ℕ) → skip_white (b'(' ∷ ts) ≡ b'(' ∷ ts
unfolding skip_white is_white has
paren_still ts = refl

Reads-redir : (c : Cmd) (r : Redir) → IsCommand (redir c r) → Reads c → Reads (redir c r)
unfolding wrap
Reads-redir c r p ih fuel rest e =
    let tail = sign r ∷ (r.file ++ rest) in
    let text = print_to c (b')' ∷ tail) in
    let ends = Ends-Closes rest e in
    two_units (λ f. parseline f (b'(' ∷ text) ≡ done (redir c r) rest)
      (3 * length (b'(' ∷ text) + 3) (omega arith)
      (λ g h.
        line_ends (suc g) _ rest rest _ _
          (pipe_ends g _ rest _
            (block-print_to g c tail rest (r ∷ []) p.0 ih (omega arith)
              (ap parseredirs (sign_still r (r.file ++ rest)) ∙ parseredirs-sign r rest p.1 e))
            ends.bare.still ends.no_pipe)
          (ends.no_back (redir c r)) ends.no_list)
      fuel

pipe-IsBare : (ts : List ℕ) → IsBare (b'|' ∷ ts)
unfolding skip_white is_white has
pipe-IsBare ts = record { still = refl; no_redir = refl }

semicolon-IsBare : (ts : List ℕ) → IsBare (b';' ∷ ts)
unfolding skip_white is_white has
semicolon-IsBare ts = record { still = refl; no_redir = refl }

ampersand-IsBare : (ts : List ℕ) → IsBare (b'&' ∷ ts)
unfolding skip_white is_white has
ampersand-IsBare ts = record { still = refl; no_redir = refl }

-- No `|` stands behind the block.
block_only :
    (fuel c : ℕ) (cmd : Cmd) (ts : List ℕ)
    → IsCommand cmd
    → Reads cmd
    → 3 * length (print_to cmd (b')' ∷ (c ∷ ts))) + 4 ≤ fuel
    → IsBare (c ∷ ts)
    → has c (b'|' ∷ []) ≡ false
    → parsepipe (suc fuel) (b'(' ∷ print_to cmd (b')' ∷ (c ∷ ts))) ≡ done cmd (c ∷ ts)
block_only fuel c cmd ts p ih h b no_pipe =
    pipe_ends fuel _ (c ∷ ts) cmd (bare_block fuel cmd (c ∷ ts) p ih h b) b.still no_pipe

Reads-pipe : (l r : Cmd) → IsCommand (pipe l r) → Reads l → Reads r → Reads (pipe l r)
Reads-pipe l r p left right fuel rest e =
    let second = b'(' ∷ print_to r (b')' ∷ rest) in
    let text = print_to l (b')' ∷ (b'|' ∷ second)) in
    let longer = length-print_to l (b')' ∷ (b'|' ∷ second)) in
    let ends = Ends-Closes rest e in
    two_units (λ f. parseline f (b'(' ∷ text) ≡ done (pipe l r) rest) (3 * length (b'(' ∷ text) + 3)
      (omega arith)
      (λ g h.
        line_ends (suc g) _ rest rest _ _
          (pipe_more g _ second rest l r
            (bare_block g l (b'|' ∷ second) p.0 left (omega arith) (pipe-IsBare second))
            (paren_still (print_to r (b')' ∷ rest))) (last_pipe g r rest p.1 right (omega arith) e))
          (ends.no_back (pipe l r)) ends.no_list)
      fuel

Reads-list : (l r : Cmd) → IsCommand (list l r) → Reads l → Reads r → Reads (list l r)
unfolding has
Reads-list l r p left right fuel rest e =
    let second = b'(' ∷ print_to r (b')' ∷ rest) in
    let text = print_to l (b')' ∷ (b';' ∷ second)) in
    let longer = length-print_to l (b')' ∷ (b';' ∷ second)) in
    two_units (λ f. parseline f (b'(' ∷ text) ≡ done (list l r) rest) (3 * length (b'(' ∷ text) + 3)
      (omega arith)
      (λ g h.
        line_more (suc g) _ second rest l r
          (block_only g b';' l second p.0 left (omega arith) (semicolon-IsBare second) refl)
          (paren_still (print_to r (b')' ∷ rest)))
          (last_line (suc g) r rest p.1 right (omega arith) e))
      fuel

ampersand_lem : (c : Cmd) (rest : List ℕ) → backs c (b'&' ∷ rest) ≡ backs (back c) rest
unfolding backs is_white has
ampersand_lem c rest = refl

Reads-back : (c : Cmd) → IsCommand (back c) → Reads c → Reads (back c)
unfolding has
Reads-back c p ih fuel rest e =
    let text = print_to c (b')' ∷ (b'&' ∷ rest)) in
    let ends = Ends-Closes rest e in
    two_units (λ f. parseline f (b'(' ∷ text) ≡ done (back c) rest) (3 * length (b'(' ∷ text) + 3)
      (omega arith)
      (λ g h.
        line_ends (suc g) _ (b'&' ∷ rest) rest c (back c)
          (block_only g b'&' c rest p ih (omega arith) (ampersand-IsBare rest) refl)
          (ampersand_lem c rest ∙ ends.no_back (back c)) ends.no_list)
      fuel

print_to-Reads : (c : Cmd) → IsCommand c → Reads c
print_to-Reads (exec ws) p = Reads-exec ws p
print_to-Reads (redir c r) p = Reads-redir c r p (print_to-Reads c p.0)
print_to-Reads (pipe l r) p = Reads-pipe l r p (print_to-Reads l p.0) (print_to-Reads r p.1)
print_to-Reads (list l r) p = Reads-list l r p (print_to-Reads l p.0) (print_to-Reads r p.1)
print_to-Reads (back c) p = Reads-back c p (print_to-Reads c p)

-- `parsecmd` reads a printed command back, where the command has at most nine words in each
-- `execcmd`, no word or file name that is empty or has white space or a symbol in it, and
-- redirections of file 0 for reading and of file 1 for writing only.
pub parsecmd-print_to : (c : Cmd) → IsCommand c → parsecmd (print_to c []) ≡ done c []
unfolding parsecmd bind skip_white
parsecmd-print_to c p =
    rw (print_to-Reads c p (3 * length (print_to c []) + 3) [] at_end (omega arith)) refl
