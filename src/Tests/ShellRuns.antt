-- ===== src/Tests/ShellRuns.antt =====
-- Command lines of xv6A1/sh.c.
use operating_system_design.Prelude.{ℕ, ◌≡◌, refl, inr, List, [], ◌∷◌, arith}
use operating_system_design.Shell.{
  Cmd, exec, redir, pipe, list, back, done, has, is_white, is_symbol, parsecmd,
}
use operating_system_design.Shell.Printer.{print_to}
use operating_system_design.Shell.RoundTrip.{parsecmd-print_to}
use operating_system_design.Shell.Total.{IsParsed, parsecmd-IsParsed}

-- `ls|wc >o`
abbrev line : List ℕ
line = b'l' ∷ (b's' ∷ (b'|' ∷ (b'w' ∷ (b'c' ∷ (b' ' ∷ (b'>' ∷ (b'o' ∷ [])))))))

-- `ls | wc > o; echo hi &`
abbrev commands : Cmd
commands =
    list
      (pipe (exec ((b'l' ∷ (b's' ∷ [])) ∷ [])) (
        redir (exec ((b'w' ∷ (b'c' ∷ [])) ∷ []))
          (record { file = b'o' ∷ []; mode = 0x201; fd = 1 })))
      (back (exec ((b'e' ∷ []) ∷ ((b'h' ∷ (b'i' ∷ [])) ∷ []))))

parsecmd-IsParsed_example : IsParsed (parsecmd line)
parsecmd-IsParsed_example = parsecmd-IsParsed line

parsecmd-print_to_example : parsecmd (print_to commands []) ≡ done commands []
unfolding has is_white is_symbol
parsecmd-print_to_example = parsecmd-print_to commands (
  (
    (omega arith, ((refl, (refl, tt)), tt)),
    ((omega arith, ((refl, (refl, tt)), tt)), ((refl, tt), inr (refl, refl))),
  ),
  (omega arith, ((refl, tt), ((refl, (refl, tt)), tt))),
)
