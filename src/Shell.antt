-- ===== src/Shell.antt =====
-- xv6A1/sh.c: the parser of command lines. A line is the list of its bytes without the NUL, and a
-- pointer into it is the list of the bytes from there on. A command is a tree, and a word is the
-- text that `nulterminate` cuts out of the line.
pub mod Loops
pub mod Total
pub mod Printer
pub mod Steps
pub mod Blocks
pub mod RoundTrip
pub mod Tokens
use operating_system_design.Prelude.{
  ℕ, zero, suc, ◌+◌, ◌*◌, Bool, true, false, not, ◌&&◌, ◌||◌, List, [], ◌∷◌, ◌++◌, ltb, leb, ◌==◌,
  if◌then◌else◌, length,
}

-- `MAXARGS`
abbrev pub max_args : ℕ
max_args = 10

-- `struct redircmd` without its command.
pub record Redir : Type 0 where
  pub file : List ℕ
  pub mode : ℕ
  pub fd : ℕ

-- `struct execcmd`, `redircmd`, `pipecmd`, `listcmd` and `backcmd`.
pub data Cmd : Type 0 where
  exec : List (List ℕ) → Cmd
  redir : Cmd → Redir → Cmd
  pipe : Cmd → Cmd → Cmd
  list : Cmd → Cmd → Cmd
  back : Cmd → Cmd

-- What a parsing function does: it returns with the bytes that are left, or it panics.
pub data Result {ℓ} (A : Type ℓ) : Type ℓ where
  done : A → List ℕ → Result A
  panics : Result A
  out_of_fuel : Result A

unfoldable pub bind {ℓ κ} :
    {A : Type ℓ} {B : Type κ} → Result A → (A → List ℕ → Result B) → Result B
bind (done a ts) k = k a ts
bind panics k = panics
bind out_of_fuel k = out_of_fuel

-- `strchr` as a test.
unfoldable pub has : ℕ → List ℕ → Bool
has c [] = false
has c (x ∷ xs) = x == c || has c xs

-- The string `whitespace`.
unfoldable pub is_white : ℕ → Bool
is_white c = has c (b' ' ∷ (9 ∷ (13 ∷ (10 ∷ (11 ∷ [])))))

-- The string `symbols`.
unfoldable pub is_symbol : ℕ → Bool
is_symbol c = has c (b'<' ∷ (b'|' ∷ (b'>' ∷ (b'&' ∷ (b';' ∷ (b'(' ∷ (b')' ∷ [])))))))

-- `while(s < es && strchr(whitespace, *s)) s++;`
unfoldable pub skip_white : List ℕ → List ℕ
skip_white [] = []
skip_white (c ∷ cs) = if is_white c then skip_white cs else c ∷ cs

-- What `peek` answers where no white space is left.
abbrev pub next_in : List ℕ → List ℕ → Bool
next_in toks [] = false
next_in toks (c ∷ cs) = has c toks

-- The bytes of a word, and those behind it.
unfoldable pub span_word : List ℕ → List ℕ × List ℕ
span_word [] = ([], [])
span_word (c ∷ cs) =
    let (word, rest) = span_word cs in
    if is_white c || is_symbol c then ([], c ∷ cs) else (c ∷ word, rest)

-- `gettoken` behind a `>`.
abbrev pub greater : List ℕ → ℕ × List ℕ × List ℕ
greater [] = (b'>', b'>' ∷ [], [])
greater (c ∷ cs) =
    if c == b'>'
    then (b'+', b'>' ∷ (b'>' ∷ []), skip_white cs)
    else (b'>', b'>' ∷ [], skip_white (c ∷ cs))

-- The `switch` of `gettoken`.
unfoldable pub token : List ℕ → ℕ × List ℕ × List ℕ
token [] = (0, [], [])
token (c ∷ cs) =
    let (word, rest) = span_word (c ∷ cs) in
    if c == b'>'
    then greater cs
    else if is_symbol c
    then (c, c ∷ [], skip_white cs)
    else (b'a', word, skip_white rest)

-- `gettoken`: the kind of the token, its text, and the bytes behind it and behind white space.
abbrev pub gettoken : List ℕ → ℕ × List ℕ × List ℕ
gettoken ts = token (skip_white ts)

-- The redirection of token `tok`: O_RDONLY, or O_WRONLY | O_CREATE.
abbrev pub redir_of : ℕ → List ℕ → Redir
redir_of tok file =
    if tok == b'<'
    then record { file = file; mode = 0; fd = 0 }
    else record { file = file; mode = 0x201; fd = 1 }

-- The loop of `parseredirs`: the redirections, the first one first.
unfoldable pub redirs_loop : ℕ → List ℕ → Result (List Redir)
redirs_loop zero ts = out_of_fuel
redirs_loop (suc fuel) ts =
    let ts' = skip_white ts in
    let (tok, _, file_at) = gettoken ts' in
    let (kind, file, later) = gettoken file_at in
    let rest = bind (redirs_loop fuel later) (λ rs end. done (redir_of tok file ∷ rs) end) in
    if next_in (b'<' ∷ (b'>' ∷ [])) ts'
    then (if kind == b'a' then rest else panics)
    else done [] ts'

-- `parseredirs`, with a round for each byte.
unfoldable pub parseredirs : List ℕ → Result (List Redir)
parseredirs ts = redirs_loop (suc (length ts)) ts

unfoldable pub wrap : Cmd → List Redir → Cmd
wrap cmd [] = cmd
wrap cmd (r ∷ rs) = wrap (redir cmd r) rs

-- The loop of `parseexec`: the words and the redirections between them.
unfoldable pub args_loop : ℕ → ℕ → List ℕ → Result (List (List ℕ) × List Redir)
args_loop zero argc ts = out_of_fuel
args_loop (suc fuel) argc ts =
    let ts' = skip_white ts in
    let (tok, word, later) = gettoken ts' in
    let rest = bind (parseredirs later) (λ rs mid.
      bind (args_loop fuel (argc + 1) mid) (λ (ws, rs') end. done (word ∷ ws, rs ++ rs') end)) in
    if next_in (b'|' ∷ (b')' ∷ (b'&' ∷ (b';' ∷ [])))) ts'
    then done ([], []) ts'
    else if tok == 0
    then done ([], []) later
    else if not (tok == b'a')
    then panics
    else if leb max_args (argc + 1)
    then panics
    else rest

-- `parseexec` where no `(` stands next. The redirections go round the `execcmd`, which `argv` fills.
unfoldable pub parse_words : List ℕ → Result Cmd
parse_words ts = bind (parseredirs ts) (λ rs mid.
    bind (args_loop (suc (length mid)) 0 mid)
      (λ (ws, rs') end. done (wrap (exec ws) (rs ++ rs')) end))

-- The loop of `parseline` over `&`.
unfoldable pub backs : Cmd → List ℕ → Cmd × List ℕ
backs cmd [] = (cmd, [])
backs cmd (c ∷ cs) =
    let white = backs cmd cs in
    let more = backs (back cmd) cs in
    if is_white c then white else if c == b'&' then more else (cmd, c ∷ cs)

-- `parseblock` behind its call of `parseline`.
unfoldable pub end_block : Cmd → List ℕ → Result Cmd
end_block cmd ts =
    let ts' = skip_white ts in
    if next_in (b')' ∷ []) ts'
    then bind (parseredirs (gettoken ts').2) (λ rs end. done (wrap cmd rs) end)
    else panics

-- `parseline`, `parsepipe` and `parseexec` with `parseblock`. Each call costs a unit of fuel.
unfoldable mutual
  pub parseline : ℕ → List ℕ → Result Cmd
  parseline zero ts = out_of_fuel
  parseline (suc fuel) ts = bind (parsepipe fuel ts) (λ c mid.
      let (cmd, ts') = backs c mid in
      let both = bind (parseline fuel (gettoken ts').2) (λ right end. done (list cmd right) end) in
      if next_in (b';' ∷ []) ts' then both else done cmd ts')

  pub parsepipe : ℕ → List ℕ → Result Cmd
  parsepipe zero ts = out_of_fuel
  parsepipe (suc fuel) ts = bind (parseexec fuel ts) (λ cmd mid.
      let ts' = skip_white mid in
      let both = bind (parsepipe fuel (gettoken ts').2) (λ right end. done (pipe cmd right) end) in
      if next_in (b'|' ∷ []) ts' then both else done cmd ts')

  pub parseexec : ℕ → List ℕ → Result Cmd
  parseexec zero ts = out_of_fuel
  parseexec (suc fuel) ts =
      let ts' = skip_white ts in
      let block = bind (parseline fuel (gettoken ts').2) end_block in
      if next_in (b'(' ∷ []) ts' then block else parse_words ts'

-- The end of `parsecmd`: leftovers are a panic.
abbrev pub whole_line : Cmd → List ℕ → Result Cmd
whole_line cmd ts = elim (skip_white ts) [ [] ↦ done cmd [] | c ∷ cs ↦ panics ]

-- `parsecmd`
unfoldable pub parsecmd : List ℕ → Result Cmd
parsecmd s = bind (parseline (3 * length s + 3) s) whole_line
