-- ===== src/Shell/Steps.antt =====
-- How the functions of the parser of xv6A1/sh.c go on, by what they find.
use operating_system_design.Prelude.{
  ℕ, suc, ◌+◌, ◌≤◌, ◌≡◌, refl, ap, ◌∙◌, true, false, List, [], ◌∷◌, ◌++◌, length, length-append,
  ◌==◌, arith, Bool-cases, inl, inr, ◌⊎◌,
}
use operating_system_design.Shell.{
  Redir, Cmd, exec, redir, pipe, list, back, done, bind, has, is_white, is_symbol, skip_white,
  next_in, token, greater, redir_of, redirs_loop, parseredirs, wrap, parse_words, backs, end_block,
  parseline, parsepipe, parseexec,
}
use operating_system_design.Shell.Tokens.{IsWord, IsRedir}
use operating_system_design.Shell.Loops.{IsCommand}
use operating_system_design.Shell.Printer.{
  words_to, sign, print_to, Ends, Stops-Ends, IsBare-Ends, IsBare-word, IsBare-words_to,
  token-append, parseredirs_none, args_loop-words_to, no_block, plain-Tested,
}

length-words_to :
    (ws : List (List ℕ)) (rest : List ℕ) → length ws + length rest ≤ length (words_to ws rest)
length-words_to [] rest = omega arith
length-words_to (w ∷ ws) rest =
    omega (arith, length-words_to ws rest, length-append w (b' ' ∷ words_to ws rest))

pub length-print_to : (c : Cmd) (rest : List ℕ) → length rest ≤ length (print_to c rest)
length-print_to (exec ws) rest = omega (arith, length-words_to ws rest)
length-print_to (redir c r) rest =
    omega (arith, length-append r.file rest, length-print_to c (b')' ∷ (sign r ∷ (r.file ++ rest))))
length-print_to (pipe l r) rest = omega (
  arith,
  length-print_to r (b')' ∷ rest),
  length-print_to l (b')' ∷ (b'|' ∷ (b'(' ∷ print_to r (b')' ∷ rest)))),
)
length-print_to (list l r) rest = omega (
  arith,
  length-print_to r (b')' ∷ rest),
  length-print_to l (b')' ∷ (b';' ∷ (b'(' ∷ print_to r (b')' ∷ rest)))),
)
length-print_to (back c) rest = omega (arith, length-print_to c (b')' ∷ (b'&' ∷ rest)))

pub parseexec-words_to :
    (fuel : ℕ) (ws : List (List ℕ)) (rest : List ℕ)
    → IsCommand (exec ws)
    → Ends rest
    → parseexec (suc fuel) (words_to ws rest) ≡ done (exec ws) rest
unfolding parseexec parse_words bind wrap
parseexec-words_to fuel ws rest p e =
    let text = words_to ws rest in
    let bare = IsBare-words_to ws rest p.1 e in
    let none = parseredirs_none text bare in
    let long = length-words_to ws rest in
    let words =
      args_loop-words_to (suc (length text)) 0 ws rest p.1 e (omega (arith, p.0)) (omega arith) in
    rw (bare.still, no_block ws rest p.1 e, none) (rw words refl)

-- The four ways in which `parsepipe` and `parseline` go on.
pub pipe_ends :
    (fuel : ℕ) (ts t : List ℕ) (c : Cmd)
    → parseexec fuel ts ≡ done c t
    → skip_white t ≡ t
    → next_in (b'|' ∷ []) t ≡ false
    → parsepipe (suc fuel) ts ≡ done c t
unfolding parsepipe bind
pipe_ends fuel ts t c first still end = rw first (rw (still, end) refl)

pub pipe_more :
    (fuel : ℕ) (ts t t' : List ℕ) (l r : Cmd)
    → parseexec fuel ts ≡ done l (b'|' ∷ t)
    → skip_white t ≡ t
    → parsepipe fuel t ≡ done r t'
    → parsepipe (suc fuel) ts ≡ done (pipe l r) t'
unfolding parsepipe bind skip_white is_white is_symbol has token
pipe_more fuel ts t t' l r first still later = rw first (rw (still, later) refl)

pub line_ends :
    (fuel : ℕ) (ts mid t : List ℕ) (c c' : Cmd)
    → parsepipe fuel ts ≡ done c mid
    → backs c mid ≡ (c', t)
    → next_in (b';' ∷ []) t ≡ false
    → parseline (suc fuel) ts ≡ done c' t
unfolding parseline bind
line_ends fuel ts mid t c c' first behind end = rw first (rw (behind, end) refl)

pub line_more :
    (fuel : ℕ) (ts t t' : List ℕ) (l r : Cmd)
    → parsepipe fuel ts ≡ done l (b';' ∷ t)
    → skip_white t ≡ t
    → parseline fuel t ≡ done r t'
    → parseline (suc fuel) ts ≡ done (list l r) t'
unfolding parseline bind backs skip_white is_white is_symbol has token
line_more fuel ts t t' l r first still later = rw first (rw (still, later) refl)

-- `parseblock`
pub block_lem :
    (fuel : ℕ) (ts t t' : List ℕ) (c : Cmd) (rs : List Redir)
    → skip_white ts ≡ ts
    → parseline fuel ts ≡ done c (b')' ∷ t)
    → parseredirs (skip_white t) ≡ done rs t'
    → parseexec (suc fuel) (b'(' ∷ ts) ≡ done (wrap c rs) t'
unfolding parseexec end_block bind skip_white is_white is_symbol has token
block_lem fuel ts t t' c rs still inner behind = rw still (rw inner (rw behind refl))

redir_of-sign : (r : Redir) → IsRedir r → redir_of (sign r) r.file ≡ r
redir_of-sign r (w, inl (m, f)) = rw (f, m) refl
redir_of-sign r (w, inr (m, f)) = rw (f, m) refl

abbrev IsSign : ℕ → Type 0
IsSign c = (c ≡ b'<') ⊎ (c ≡ b'>')

IsSign-sign : (r : Redir) → IsSign (sign r)
IsSign-sign r = elim (Bool-cases (r.fd == 0)) [
  | inl input ↦ rw input (inl refl)
  | inr output ↦ rw output (inr refl)
]

IsSign-still : (c : ℕ) (ts : List ℕ) → IsSign c → skip_white (c ∷ ts) ≡ c ∷ ts
unfolding skip_white is_white has
IsSign-still c ts (inl e) = rw e refl
IsSign-still c ts (inr e) = rw e refl

IsSign-found : (c : ℕ) → IsSign c → has c (b'<' ∷ (b'>' ∷ [])) ≡ true
unfolding has
IsSign-found c (inl e) = rw e refl
IsSign-found c (inr e) = rw e refl

greater_word :
    (file rest : List ℕ) → IsWord file → greater (file ++ rest) ≡ (b'>', b'>' ∷ [], file ++ rest)
greater_word [] rest w = absurd w
greater_word (c ∷ cs) rest w =
    rw ((plain-Tested c w.0).append, (IsBare-word (c ∷ cs) rest w).still) refl

token-sign :
    (c : ℕ) (file rest : List ℕ)
    → IsWord file
    → IsSign c
    → token (c ∷ (file ++ rest)) ≡ (c, c ∷ [], file ++ rest)
unfolding token is_symbol has
token-sign c file rest w (inl e) = rw e (rw (IsBare-word file rest w).still refl)
token-sign c file rest w (inr e) = rw e (greater_word file rest w)

-- One round of the loop of `parseredirs`, and its end.
redirs_loop_once :
    (fuel sign_byte : ℕ) (file rest : List ℕ)
    → IsWord file
    → Ends rest
    → IsSign sign_byte
    → redirs_loop (suc (suc fuel)) (sign_byte ∷ (file ++ rest))
      ≡ done (redir_of sign_byte file ∷ []) rest
unfolding redirs_loop bind
redirs_loop_once fuel c file rest w e is_sign =
    let bare_file = IsBare-word file rest w in
    let bare = IsBare-Ends rest e in
    let taken : token (file ++ rest) ≡ (b'a', file, rest) =
      token-append file rest w (Stops-Ends rest e) ∙ ap (λ z. (b'a', file, z)) bare.still in
    let head = token-sign c file rest w is_sign in
    rw
      (
        IsSign-still c (file ++ rest) is_sign,
        IsSign-found c is_sign,
        IsSign-still c (file ++ rest) is_sign,
        head,
      )
      (rw (bare_file.still, taken, bare.still, bare.no_redir) refl)

pub sign_still : (r : Redir) (ts : List ℕ) → skip_white (sign r ∷ ts) ≡ sign r ∷ ts
sign_still r ts = IsSign-still (sign r) ts (IsSign-sign r)

-- A redirection behind a block.
pub parseredirs-sign :
    (r : Redir) (rest : List ℕ)
    → IsRedir r
    → Ends rest
    → parseredirs (sign r ∷ (r.file ++ rest)) ≡ done (r ∷ []) rest
unfolding parseredirs
parseredirs-sign r rest p e =
    redirs_loop_once (length (r.file ++ rest)) (sign r) r.file rest p.0 e (IsSign-sign r)
    ∙ ap (λ q. done (q ∷ []) rest) (redir_of-sign r p)
