-- ===== src/Shell/Printer.antt =====
-- A printer of the commands of xv6A1/sh.c, and what its parser does with the pieces of a printed
-- command.
use operating_system_design.Prelude.{
  ℕ, zero, suc, ◌+◌, ◌<◌, ◌≡◌, refl, ap, ◌∙◌, Bool, true, false, List, [], ◌∷◌, ◌++◌, ◌||◌, length,
  ◌==◌, leb, if◌then◌else◌, arith,
}
use operating_system_design.Shell.{
  max_args, Redir, Cmd, exec, redir, pipe, list, back, done, bind, has, is_white, is_symbol,
  skip_white, next_in, span_word, token, redirs_loop, parseredirs, args_loop,
}
use operating_system_design.Shell.Tokens.{IsPlain, AllPlain, IsWord}
use operating_system_design.Shell.Loops.{AllWords, IsCommand}

abbrev pub words_to : List (List ℕ) → List ℕ → List ℕ
words_to [] rest = rest
words_to (w ∷ ws) rest = w ++ (b' ' ∷ words_to ws rest)

abbrev pub sign : Redir → ℕ
sign r = if r.fd == 0 then b'<' else b'>'

-- The command as a text in front of another one. What is not a list of words stands in parentheses.
abbrev pub print_to : Cmd → List ℕ → List ℕ
print_to (exec ws) rest = words_to ws rest
print_to (redir c r) rest = b'(' ∷ print_to c (b')' ∷ (sign r ∷ (r.file ++ rest)))
print_to (pipe l r) rest = b'(' ∷ print_to l (b')' ∷ (b'|' ∷ (b'(' ∷ print_to r (b')' ∷ rest))))
print_to (list l r) rest = b'(' ∷ print_to l (b')' ∷ (b';' ∷ (b'(' ∷ print_to r (b')' ∷ rest))))
print_to (back c) rest = b'(' ∷ print_to c (b')' ∷ (b'&' ∷ rest))

-- What may follow a printed command: the end, or the parenthesis that closes a block.
pub data Ends : List ℕ → Type 0 where
  at_end : Ends []
  at_paren : {cs : List ℕ} → Ends (b')' ∷ cs)

-- A word ends here.
abbrev pub Stops : List ℕ → Type 0
Stops [] = Unit
Stops (c ∷ cs) = (is_white c || is_symbol c) ≡ true

-- No redirection and no white space stands here.
pub record IsBare (ts : List ℕ) : Type 0 where
  pub still : skip_white ts ≡ ts
  pub no_redir : next_in (b'<' ∷ (b'>' ∷ [])) ts ≡ false

pub Stops-Ends : (ts : List ℕ) → Ends ts → Stops ts
unfolding is_white is_symbol has
Stops-Ends _ at_end = tt
Stops-Ends _ at_paren = refl

pub IsBare-Ends : (ts : List ℕ) → Ends ts → IsBare ts
unfolding skip_white is_white has
IsBare-Ends _ at_end = record { still = refl; no_redir = refl }
IsBare-Ends _ at_paren = record { still = refl; no_redir = refl }

span_word-append : (w rest : List ℕ) → AllPlain w → Stops rest → span_word (w ++ rest) ≡ (w, rest)
unfolding span_word
span_word-append [] [] p s = refl
span_word-append [] (c ∷ cs) p s = rw s refl
span_word-append (c ∷ cs) rest p s = rw (p.0, span_word-append cs rest p.1 s) refl

or_false : (a b : Bool) → (a || b) ≡ false → (a ≡ false) × (b ≡ false)
or_false true b e = cc
or_false false b e = (refl, e)

-- What the tests of the parser say of a plain byte.
pub record Tested (c : ℕ) : Type 0 where
  pub white : is_white c ≡ false
  pub symbol : is_symbol c ≡ false
  pub append : (c == b'>') ≡ false
  pub redirs : has c (b'<' ∷ (b'>' ∷ [])) ≡ false
  pub block : has c (b'(' ∷ []) ≡ false
  pub stop : has c (b'|' ∷ (b')' ∷ (b'&' ∷ (b';' ∷ [])))) ≡ false

pub plain-Tested : (c : ℕ) → IsPlain c → Tested c
unfolding has is_symbol
plain-Tested c p =
    let (no_white, no_symbol) = or_false (is_white c) (is_symbol c) p in
    record {
      white = no_white;
      symbol = no_symbol;
      append = ground arith;
      redirs = ground arith;
      block = ground arith;
      stop = ground arith;
    }

pub token-append :
    (w rest : List ℕ) → IsWord w → Stops rest → token (w ++ rest) ≡ (b'a', w, skip_white rest)
unfolding token
token-append [] rest w s = absurd w
token-append (c ∷ cs) rest w s =
    let t = plain-Tested c w.0 in
    rw (t.append, t.symbol) (rw (span_word-append (c ∷ cs) rest w s) refl)

blank : (is_white b' ' || is_symbol b' ') ≡ true
unfolding is_white has
blank = refl

spaced : (ts : List ℕ) → skip_white (b' ' ∷ ts) ≡ skip_white ts
unfolding skip_white is_white has
spaced ts = refl

pub parseredirs_none : (ts : List ℕ) → IsBare ts → parseredirs ts ≡ done [] ts
unfolding parseredirs redirs_loop
parseredirs_none ts b = rw (b.still, b.no_redir) refl

pub IsBare-word : (w rest : List ℕ) → IsWord w → IsBare (w ++ rest)
unfolding skip_white
IsBare-word [] rest w = absurd w
IsBare-word (c ∷ cs) rest w =
    let t = plain-Tested c w.0 in record { still = rw t.white refl; no_redir = t.redirs }

pub IsBare-words_to :
    (ws : List (List ℕ)) (rest : List ℕ) → AllWords ws → Ends rest → IsBare (words_to ws rest)
IsBare-words_to [] rest p e = IsBare-Ends rest e
IsBare-words_to (w ∷ ws) rest p e = IsBare-word w (b' ' ∷ words_to ws rest) p.0

pub IsBare-print_to : (c : Cmd) (rest : List ℕ) → IsCommand c → Ends rest → IsBare (print_to c rest)
unfolding skip_white is_white has
IsBare-print_to (exec ws) rest p e = IsBare-words_to ws rest p.1 e
IsBare-print_to (redir c r) rest p e = record { still = refl; no_redir = refl }
IsBare-print_to (pipe l r) rest p e = record { still = refl; no_redir = refl }
IsBare-print_to (list l r) rest p e = record { still = refl; no_redir = refl }
IsBare-print_to (back c) rest p e = record { still = refl; no_redir = refl }

next_in_word :
    (w rest : List ℕ)
    → IsWord w
    → next_in (b'|' ∷ (b')' ∷ (b'&' ∷ (b';' ∷ [])))) (w ++ rest) ≡ false
next_in_word [] rest w = absurd w
next_in_word (c ∷ cs) rest w = (plain-Tested c w.0).stop

args_loop_end :
    (fuel argc : ℕ) (ts : List ℕ) → Ends ts → args_loop (suc fuel) argc ts ≡ done ([], []) ts
unfolding args_loop skip_white is_white has token
args_loop_end fuel argc _ at_end = refl
args_loop_end fuel argc _ at_paren = refl

-- The loop of `parseexec` reads the words back.
pub args_loop-words_to :
    (fuel argc : ℕ) (ws : List (List ℕ)) (rest : List ℕ)
    → AllWords ws
    → Ends rest
    → argc + length ws < max_args
    → length ws < fuel
    → args_loop fuel argc (words_to ws rest) ≡ done (ws, []) rest
unfolding args_loop bind
args_loop-words_to zero argc ws rest p e few h = absurd (omega arith)
args_loop-words_to (suc fuel) argc [] rest p e few h = args_loop_end fuel argc rest e
args_loop-words_to (suc fuel) argc (w ∷ ws) rest p e few h =
    let later = words_to ws rest in
    let text = w ++ (b' ' ∷ later) in
    let bare = IsBare-word w (b' ' ∷ later) p.0 in
    let bare' = IsBare-words_to ws rest p.1 e in
    let room : leb max_args (argc + 1) ≡ false = ground arith in
    let taken : token text ≡ (b'a', w, later) =
      token-append w (b' ' ∷ later) p.0 blank
      ∙ ap (λ z. (b'a', w, z)) (spaced later ∙ bare'.still) in
    let none_left = parseredirs_none later bare' in
    let ih = args_loop-words_to fuel (argc + 1) ws rest p.1 e (omega arith) (omega arith) in
    rw (bare.still, next_in_word w (b' ' ∷ later) p.0, bare.still, taken, room)
      (rw none_left (rw ih refl))

-- A word list does not begin like a block.
pub no_block :
    (ws : List (List ℕ)) (rest : List ℕ)
    → AllWords ws
    → Ends rest
    → next_in (b'(' ∷ []) (words_to ws rest) ≡ false
unfolding has
no_block [] _ p at_end = refl
no_block [] _ p at_paren = refl
no_block ([] ∷ ws) rest p e = absurd p.0
no_block ((c ∷ cs) ∷ ws) rest p e = (plain-Tested c p.0.0).block
