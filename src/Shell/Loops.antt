-- ===== src/Shell/Loops.antt =====
-- The loops of the parser of xv6A1/sh.c end, and what they put into a command.
use operating_system_design.Prelude.{
  ℕ, zero, suc, ◌+◌, ◌<◌, ◌≤◌, ◌≡◌, true, List, [], ◌∷◌, ◌++◌, length, ◌==◌, leb, arith, Bool-cases,
  inl, inr,
}
use operating_system_design.Shell.{
  max_args, Redir, Cmd, exec, redir, pipe, list, back, Result, done, panics, bind, is_white,
  skip_white, next_in, gettoken, redirs_loop, parseredirs, wrap, args_loop, parse_words, backs,
  end_block,
}
use operating_system_design.Shell.Tokens.{
  IsWord, IsRedir, length-skip_white, length-gettoken, length-gettoken_next, length-gettoken_word,
  gettoken-IsWord, redir_of-IsRedir,
}

abbrev pub AllWords : List (List ℕ) → Type 0
AllWords [] = Unit
AllWords (w ∷ ws) = IsWord w × AllWords ws

abbrev pub AllRedirs : List Redir → Type 0
AllRedirs [] = Unit
AllRedirs (r ∷ rs) = IsRedir r × AllRedirs rs

-- What the parser builds: `argv` has room for the words and a 0, each word and file name is one,
-- and a file is opened for reading as 0 or for writing as 1.
abbrev pub IsCommand : Cmd → Type 0
IsCommand (exec ws) = (length ws < max_args) × AllWords ws
IsCommand (redir c r) = IsCommand c × IsRedir r
IsCommand (pipe l r) = IsCommand l × IsCommand r
IsCommand (list l r) = IsCommand l × IsCommand r
IsCommand (back c) = IsCommand c

-- The result has fuel enough, at most `n` bytes left, and a value as `P` says.
pub data Good {ℓ} {A : Type ℓ} (P : A → Type 0) (n : ℕ) : Result A → Type ℓ where
  good_done : {a : A} {ts : List ℕ} → P a → length ts ≤ n → Good P n (done a ts)
  good_panics : Good P n panics

pub bind-Good {ℓ κ} :
    {A : Type ℓ} {B : Type κ} {P : A → Type 0} {Q : B → Type 0} {n m : ℕ} {r : Result A}
    {k : A → List ℕ → Result B}
    → Good P n r
    → ((a : A) (ts : List ℕ) → P a → length ts ≤ n → Good Q m (k a ts))
    → Good Q m (bind r k)
unfolding bind
bind-Good (good_done {a} {ts} p le) f = f a ts p le
bind-Good good_panics f = good_panics

-- The bytes that are left where `peek` found something and two tokens are taken.
two_tokens :
    (toks ts : List ℕ)
    → next_in toks (skip_white ts) ≡ true
    → length (gettoken (gettoken (skip_white ts)).2).2 + 1 ≤ length ts
two_tokens toks ts found = omega (
  arith,
  length-skip_white ts,
  length-gettoken_next toks (skip_white ts) found,
  length-gettoken (gettoken (skip_white ts)).2,
)

redirs_loop-Good :
    (fuel n : ℕ) (ts : List ℕ)
    → length ts < fuel
    → length ts ≤ n
    → Good AllRedirs n (redirs_loop fuel ts)
unfolding redirs_loop
redirs_loop-Good zero n ts h le = absurd (omega arith)
redirs_loop-Good (suc fuel) n ts h le =
    let file_at = (gettoken (skip_white ts)).2 in
    elim (Bool-cases (next_in (b'<' ∷ (b'>' ∷ [])) (skip_white ts))) [
      | inl found ↦
          let less = two_tokens _ ts found in
          rw found (elim (Bool-cases ((gettoken file_at).0 == b'a')) [
            | inl word ↦ rw word (
                bind-Good (redirs_loop-Good fuel n (gettoken file_at).2 (omega arith) (omega arith))
                  (λ rs end all le'.
                    good_done (redir_of-IsRedir _ _ (gettoken-IsWord file_at word), all) le'))
            | inr other ↦ rw other good_panics
          ])
      | inr no_more ↦ rw no_more (good_done tt (omega (arith, length-skip_white ts)))
    ]

AllRedirs-append : (rs rs' : List Redir) → AllRedirs rs → AllRedirs rs' → AllRedirs (rs ++ rs')
AllRedirs-append [] rs' a b = b
AllRedirs-append (r ∷ rs) rs' a b = (a.0, AllRedirs-append rs rs' a.1 b)

wrap-IsCommand : (c : Cmd) (rs : List Redir) → IsCommand c → AllRedirs rs → IsCommand (wrap c rs)
unfolding wrap
wrap-IsCommand c [] h a = h
wrap-IsCommand c (r ∷ rs) h a = wrap-IsCommand (redir c r) rs (h, a.0) a.1

parseredirs-Good : (n : ℕ) (ts : List ℕ) → length ts ≤ n → Good AllRedirs n (parseredirs ts)
unfolding parseredirs
parseredirs-Good n ts le = redirs_loop-Good (suc (length ts)) n ts (omega arith) le

-- What the loop of `parseexec` adds to `argc` words.
abbrev pub IsArgs : ℕ → List (List ℕ) × List Redir → Type 0
IsArgs argc (ws, rs) = (argc + length ws < max_args) × AllWords ws × AllRedirs rs

args_loop-Good :
    (fuel argc n : ℕ) (ts : List ℕ)
    → argc < max_args
    → length ts < fuel
    → length ts ≤ n
    → Good (IsArgs argc) n (args_loop fuel argc ts)
unfolding args_loop
args_loop-Good zero argc n ts room h le = absurd (omega arith)
args_loop-Good (suc fuel) argc n ts room h le =
    let ts' = skip_white ts in
    let later = (gettoken ts').2 in
    let skipped = length-skip_white ts in
    let taken = length-gettoken ts' in
    elim (Bool-cases (next_in (b'|' ∷ (b')' ∷ (b'&' ∷ (b';' ∷ [])))) ts')) [
      | inl stop ↦ rw stop (good_done (omega arith, tt, tt) (omega arith))
      | inr go_on ↦ rw go_on (elim (Bool-cases ((gettoken ts').0 == 0)) [
        | inl end ↦ rw end (good_done (omega arith, tt, tt) (omega arith))
        | inr some_token ↦ rw some_token (elim (Bool-cases ((gettoken ts').0 == b'a')) [
          | inr other ↦ rw other good_panics
          | inl word ↦ rw word (elim (Bool-cases (leb max_args (argc + 1))) [
            | inl many ↦ rw many good_panics
            | inr fits ↦
                let less = length-gettoken_word ts' word in
                let more : argc + 1 < max_args = ground arith in
                rw fits (
                  bind-Good (parseredirs-Good (length later) later (omega arith))
                    (λ rs mid all shorter.
                      bind-Good
                        (args_loop-Good fuel (argc + 1) n mid more (omega arith) (omega arith))
                        (λ (ws, rs') end is_args le'.
                          good_done
                            (
                              omega arith,
                              (gettoken-IsWord ts' word, is_args.1),
                              AllRedirs-append rs rs' all is_args.2,
                            )
                            le')))
          ])
        ])
      ])
    ]

pub parse_words-Good : (n : ℕ) (ts : List ℕ) → length ts ≤ n → Good IsCommand n (parse_words ts)
unfolding parse_words
parse_words-Good n ts le = bind-Good (parseredirs-Good n ts le) (λ rs mid all le'.
    bind-Good (args_loop-Good (suc (length mid)) 0 n mid (omega arith) (omega arith) le')
      (λ (ws, rs') end is_args le''.
        good_done
          (wrap-IsCommand (exec ws) (rs ++ rs') (omega (arith, is_args.0), is_args.1)
            (AllRedirs-append rs rs' all is_args.2))
          le''))

pub backs-IsCommand : (c : Cmd) (ts : List ℕ) → IsCommand c → IsCommand (backs c ts).0
unfolding backs
backs-IsCommand c [] h = h
backs-IsCommand c (x ∷ xs) h = elim (Bool-cases (is_white x)) [
  | inl white ↦ rw white (backs-IsCommand c xs h)
  | inr other ↦ rw other (elim (Bool-cases (x == b'&')) [
    | inl more ↦ rw more (backs-IsCommand (back c) xs h)
    | inr no_more ↦ rw no_more h
  ])
]

pub length-backs : (c : Cmd) (ts : List ℕ) → length (backs c ts).1 ≤ length ts
unfolding backs
length-backs c [] = omega arith
length-backs c (x ∷ xs) = elim (Bool-cases (is_white x)) [
  | inl white ↦ rw white (omega (arith, length-backs c xs))
  | inr other ↦ rw other (elim (Bool-cases (x == b'&')) [
    | inl more ↦ rw more (omega (arith, length-backs (back c) xs))
    | inr no_more ↦ rw no_more (omega arith)
  ])
]

pub end_block-Good :
    (n : ℕ) (c : Cmd) (ts : List ℕ)
    → IsCommand c
    → length ts ≤ n
    → Good IsCommand n (end_block c ts)
unfolding end_block
end_block-Good n c ts h le =
    let ts' = skip_white ts in
    let shorter : length (gettoken ts').2 ≤ n =
      omega (arith, length-skip_white ts, length-gettoken ts') in
    elim (Bool-cases (next_in (b')' ∷ []) ts')) [
      | inl closed ↦ rw closed (
          bind-Good (parseredirs-Good n (gettoken ts').2 shorter)
            (λ rs end all le'. good_done (wrap-IsCommand c rs h all) le'))
      | inr open_yet ↦ rw open_yet good_panics
    ]
