-- ===== src/Pipe.antt =====
-- xv6A1/pipe.c: `struct pipe` and its operations. A sleep ends a call's turn under the lock, and
-- the call goes on from the state that it finds when it is woken.
pub mod Stream
pub mod Traffic
use operating_system_design.Prelude.{
  ℕ, zero, suc, ◌+◌, ◌%◌, ◌^◌, Bool, true, false, not, ◌&&◌, ◌||◌, List, [], ◌∷◌, get_or, set, ◌==◌,
  if◌then◌else◌, add32, Option, none, some, window, sub32,
}

abbrev pub pipe_size : ℕ
pipe_size = 512

-- `nread` and `nwrite` are `uint`s that wrap.
pub record Pipe : Type 0 where
  pub bytes : List ℕ
  pub nread : ℕ
  pub nwrite : ℕ
  pub readopen : Bool
  pub writeopen : Bool

-- The fields that `pipealloc` sets in the page that it gets; the bytes are what the page held.
unfoldable pub pipe_init : List ℕ → Pipe
pipe_init page = record { bytes = page; nread = 0; nwrite = 0; readopen = true; writeopen = true }

-- `pipeclose`: the pipe, and whether its page is freed.
unfoldable pub pipeclose : Pipe → Bool → Pipe × Bool
pipeclose p writable =
    let p' = if writable then record p { writeopen = false } else record p { readopen = false } in
    (p', not p'.readopen && not p'.writeopen)

unfoldable pub is_full : Pipe → Bool
is_full p = p.nwrite == add32 p.nread pipe_size

unfoldable pub is_empty : Pipe → Bool
is_empty p = p.nread == p.nwrite

unfoldable pub put : ℕ → Pipe → Pipe
put b p = record p { bytes = set p.bytes (p.nwrite % pipe_size) b; nwrite = add32 p.nwrite 1 }

-- How a turn of `pipewrite` ends: all bytes are written, or it fails or sleeps on `nwrite` with
-- bytes left.
pub data Written : Type 0 where
  complete : Pipe → Written
  failed : Pipe → List ℕ → Written
  asleep : Pipe → List ℕ → Written

-- A turn of `pipewrite`, for the bytes left and whether the process is killed.
unfoldable pub pipewrite : Bool → List ℕ → Pipe → Written
pipewrite killed [] p = complete p
pipewrite killed (b ∷ bs) p =
    let rest = pipewrite killed bs (put b p) in
    if is_full p
    then (if not p.readopen || killed then failed p (b ∷ bs) else asleep p (b ∷ bs))
    else rest

-- The copying loop of `piperead`.
unfoldable pub read_loop : ℕ → Pipe → List ℕ × Pipe
read_loop zero p = ([], p)
read_loop (suc n) p =
    let b = get_or p.bytes (p.nread % pipe_size) 0 in
    let rest = read_loop n (record p { nread = add32 p.nread 1 }) in
    if is_empty p then ([], p) else (b ∷ rest.0, rest.1)

-- How a turn of `piperead` ends: with bytes, with a failure, or asleep on `nread`.
pub data ReadBack : Type 0 where
  read : List ℕ → Pipe → ReadBack
  interrupted : ReadBack
  waiting : ReadBack

unfoldable pub piperead : Bool → ℕ → Pipe → ReadBack
piperead killed n p =
    if is_empty p && p.writeopen
    then (if killed then interrupted else waiting)
    else (let (bs, p') = read_loop n p in read bs p')

-- How many bytes are in the pipe, and which, oldest first.
abbrev pub count : Pipe → ℕ
count p = sub32 p.nwrite p.nread

abbrev pub contents : Pipe → List ℕ
contents p = window (λ k. (p.nread + k) % pipe_size) (count p) p.bytes
