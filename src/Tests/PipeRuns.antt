-- ===== src/Tests/PipeRuns.antt =====
-- Two bytes through a pipe of xv6A1/pipe.c.
use operating_system_design.Prelude.{
  ℕ, refl, true, false, [], ◌∷◌, replicate, set, arith, length-replicate,
}
use operating_system_design.Pipe.{Pipe, pipewrite, piperead, read_loop, is_full, is_empty, put}
use operating_system_design.Pipe.Traffic.{
  Traffic, Step, here, next, writes, reads, IsFaithful, Reach-IsFaithful,
}

abbrev new_pipe : Pipe
new_pipe = record {
  bytes = replicate 512 0;
  nread = 0;
  nwrite = 0;
  readopen = true;
  writeopen = true;
}

abbrev start : Traffic
start = record { pipe = new_pipe; sent = []; got = [] }

start-IsFaithful : IsFaithful start
start-IsFaithful = record {
  valid = record {
    page = length-replicate {A = ℕ} 512 0;
    read_word = omega arith;
    write_word = omega arith;
    bounded = omega arith;
  };
  order = refl;
}

abbrev full_pipe : Pipe
full_pipe = record new_pipe { bytes = set (set new_pipe.bytes 0 65) 1 66; nwrite = 2 }

-- A writer sends two bytes, and a reader asks for one.
abbrev middle : Traffic
middle = record { pipe = full_pipe; sent = 65 ∷ (66 ∷ []); got = [] }

abbrev end : Traffic
end = record { pipe = record full_pipe { nread = 1 }; sent = 65 ∷ (66 ∷ []); got = 65 ∷ [] }

start-writes : Step start middle
unfolding pipewrite put is_full
start-writes = writes false (65 ∷ (66 ∷ []))

middle-reads : Step middle end
unfolding piperead read_loop is_empty
middle-reads = reads {bs = 65 ∷ []} {p = record full_pipe { nread = 1 }} false 1 refl

Reach-IsFaithful_example : IsFaithful end
Reach-IsFaithful_example =
    Reach-IsFaithful start-IsFaithful (next (next here start-writes) middle-reads)
