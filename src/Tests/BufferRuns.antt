-- ===== src/Tests/BufferRuns.antt =====
-- Three buffers of xv6A1/bio.c.
use operating_system_design.Prelude.{refl, ◌≡◌, List, [], ◌∷◌, Nodup, arith}
use operating_system_design.Buffer.{Buf, find_buf, null_buf, bget, brelse}
use operating_system_design.Buffer.Refs.{Small, ids, Unique, Got, bget-Got}
use operating_system_design.Buffer.Release.{Released, brelse-Released}

-- Buffer 0 has block 5 and a reference, buffer 1 has block 6 and none, and buffer 2 is new.
abbrev three_buffers : List Buf
three_buffers =
    record { id = 0; flags = 2; dev = 1; blockno = 5; refcnt = 1 }
    ∷ (record { id = 1; flags = 2; dev = 1; blockno = 6; refcnt = 0 }
        ∷ (record { id = 2; flags = 0; dev = 0; blockno = 0; refcnt = 0 } ∷ []))

three_buffers-Small : Small three_buffers
three_buffers-Small = (omega arith, (omega arith, (omega arith, tt)))

three_buffers-Nodup : Nodup (ids three_buffers)
three_buffers-Nodup = (
  ((λ e. absurd (omega (arith, e))), ((λ e. absurd (omega (arith, e))), tt)),
  ((((λ e. absurd (omega (arith, e))), tt)), (tt, tt)),
)

three_buffers-Unique : Unique three_buffers
three_buffers-Unique d k ne = ground (arith, ne)

bget-Got_example : Got 1 7 three_buffers (bget 1 7 three_buffers)
bget-Got_example =
    bget-Got 1 7 three_buffers three_buffers-Small three_buffers-Nodup three_buffers-Unique

first_count : (find_buf 0 three_buffers null_buf).refcnt ≡ 1
unfolding find_buf
first_count = refl

brelse-Released_example : Released 0 three_buffers (brelse 0 three_buffers)
brelse-Released_example =
    brelse-Released 0 three_buffers (omega (arith, first_count)) (omega (arith, first_count))
      three_buffers-Unique
