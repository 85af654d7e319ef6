-- ===== src/Tests/FileRuns.antt =====
-- The file table of xv6A1/file.c with two slots: one pipe end with two holders.
use operating_system_design.Prelude.{ℕ, zero, suc, ◌≡◌, refl, [], ◌∷◌, arith}
use operating_system_design.File.{
  File, FileType, zero_file, file_at, filealloc, find_free, take_free,
}
use operating_system_design.File.Slots.{occurs}
use operating_system_design.File.Count.{Files, Step, here, next, allocs, IsCounted, Reach-IsCounted}

abbrev pipe_end : ℕ → File
pipe_end ref = record zero_file { type = FileType.fd_pipe; ref = ref; pipe = 4096 }

abbrev two_holders : Files
two_holders = record { table = pipe_end 2 ∷ (zero_file ∷ []); holders = 0 ∷ (0 ∷ []) }

two_holders-counts : (i : ℕ) → (file_at two_holders.table i).ref ≡ occurs i two_holders.holders
two_holders-counts zero = refl
two_holders-counts (suc zero) = refl
two_holders-counts (suc (suc i)) = ground arith

two_holders-IsCounted : IsCounted two_holders
two_holders-IsCounted = record { counts = two_holders-counts; few = omega arith }

abbrev allocated : Files
allocated = record {
  table = pipe_end 2 ∷ (record zero_file { ref = 1 } ∷ []);
  holders = 1 ∷ (0 ∷ (0 ∷ []));
}

two_holders-allocs : Step two_holders allocated
unfolding filealloc find_free take_free
two_holders-allocs = allocs (omega arith) refl

Reach-IsCounted_example : IsCounted allocated
Reach-IsCounted_example = Reach-IsCounted two_holders-IsCounted (next here two_holders-allocs)
