-- ===== src/Pipe/Tests.antt =====
-- Small pipes: the theorems on Xv6-Threads/src/pipe.c at them.
use os_wsl.Prelude.{
  ℕ, ◌≡◌, refl, true, false, List, [], ◌∷◌, ◌++◌, arith, replicate, length-replicate,
}
use os_wsl.Pipe.{push, Pipe, push, pipewrite, piperead}
use os_wsl.Pipe.Queue.{IsValid, contents}
use os_wsl.Pipe.Stream.{
  Call, writes, reads, closes, call, handed, after, all_taken, all_handed, pipe_fifo,
}

-- A pipe whose counters are about to wrap, with two bytes in it.
abbrev late : Pipe
late = record {
  buf = replicate 512 7;
  nread = 4294967293;
  nwrite = 4294967295;
  readopen = true;
  writeopen = true;
}

late-IsValid : IsValid late
late-IsValid = record {
  sized = length-replicate {A = ℕ} 512 7;
  read_word = omega arith;
  write_word = omega arith;
  fits = omega arith;
}

-- Three bytes are written, four are read, and the write end is closed.
abbrev calls : List Call
calls = writes false (1 ∷ 2 ∷ 3 ∷ []) ∷ reads false 4 ∷ closes true ∷ []

pipe_fifo_example :
    IsValid (after calls late)
    × (contents late ++ all_taken calls late ≡ all_handed calls late ++ contents (after calls late))
pipe_fifo_example = pipe_fifo calls late-IsValid

-- What the calls hand out.
handed_example : all_handed calls late ≡ 7 ∷ 7 ∷ 1 ∷ 2 ∷ []
unfolding all_handed handed call pipewrite piperead push
handed_example = refl
