-- ===== src/Kernel.antt =====
-- What the system calls answer. The program does not implement them: a run is given as the list of the
-- results that its calls return, in order, and every theorem ranges over such lists.
use thunder_chat.Prelude.{ℕ, List, [], ◌∷◌, ◌++◌}

-- `read`: at least one byte; 0 at the end of the stream, where `errno` is what it was; or -1.
pub data ReadResult : Type 0 where
  got : ℕ → List ℕ → ReadResult
  ended : ℕ → ReadResult
  read_failed : ℕ → ReadResult

-- `write`: how many bytes it took from the start of those offered (never more than there are), or -1
-- and `errno`.
pub data WriteResult : Type 0 where
  took : ℕ → WriteResult
  write_failed : ℕ → WriteResult

abbrev pub eintr : ℕ
eintr = 4

abbrev pub eagain : ℕ
eagain = 11

-- Reads that bring some bytes each.
abbrev pub Chunk : Type 0
Chunk = ℕ × List ℕ

unfoldable pub concat : List Chunk → List ℕ
concat [] = []
concat ((x, xs) ∷ cs) = (x ∷ xs) ++ concat cs

-- The results of those reads, and then `last`.
unfoldable pub reads : List Chunk → List ReadResult → List ReadResult
reads [] last = last
reads ((x, xs) ∷ cs) last = got x xs ∷ reads cs last

-- `select` on one descriptor with a timeout: it is ready, the time is over, or -1.
pub data SelectResult : Type 0 where
  ready timed_out select_failed : SelectResult
