-- ===== src/Socket.antt =====
-- src/Socket.cpp: the loops around `read` and `write`, and the calls that wait with `select`; and
-- `CNPUtil::Write` of src/NPUtil.cpp, the same loop on a bare descriptor.
pub mod Transfers
use thunder_chat.Prelude.{
  ℕ, suc, zero, ◌+◌, ◌-◌, List, [], ◌∷◌, ◌++◌, Option, none, some, length, take, drop, ◌==◌,
  if◌then◌else◌, Bool, true, false, leb,
}
use thunder_chat.Prelude.Int.{ℤ, pos, negsuc, is_positive}
use thunder_chat.Kernel.{
  ReadResult, got, ended, read_failed, WriteResult, took, write_failed, SelectResult, ready,
  timed_out, select_failed, eintr,
}

-- How a transfer ends: with its return value, or waiting for more results; and the bytes moved so far.
pub data Transfer : Type 0 where
  returned : ℤ → List ℕ → Transfer
  waiting : List ℕ → Transfer

-- The loop of `Write`: `rest` is what `pchPtr` points at (`nLeft` bytes), `sent` what `write` has taken
-- of the `n` bytes.
pub write_loop : List WriteResult → ℕ → List ℕ → List ℕ → Transfer
write_loop rs n [] sent = returned (pos n) sent
write_loop [] n (x ∷ rest) sent = waiting sent
write_loop (took k ∷ rs) n (x ∷ rest) sent =
    write_loop rs n (drop k (x ∷ rest)) (sent ++ take k (x ∷ rest))
write_loop (write_failed e ∷ rs) n (x ∷ rest) sent =
    let again = write_loop rs n (x ∷ rest) sent in
    if e == eintr then again else returned (negsuc 0) sent

-- `CNPUtil::Write(fd, buffer, n)`
pub write_fd : List WriteResult → List ℕ → Transfer
unfolding write_loop
write_fd rs buffer = write_loop rs (length buffer) buffer []

-- `Socket::Write(buffer, n)` on the descriptor `fd`
pub write : ℤ → List WriteResult → List ℕ → Transfer
unfolding write_loop
write fd rs buffer =
    if is_positive fd then write_loop rs (length buffer) buffer [] else returned (pos 0) []

-- `Socket::Read(buffer, n)`: `read` brings at most the `remain` bytes that it is asked for.
pub read_loop : List ReadResult → ℕ → List ℕ → Transfer
read_loop rs zero stored = returned (pos (length stored)) stored
read_loop [] (suc remain) stored = waiting stored
read_loop (ended e ∷ rs) (suc remain) stored = returned (pos (length stored)) stored
read_loop (read_failed e ∷ rs) (suc remain) stored =
    let again = read_loop rs (suc remain) stored in
    if e == eintr then again else returned (negsuc 0) stored
read_loop (got x xs ∷ rs) (suc remain) stored =
    read_loop rs (remain - length xs) (stored ++ (x ∷ take remain xs))

pub read : List ReadResult → ℕ → Transfer
unfolding read_loop
read rs n = read_loop rs n []

-- `Socket::Send` and `Socket::Recv`: the answer of `send` or `recv` when the descriptor is ready in time.
pub after_select : ℤ → SelectResult → ℤ → ℤ
after_select (negsuc n) s answer = negsuc 0
after_select (pos n) ready answer = answer
after_select (pos n) timed_out answer = negsuc 0
after_select (pos n) select_failed answer = negsuc 0

pub send : ℤ → SelectResult → ℤ → ℤ
unfolding after_select
send fd s answer = after_select fd s answer

pub recv : ℤ → SelectResult → ℤ → ℤ
unfolding after_select
recv fd s answer = after_select fd s answer
