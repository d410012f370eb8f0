-- ===== src/Tests/Buffer.antt =====
-- The buffer and the transfers at concrete inputs.
use thunder_chat.Prelude.{
  ℕ, zero, suc, ◌+◌, ◌*◌, length-append, ◌≡◌, refl, List, [], ◌∷◌, arith, length, replicate,
  length-replicate, inl,
}
use thunder_chat.Prelude.Int.{pos}
use thunder_chat.Kernel.{Chunk, got, read_failed, took, write_failed, eagain, eintr, reads, concat}
use thunder_chat.CircularBuff.{get_used_size, get_total_size, get_free_size}
use thunder_chat.CircularBuff.Write.{PutOutcome, put_total}
use thunder_chat.CircularBuff.Read.{GetOutcome, get_total}
use thunder_chat.CircularBuff.Grow.{Grown, resize_total}
use thunder_chat.CircularBuff.RoundTrip.{PassesOn, get-put}
use thunder_chat.CircularBuff.Fill.{FillOutcome, fill_total, fill_overrun, put_socket, outside}
use thunder_chat.Socket.{Transfer, write_fd}
use thunder_chat.Socket.Transfers.{some_bytes, interrupted, nothing, write_fd_complete}
use thunder_chat.Tests.Data.{
  empty_eight, empty_eight-IsValid, three_bytes, three_bytes-IsValid, going_round,
  going_round-IsValid,
}

put_total_example : PutOutcome three_bytes (4 ∷ 5 ∷ []) 2
put_total_example = put_total three_bytes (4 ∷ 5 ∷ []) 2 three_bytes-IsValid (omega arith)

get_total_example : GetOutcome going_round 5
get_total_example = get_total going_round 5 going_round-IsValid

get-put_example : PassesOn empty_eight (4 ∷ 5 ∷ 6 ∷ []) 3
unfolding get_total_size get_used_size
get-put_example =
    get-put empty_eight (4 ∷ 5 ∷ 6 ∷ []) 3 empty_eight-IsValid refl (omega arith)
      (inl (omega arith))

fill_total_example :
    FillOutcome three_bytes
      ((4, 5 ∷ []) ∷ (6, []) ∷ [])
      (put_socket three_bytes 3 (reads ((4, 5 ∷ []) ∷ (6, []) ∷ []) (read_failed eagain ∷ [])))
unfolding get_free_size concat
fill_total_example =
    fill_total three_bytes 3 ((4, 5 ∷ []) ∷ (6, []) ∷ []) [] three_bytes-IsValid (omega arith)
      (omega arith) (omega arith) (omega arith)

-- Full reads of 256 bytes: 3999 of them and one of 200 leave 56 bytes of `buf_in`.
unfoldable full_reads : ℕ → List Chunk
full_reads zero = (66, replicate 199 66) ∷ []
full_reads (suc n) = (65, replicate 255 65) ∷ full_reads n

length-full_reads : (n : ℕ) → length (concat (full_reads n)) ≡ 256 * n + 200
unfolding full_reads concat
length-full_reads zero = refl
length-full_reads (suc n) = omega (
  arith,
  length-append (replicate 255 65) (concat (full_reads n)),
  length-replicate {A = ℕ} 255 65,
  length-full_reads n,
)

fill_overrun_example :
    put_socket empty_eight 2 (reads (full_reads 3999) (got 67 (replicate 99 67) ∷ [])) ≡ outside
unfolding get_free_size
fill_overrun_example =
    fill_overrun empty_eight 2 67 (replicate 99 67) (full_reads 3999) [] (omega arith) (omega arith)
      (omega arith) (omega (arith, length-full_reads 3999)) (omega (arith, length-full_reads 3999))

write_fd_complete_example :
    write_fd (took 2 ∷ write_failed eintr ∷ took 1 ∷ []) (1 ∷ 2 ∷ 3 ∷ [])
    ≡ Transfer.returned (pos 3) (1 ∷ 2 ∷ 3 ∷ [])
write_fd_complete_example =
    write_fd_complete (took 2 ∷ write_failed eintr ∷ took 1 ∷ []) (1 ∷ 2 ∷ 3 ∷ []) 3
      (some_bytes 2 (interrupted refl (some_bytes 1 nothing))) (omega arith)

unfoldable fresh_memory : List ℕ
fresh_memory = replicate 1024009 1

length-fresh_memory : length fresh_memory ≡ 1024009
unfolding fresh_memory
length-fresh_memory = length-replicate {A = ℕ} 1024009 1

resize_total_example : Grown three_bytes fresh_memory
unfolding get_total_size
resize_total_example = resize_total three_bytes fresh_memory three_bytes-IsValid length-fresh_memory
