-- ===== src/Socket/Transfers.antt =====
-- What the loops of src/Socket.cpp have moved when they end, for every sequence of system call results.
use thunder_chat.Prelude.{
  ℕ, suc, zero, ◌+◌, ◌≤◌, ◌≡◌, refl, ap, ap₂, sym, ◌∙◌, ◌≢◌, List, [], ◌∷◌, ◌++◌, length, take,
  drop, ◌==◌, arith, append_assoc, append-nil, take-append-drop, length-append, length-drop,
  take-length, Bool-cases, inl, inr, ==_iff,
}
use thunder_chat.Prelude.Int.{pos, negsuc}
use thunder_chat.Kernel.{
  ReadResult, got, ended, WriteResult, took, write_failed, eintr, Chunk, concat, reads,
}
use thunder_chat.Socket.{Transfer, returned, waiting, write_loop, write_fd, read_loop, read}

-- What a `Write` of `buffer` has done: sent it all, given up, or sent a part and waits.
pub data Sends (buffer : List ℕ) : Transfer → Type 0 where
  all_sent : {t : Transfer} → t ≡ returned (pos (length buffer)) buffer → Sends buffer t
  gave_up :
      {t : Transfer} (sent unsent : List ℕ)
      → buffer ≡ sent ++ unsent
      → unsent ≢ []
      → t ≡ returned (negsuc 0) sent
      → Sends buffer t
  still_sending :
      {t : Transfer} (sent unsent : List ℕ)
      → buffer ≡ sent ++ unsent
      → unsent ≢ []
      → t ≡ waiting sent
      → Sends buffer t

write_loop-Sends :
    (rs : List WriteResult) (buffer rest sent : List ℕ)
    → buffer ≡ sent ++ rest
    → Sends buffer (write_loop rs (length buffer) rest sent)
unfolding write_loop
write_loop-Sends rs buffer [] sent e =
    all_sent (ap (returned (pos (length buffer))) (sym (e ∙ append-nil sent)))
write_loop-Sends [] buffer (x ∷ rest) sent e = still_sending sent (x ∷ rest) e (λ n. cc) refl
write_loop-Sends (took k ∷ rs) buffer (x ∷ rest) sent e =
    write_loop-Sends rs buffer (drop k (x ∷ rest)) (sent ++ take k (x ∷ rest))
      (e ∙ ap (◌++◌ sent) (sym (take-append-drop k (x ∷ rest))) ∙ sym (append_assoc sent _ _))
write_loop-Sends (write_failed err ∷ rs) buffer (x ∷ rest) sent e =
    elim (Bool-cases (err == eintr)) [
      | inl again ↦ rw again (write_loop-Sends rs buffer (x ∷ rest) sent e)
      | inr stop ↦ rw stop (gave_up sent (x ∷ rest) e (λ n. cc) refl)
    ]

-- Whatever `write` answers, `Write` ends in one of three ways: it returns the number of bytes of the
-- buffer and has sent exactly the buffer, in order; or it returns -1 after a proper prefix of it; or it
-- has sent a proper prefix and waits for `write`.
pub write_fd-Sends : (rs : List WriteResult) (buffer : List ℕ) → Sends buffer (write_fd rs buffer)
unfolding write_fd
write_fd-Sends rs buffer = write_loop-Sends rs buffer buffer [] refl

-- How much the results let through, if no failure but EINTR is among them.
pub data LetsThrough : ℕ → List WriteResult → Type 0 where
  nothing : LetsThrough 0 []
  some_bytes :
      {n : ℕ} {rs : List WriteResult} (k : ℕ) → LetsThrough n rs → LetsThrough (k + n) (took k ∷ rs)
  interrupted :
      {n e : ℕ} {rs : List WriteResult}
      → e ≡ eintr
      → LetsThrough n rs
      → LetsThrough n (write_failed e ∷ rs)

write_loop_complete :
    (buffer : List ℕ) {rs : List WriteResult} {m : ℕ}
    → LetsThrough m rs
    → (rest sent : List ℕ) → buffer ≡ sent ++ rest
    → length rest ≤ m
    → write_loop rs (length buffer) rest sent ≡ returned (pos (length buffer)) buffer
unfolding write_loop
write_loop_complete buffer l [] sent e h =
    ap (returned (pos (length buffer))) (sym (e ∙ append-nil sent))
write_loop_complete buffer nothing (x ∷ rest) sent e h = absurd (omega arith)
write_loop_complete buffer (some_bytes {rs = rs} k l) (x ∷ rest) sent e h =
    write_loop_complete buffer l (drop k (x ∷ rest)) (sent ++ take k (x ∷ rest))
      (e ∙ ap (◌++◌ sent) (sym (take-append-drop k (x ∷ rest))) ∙ sym (append_assoc sent _ _))
      (omega (arith, length-drop k (x ∷ rest)))
write_loop_complete buffer (interrupted {e = err} i l) (x ∷ rest) sent e h =
    rw ((==_iff err eintr).1 i) (write_loop_complete buffer l (x ∷ rest) sent e h)

-- Reads that bring `n` bytes together make `Read` of `n` bytes return `n` and store exactly them.
read_loop-reads :
    (cs : List Chunk) (rs : List ReadResult) (n : ℕ) (stored : List ℕ)
    → read_loop (reads cs rs) (length (concat cs) + n) stored ≡ read_loop rs n (stored ++ concat cs)
unfolding read_loop reads concat
read_loop-reads [] rs n stored = ap₂ (read_loop rs) (omega arith) (sym (append-nil stored))
read_loop-reads ((x, xs) ∷ cs) rs n stored =
    ap (λ k. read_loop (got x xs ∷ reads cs rs) k stored) (plus (length (xs ++ concat cs)))
    ∙ ap₂ (read_loop (reads cs rs)) (omega (arith, length-append xs (concat cs))) (
        ap (λ l. stored ++ (x ∷ l))
          (take-length xs (length (xs ++ concat cs) + n)
            (omega (arith, length-append xs (concat cs)))))
    ∙ read_loop-reads cs rs n (stored ++ (x ∷ xs))
    ∙ ap (read_loop rs n) (append_assoc stored (x ∷ xs) (concat cs))
  where
    plus : (a : ℕ) → suc a + n ≡ suc (a + n)
    plus a = omega arith

-- If every failure of `write` is EINTR and together it takes as many bytes as the buffer has, `Write`
-- returns that number and has sent exactly the buffer.
pub write_fd_complete :
    (rs : List WriteResult) (buffer : List ℕ) (m : ℕ)
    → LetsThrough m rs
    → length buffer ≤ m
    → write_fd rs buffer ≡ returned (pos (length buffer)) buffer
unfolding write_fd
write_fd_complete rs buffer m l h = write_loop_complete buffer l buffer [] refl h

-- `Read` of `n` bytes returns `n` once the reads have brought that many, and what it has stored is
-- those bytes in order; if the stream ends before, it returns how many there were and has stored them.
pub read-reads :
    (cs : List Chunk) (rs : List ReadResult) (errno n : ℕ)
    → (read (reads cs rs) (length (concat cs)) ≡ returned (pos (length (concat cs))) (concat cs))
      × (read (reads cs (ended errno ∷ rs)) (length (concat cs) + n)
          ≡ returned (pos (length (concat cs))) (concat cs))
unfolding read read_loop
read-reads cs rs errno n = (
  ap (λ k. read_loop (reads cs rs) k []) (omega arith) ∙ read_loop-reads cs rs 0 [],
  read_loop-reads cs (ended errno ∷ rs) n [] ∙ at_end n,
)
  where
    at_end :
        (k : ℕ)
        → read_loop (ended errno ∷ rs) k (concat cs)
          ≡ returned (pos (length (concat cs))) (concat cs)
    at_end zero = refl
    at_end (suc k) = refl
