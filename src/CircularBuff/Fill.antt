-- ===== src/CircularBuff/Fill.antt =====
-- `Put(Socket *)` of src/CircularBuff.cpp, the edge-triggered version that the builds select: it reads
-- the socket until `read` answers EAGAIN, and puts what it has read into the buffer at once.
use thunder_chat.Prelude.{
  ℕ, suc, ◌+◌, ◌≤◌, ◌<◌, ◌≡◌, refl, ap, ◌∙◌, sym, Option, none, some, List, [], ◌∷◌, ◌++◌, length,
  arith, ap₂, ltb, leb, ◌==◌, if◌then◌else◌, append_assoc, append-nil, length-append, take-length,
  lt→not_leb, le→not_ltb, false, ◌≢◌,
}
use thunder_chat.Prelude.Int.{ℤ, pos, negsuc}
use thunder_chat.Kernel.{ReadResult, got, ended, read_failed, eagain, Chunk, concat, reads}
use thunder_chat.CircularBuff.{CircularBuff, put, get_free_size}
use thunder_chat.CircularBuff.Bounds.{IsValid, contents}
use thunder_chat.CircularBuff.Write.{PutOutcome, refused, appended, put_total}

-- USER_CLOSE (include/Socket.h)
abbrev pub user_close : ℤ
user_close = negsuc 99

-- `sizeof(buf_in)`
abbrev pub buf_in_size : ℕ
buf_in_size = 1024000

-- `sizeof(readbuf)`, which is what each `read` asks for
abbrev pub readbuf_size : ℕ
readbuf_size = 256

-- How the loop ends: with the bytes of `buf_in`, by `return USER_CLOSE`, in a copy outside `buf_in`,
-- or not at all with the results given.
pub data Drained : Type 0 where
  drained : List ℕ → Drained
  closed : Drained
  overrun : Drained
  unfinished : Drained

-- `while(1)`: `buf_in` holds its first `sizen` bytes; the bytes after them are zero and not read.
pub drain : List ReadResult → List ℕ → ℕ → Drained
drain [] buf_in sizen = unfinished
drain (read_failed e ∷ rs) buf_in sizen = if eagain == e then drained buf_in else closed
drain (ended errno ∷ rs) buf_in sizen = if eagain == errno then drained buf_in else closed
drain (got x xs ∷ rs) buf_in sizen =
    let readn = suc (length xs) in
    let more = drain rs (buf_in ++ (x ∷ xs)) (sizen + readn) in
    if leb buf_in_size sizen
    then closed
    else if ltb buf_in_size (sizen + readn)
    then overrun
    else more

-- How `Put(Socket *)` ends: it returns, copies outside an array, or waits for more results.
pub data Filled : Type 0 where
  returned : ℤ → CircularBuff → Filled
  outside : Filled
  waiting : Filled

after_put : Option (ℤ × CircularBuff) → Filled
after_put none = outside
after_put (some (code, b)) = returned code b

after_drain : CircularBuff → Drained → Filled
unfolding after_put
after_drain b (drained []) = returned user_close b
after_drain b (drained (x ∷ xs)) = after_put (put b (x ∷ xs) (suc (length xs)))
after_drain b closed = returned user_close b
after_drain b overrun = outside
after_drain b unfinished = waiting

-- `available` is what `Available()` answers.
pub put_socket : CircularBuff → ℕ → List ReadResult → Filled
unfolding after_drain get_free_size
put_socket b available rs =
    if available == 0
    then returned user_close b
    else if ltb (get_free_size b) available
    then returned user_close b
    else after_drain b (drain rs [] 0)

-- The loop collects chunks that fit into `buf_in`, whatever comes after them.
drain-reads :
    (cs : List Chunk) (last : List ReadResult) (buf_in : List ℕ) (sizen : ℕ)
    → sizen + length (concat cs) ≤ buf_in_size
    → drain (reads cs last) buf_in sizen
      ≡ drain last (buf_in ++ concat cs) (sizen + length (concat cs))
unfolding drain reads concat
drain-reads [] last buf_in sizen room = ap₂ (drain last) (sym (append-nil buf_in)) (omega arith)
drain-reads ((x, xs) ∷ cs) last buf_in sizen room =
    rw (open_in, small)
      (drain-reads cs last (buf_in ++ (x ∷ xs)) (sizen + suc (length xs))
          (omega (arith, length-append xs (concat cs)))
        ∙ ap₂ (drain last) (append_assoc buf_in (x ∷ xs) (concat cs))
            (omega (arith, length-append xs (concat cs))))
  where
    open_in : leb buf_in_size sizen ≡ false
    open_in = lt→not_leb buf_in_size sizen (omega (arith, length-append xs (concat cs)))

    small : ltb buf_in_size (sizen + suc (length xs)) ≡ false
    small = le→not_ltb buf_in_size _ (omega (arith, length-append xs (concat cs)))

after_drain-put :
    (b : CircularBuff) (l : List ℕ)
    → 0 < length l
    → after_drain b (drained l) ≡ after_put (put b l (length l))
unfolding after_drain
after_drain-put b [] h = absurd (omega arith)
after_drain-put b (x ∷ xs) h = refl

put_socket_open :
    (b : CircularBuff) (available : ℕ) (rs : List ReadResult)
    → 0 < available
    → available ≤ get_free_size b
    → put_socket b available rs ≡ after_drain b (drain rs [] 0)
unfolding put_socket
put_socket_open b available rs some_there fits = ground arith

-- The bytes that the loop has collected when the socket has no more, or has ended.
drain_until :
    (cs : List Chunk) (r : ReadResult) (rs : List ReadResult) (out : Drained)
    → length (concat cs) ≤ buf_in_size
    → ((n : ℕ) → drain (r ∷ rs) (concat cs) n ≡ out)
    → drain (reads cs (r ∷ rs)) [] 0 ≡ out
drain_until cs r rs out room last =
    drain-reads cs (r ∷ rs) [] 0 (omega arith) ∙ last (0 + length (concat cs))

-- What `Put(Socket *)` makes of the bytes of `cs`, read up to EAGAIN.
pub data FillOutcome (b : CircularBuff) (cs : List Chunk) (result : Filled) : Type 0 where
  dropped :
      get_free_size b < length (concat cs)
      → result ≡ returned (negsuc 0) b
      → FillOutcome b cs result
  filled :
      (b' : CircularBuff)
      → length (concat cs) ≤ get_free_size b
      → result ≡ returned (pos (length (concat cs))) b'
      → IsValid b'
      → contents b' ≡ contents b ++ concat cs
      → b'.head ≡ b.head
      → b'.buffer_size ≡ b.buffer_size
      → FillOutcome b cs result

put_filled :
    (b : CircularBuff) (cs : List Chunk) (result : Filled)
    → result ≡ after_put (put b (concat cs) (length (concat cs)))
    → PutOutcome b (concat cs) (length (concat cs))
    → FillOutcome b cs result
unfolding after_put
put_filled b cs result e (refused over p) = dropped over (e ∙ ap after_put p)
put_filled b cs result e (appended b' fits p v c h s) =
    filled b' fits (e ∙ ap after_put p) v
      (c ∙ ap (◌++◌ (contents b)) (take-length (concat cs) (length (concat cs)) (omega arith))) h s

-- In a valid buffer, when `Available()` answers a number from 1 up to the free space and the reads bring
-- some bytes, at most the size of `buf_in`, before EAGAIN: the call returns their number and they are
-- appended to the contents of a valid buffer with the same head and size, if they fit into the free space; if they do not, it
-- returns -1, the buffer is as it was, and the bytes read are lost.
pub fill_total :
    (b : CircularBuff) (available : ℕ) (cs : List Chunk) (rs : List ReadResult)
    → IsValid b
    → 0 < available
    → available ≤ get_free_size b
    → 0 < length (concat cs)
    → length (concat cs) ≤ buf_in_size
    → FillOutcome b cs (put_socket b available (reads cs (read_failed eagain ∷ rs)))
unfolding drain
fill_total b available cs rs v some_there fits some_read room =
    put_filled b cs _
      (put_socket_open b available _ some_there fits
        ∙ ap (after_drain b)
            (drain_until cs (read_failed eagain) rs (drained (concat cs)) room (λ n. refl))
        ∙ after_drain-put b (concat cs) some_read)
      (put_total b (concat cs) (length (concat cs)) v (omega arith))

-- When the peer closes the connection after some bytes, and `errno` is not EAGAIN, the call returns
-- USER_CLOSE and the bytes do not reach the buffer.
pub fill_ended :
    (b : CircularBuff) (available errno : ℕ) (cs : List Chunk) (rs : List ReadResult)
    → 0 < available
    → available ≤ get_free_size b
    → length (concat cs) ≤ buf_in_size
    → eagain ≢ errno
    → put_socket b available (reads cs (ended errno ∷ rs)) ≡ returned user_close b
unfolding drain after_drain
fill_ended b available errno cs rs some_there fits room other =
    put_socket_open b available _ some_there fits
    ∙ ap (after_drain b) (drain_until cs (ended errno) rs closed room (λ n. ground arith))

-- The fault: when less than the size of `buf_in` has been read and the next read, of at most the size of
-- `readbuf`, brings more than is left of it, the call copies outside `buf_in`.
pub fill_overrun :
    (b : CircularBuff) (available x : ℕ) (xs : List ℕ) (cs : List Chunk) (rs : List ReadResult)
    → 0 < available
    → available ≤ get_free_size b
    → suc (length xs) ≤ readbuf_size
    → length (concat cs) < buf_in_size
    → buf_in_size < length (concat cs) + suc (length xs)
    → put_socket b available (reads cs (got x xs ∷ rs)) ≡ outside
unfolding drain after_drain
fill_overrun b available x xs cs rs some_there fits small room over =
    put_socket_open b available _ some_there fits
    ∙ ap (after_drain b) (drain-reads cs (got x xs ∷ rs) [] 0 (omega arith) ∙ last)
  where
    last : drain (got x xs ∷ rs) (concat cs) (0 + length (concat cs)) ≡ overrun
    last = ground arith
