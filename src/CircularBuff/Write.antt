-- ===== src/CircularBuff/Write.antt =====
-- `Put` of src/CircularBuff.cpp appends what it is given, or refuses it whole.
use thunder_chat.Prelude.{
  ℕ, ◌+◌, ◌-◌, ◌≤◌, ◌<◌, ◌≡◌, refl, ap, ◌∙◌, sym, some, List, ◌++◌, take, drop, length, arith,
  subst, length-take_le, take-add, length-drop, append_assoc,
}
use native.Mathlib.Decide.{dec_lt}
use thunder_chat.Prelude.Int.{pos, negsuc}
use thunder_chat.Ring.{window, write_block, length-write_block}
use thunder_chat.CircularBuff.{CircularBuff, go_round, copy_in, put, get_free_size}
use thunder_chat.CircularBuff.Bounds.{IsValid, contents, tail_in, window-extend}

put_refused :
    (b : CircularBuff) (src : List ℕ) (n : ℕ)
    → b.buffer_size - b.use_size < n
    → put b src n ≡ some (negsuc 0, b)
unfolding put
put_refused b src n over = ground arith

module _ (b : CircularBuff) (v : IsValid b) (src : List ℕ) (n : ℕ) (given : n ≤ length src)
    (room : n ≤ b.buffer_size - b.use_size) where
  copy_in_once :
      b.tail + n ≤ b.buffer_size → copy_in b src n ≡ some (write_block b.buffer b.tail (take n src))
  unfolding copy_in
  copy_in_once fits = ground (arith, length-take_le n src given)

  abbrev free : ℕ
  free = b.buffer_size - b.tail

  copy_in_twice :
      b.buffer_size < b.tail + n
      → copy_in b src n
        ≡ some (
            write_block
              (write_block b.buffer b.tail (take free src))
              0
              (take (n - free) (drop free src)))
  unfolding copy_in
  copy_in_twice over = ground (
    arith,
    length-take_le free src,
    length-take_le (n - free) (drop free src),
    length-drop free src,
    length-write_block b.buffer b.tail (take free src),
  )

  -- What `Put` leaves when it accepts the block.
  stored : List ℕ → CircularBuff
  stored bytes = record b {
    buffer = bytes;
    tail = go_round b.buffer_size (b.tail + n);
    use_size = b.use_size + n;
  }

  put_copied :
      (bytes : List ℕ) → copy_in b src n ≡ some bytes → put b src n ≡ some (pos n, stored bytes)
  unfolding put stored
  put_copied bytes e = ground (arith, v.use_in)

  stored-IsValid : (bytes : List ℕ) → length bytes ≡ length b.buffer → IsValid (stored bytes)
  unfolding stored
  stored-IsValid bytes e = record {
    storage = e ∙ v.storage;
    head_in = v.head_in;
    use_in = omega (arith, v.use_in);
    tail_at = ground (arith, v.head_in, v.use_in, v.tail_at);
  }

  once :
      b.tail + n ≤ b.buffer_size
      → contents (stored (write_block b.buffer b.tail (take n src))) ≡ contents b ++ take n src
  unfolding stored
  once fits =
      subst
        (λ k.
          window 0 (write_block b.buffer b.tail (take n src)) b.buffer_size b.head (b.use_size + k)
          ≡ contents b ++ take n src)
        len
        (window-extend b.buffer b.buffer_size b.head b.use_size b.tail (take n src) v.storage
          v.head_in (omega (arith, len, v.use_in)) v.tail_at (omega (arith, len)))
    where
      len : length (take n src) ≡ n
      len = length-take_le n src given

  module _ (over : b.buffer_size < b.tail + n) where
    abbrev left : List ℕ
    left = take free src

    abbrev right : List ℕ
    right = take (n - free) (drop free src)

    abbrev half : List ℕ
    half = write_block b.buffer b.tail left

    length-left : length left ≡ free
    length-left = length-take_le free src (omega (arith, v.use_in))

    length-right : length right ≡ n - free
    length-right = length-take_le (n - free) (drop free src) (omega (arith, length-drop free src))

    left_held : window 0 half b.buffer_size b.head (b.use_size + free) ≡ contents b ++ left
    left_held =
        subst (λ k. window 0 half b.buffer_size b.head (b.use_size + k) ≡ contents b ++ left)
          length-left
          (window-extend b.buffer b.buffer_size b.head b.use_size b.tail left v.storage v.head_in
            (omega (arith, length-left, v.use_in)) v.tail_at
            (omega (arith, length-left, tail_in b v)))

    right_held :
        window 0 (write_block half 0 right) b.buffer_size b.head (b.use_size + free + (n - free))
        ≡ window 0 half b.buffer_size b.head (b.use_size + free) ++ right
    right_held =
        subst
          (λ k.
            window 0 (write_block half 0 right) b.buffer_size b.head (b.use_size + free + k)
            ≡ window 0 half b.buffer_size b.head (b.use_size + free) ++ right)
          length-right
          (window-extend half b.buffer_size b.head (b.use_size + free) 0 right
            (length-write_block b.buffer b.tail left ∙ v.storage) v.head_in
            (omega (arith, length-right, v.use_in)) (ground (arith, v.tail_at, v.head_in, v.use_in))
            (omega (arith, length-right)))

    twice : contents (stored (write_block half 0 right)) ≡ contents b ++ take n src
    unfolding stored
    twice =
        ap (window 0 (write_block half 0 right) b.buffer_size b.head) (omega arith)
        ∙ right_held
        ∙ ap (λ l. l ++ right) left_held
        ∙ append_assoc (contents b) left right
        ∙ ap (◌++◌ (contents b))
            (sym (take-add free (n - free) src) ∙ ap (λ k. take k src) (omega arith))

  -- A block that fits is appended, and the buffer stays valid.
  accepted :
      (bytes : List ℕ) × (put b src n ≡ some (pos n, stored bytes))
      × IsValid (stored bytes)
      × (contents (stored bytes) ≡ contents b ++ take n src)
  accepted = elim (dec_lt b.buffer_size (b.tail + n)) [
    | yes over ↦ (
      write_block (half over) 0 (right over),
      put_copied _ (copy_in_twice over),
      stored-IsValid _ (
          length-write_block (half over) 0 (right over)
          ∙ length-write_block b.buffer b.tail (left over)),
      twice over,
    )
    | no fits ↦ (
      write_block b.buffer b.tail (take n src),
      put_copied _ (copy_in_once (omega arith)),
      stored-IsValid _ (length-write_block b.buffer b.tail (take n src)),
      once (omega arith),
    )
  ]

-- What `Put` does with `n` bytes of `src` in a valid buffer, on both of its outcomes.
pub data PutOutcome (b : CircularBuff) (src : List ℕ) (n : ℕ) : Type 0 where
  refused : get_free_size b < n → put b src n ≡ some (negsuc 0, b) → PutOutcome b src n
  appended :
      (b' : CircularBuff)
      → n ≤ get_free_size b
      → put b src n ≡ some (pos n, b')
      → IsValid b'
      → contents b' ≡ contents b ++ take n src
      → b'.head ≡ b.head
      → b'.buffer_size ≡ b.buffer_size
      → PutOutcome b src n

-- In a valid buffer, `Put` of `n` bytes of a block that has them makes no copy outside an array. If
-- `n` exceeds the free space it returns -1 and changes nothing; otherwise it returns `n`, keeps the
-- buffer valid and its head and size as they were, and appends exactly those bytes to the contents.
pub put_total :
    (b : CircularBuff) (src : List ℕ) (n : ℕ) → IsValid b → n ≤ length src → PutOutcome b src n
unfolding get_free_size stored
put_total b src n v given = elim (dec_lt (b.buffer_size - b.use_size) n) [
  | yes over ↦ refused over (put_refused b src n over)
  | no room ↦
      let (bytes, e, v', c) = accepted b v src n given (omega arith) in
      appended (stored b v src n given (omega arith) bytes) (omega arith) e v' c refl refl
]
