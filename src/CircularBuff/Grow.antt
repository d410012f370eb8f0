-- ===== src/CircularBuff/Grow.antt =====
-- `Resize` of src/CircularBuff.cpp, which moves the contents into a larger array.
use native.Mathlib.Decide.{dec_lt}
use thunder_chat.Prelude.{
  ℕ, ◌+◌, ◌-◌, ◌%◌, ◌≤◌, ◌<◌, ◌≡◌, refl, ap, ◌∙◌, sym, some, List, ◌++◌, take, drop, length, arith,
  ap₂, le→leb, lt→not_leb, lt→ltb, le→not_ltb, length-take_le, length-drop, append-nil,
  length-append,
}
use thunder_chat.Ring.{write_block, window, window_split, window_block, length-write_block}
use thunder_chat.CircularBuff.{
  CircularBuff, go_round, resize, cir_bufsize, get_used_size, get_total_size,
}
use thunder_chat.CircularBuff.Bounds.{IsValid, contents, go_round-mod, tail_in, window-extend}

-- How `Resize` of a valid buffer ends: in a larger valid buffer with the same contents; or, from a full
-- one, in a valid buffer that holds as many bytes of the fresh memory.
pub data Grown (b : CircularBuff) (memory : List ℕ) : Type 0 where
  moved :
      (b' : CircularBuff)
      → get_used_size b < get_total_size b
      → resize b memory ≡ some b'
      → IsValid b'
      → contents b' ≡ contents b
      → get_total_size b' ≡ get_total_size b + cir_bufsize
      → Grown b memory
  lost :
      (b' : CircularBuff)
      → get_used_size b ≡ get_total_size b
      → resize b memory ≡ some b'
      → IsValid b'
      → contents b' ≡ take (get_used_size b) memory
      → Grown b memory

module _ (b : CircularBuff) (memory : List ℕ) (v : IsValid b)
    (fresh : length memory ≡ b.buffer_size + cir_bufsize + 1) where
  -- The buffer after `Resize`, given its array.
  abbrev grown : List ℕ → CircularBuff
  grown bytes = record {
    head = 0;
    tail = b.use_size;
    buffer_size = b.buffer_size + cir_bufsize;
    use_size = b.use_size;
    buffer = bytes;
  }

  grown-IsValid : (bytes : List ℕ) → length bytes ≡ length memory → IsValid (grown bytes)
  grown-IsValid bytes e = record {
    storage = e ∙ fresh;
    head_in = omega (arith, v.head_in);
    use_in = omega (arith, v.use_in);
    tail_at = ground (arith, v.use_in);
  }

  -- A block written at the start of the new array.
  first_block :
      (l : List ℕ)
      → length l ≤ b.buffer_size
      → window 0 (write_block memory 0 l) (b.buffer_size + cir_bufsize) 0 (length l) ≡ l
  first_block l fits =
      ap (window 0 (write_block memory 0 l) (b.buffer_size + cir_bufsize) 0) (omega arith)
      ∙ window-extend memory (b.buffer_size + cir_bufsize) 0 0 0 l fresh (omega arith) (omega arith)
          (ground arith) (omega arith)

  -- And another one behind it.
  second_block :
      (l r : List ℕ)
      → length l + length r ≤ b.buffer_size
      → window 0
          (write_block (write_block memory 0 l) (length l) r)
          (b.buffer_size + cir_bufsize)
          0
          (length l + length r)
        ≡ l ++ r
  second_block l r fits =
      window-extend (write_block memory 0 l) (b.buffer_size + cir_bufsize) 0 (length l) (length l) r
        (length-write_block memory 0 l ∙ fresh) (omega arith) (omega arith) (ground arith)
        (omega arith)
      ∙ ap (λ w. w ++ r) (first_block l (omega arith))

  abbrev middle : List ℕ
  middle = take (b.tail - b.head) (drop b.head b.buffer)

  abbrev to_end : List ℕ
  to_end = take (b.buffer_size - b.head) (drop b.head b.buffer)

  abbrev from_start : List ℕ
  from_start = take b.tail (drop 0 b.buffer)

  length-middle : b.head ≤ b.tail → length middle ≡ b.tail - b.head
  length-middle h =
      length-take_le (b.tail - b.head) (drop b.head b.buffer)
        (omega (arith, length-drop b.head b.buffer, v.storage, tail_in b v))

  length-to_end : length to_end ≡ b.buffer_size - b.head
  length-to_end =
      length-take_le (b.buffer_size - b.head) (drop b.head b.buffer)
        (omega (arith, length-drop b.head b.buffer, v.storage))

  length-from_start : length from_start ≡ b.tail
  length-from_start =
      length-take_le b.tail (drop 0 b.buffer) (omega (arith, v.storage, tail_in b v))

  resize_straight : b.head ≤ b.tail → resize b memory ≡ some (grown (write_block memory 0 middle))
  unfolding resize
  resize_straight h = rw (le→leb b.head b.tail h) (
      rw
        (le→leb (b.head + (b.tail - b.head)) (length b.buffer)
          (omega (arith, v.storage, tail_in b v)))
        (rw
          (le→leb (0 + length middle) (length memory)
            (omega (arith, length-middle h, fresh, tail_in b v)))
          refl))

  resize_round :
      b.tail < b.head
      → 0 < b.tail
      → resize b memory
        ≡ some
            (grown (write_block (write_block memory 0 to_end) (b.buffer_size - b.head) from_start))
  unfolding resize
  resize_round h some_there = rw (lt→not_leb b.head b.tail h) (
      rw
        (le→leb (b.head + (b.buffer_size - b.head)) (length b.buffer)
          (omega (arith, v.storage, v.head_in)))
        (rw (le→leb (0 + length to_end) (length memory) (omega (arith, length-to_end, fresh))) (
          rw (lt→ltb 0 b.tail some_there) (
            rw (le→leb (0 + b.tail) (length b.buffer) (omega (arith, v.storage, tail_in b v))) (
              rw
                (le→leb (b.buffer_size - b.head + length from_start)
                  (length (write_block memory 0 to_end))
                  (omega (
                    arith,
                    length-from_start,
                    fresh,
                    length-write_block memory 0 to_end,
                    h,
                    v.head_in,
                  )))
                refl)))))

  resize-to_end :
      b.tail < b.head → b.tail ≡ 0 → resize b memory ≡ some (grown (write_block memory 0 to_end))
  unfolding resize
  resize-to_end h none_there = rw (lt→not_leb b.head b.tail h) (
      rw
        (le→leb (b.head + (b.buffer_size - b.head)) (length b.buffer)
          (omega (arith, v.storage, v.head_in)))
        (rw (le→leb (0 + length to_end) (length memory) (omega (arith, length-to_end, fresh)))
          (rw (le→not_ltb 0 b.tail (omega (arith, none_there))) refl)))

  wrapped_at : 0 ≡ (b.head + (b.buffer_size - b.head)) % b.buffer_size
  wrapped_at =
      let e : go_round b.buffer_size (b.head + (b.buffer_size - b.head)) ≡ 0 =
        ground (arith, v.head_in) in
      sym e ∙ go_round-mod b.buffer_size b.head (b.buffer_size - b.head) v.head_in (omega arith)

  contents_straight : b.head ≤ b.tail → b.use_size < b.buffer_size → contents b ≡ middle
  contents_straight h room =
      window_block 0 b.buffer b.buffer_size b.use_size b.head (omega (arith, v.storage))
        (ground (arith, v.tail_at, h, room, v.head_in))
      ∙ ap (λ n. take n (drop b.head b.buffer)) (ground (arith, v.tail_at, h, room, v.head_in))

  held_round : b.tail < b.head → b.use_size ≡ b.buffer_size - b.head + b.tail
  held_round h = ground (arith, v.tail_at, v.head_in, v.use_in, h)

  contents_round : b.tail < b.head → contents b ≡ to_end ++ from_start
  contents_round h =
      ap (window 0 b.buffer b.buffer_size b.head) (held_round h)
      ∙ window_split 0 b.buffer b.buffer_size (b.buffer_size - b.head) b.tail b.head 0 v.head_in
          wrapped_at
      ∙ ap₂ ◌++◌
          (window_block 0 b.buffer b.buffer_size (b.buffer_size - b.head) b.head
            (omega (arith, v.storage)) (omega (arith, v.head_in)))
          (window_block 0 b.buffer b.buffer_size b.tail 0 (omega (arith, v.storage))
            (omega (arith, tail_in b v)))

  contents-grown :
      (bytes l : List ℕ)
      → length l ≡ b.use_size
      → window 0 bytes (b.buffer_size + cir_bufsize) 0 (length l) ≡ l
      → contents (grown bytes) ≡ l
  contents-grown bytes l e w = ap (window 0 bytes (b.buffer_size + cir_bufsize) 0) (sym e) ∙ w

  Grown-straight : b.head ≤ b.tail → b.use_size < b.buffer_size → Grown b memory
  unfolding get_used_size get_total_size
  Grown-straight h room =
      moved (grown (write_block memory 0 middle)) room (resize_straight h)
        (grown-IsValid (write_block memory 0 middle) (length-write_block memory 0 middle))
        (contents-grown (write_block memory 0 middle) middle length_all
            (first_block middle (omega (arith, length_all, room)))
          ∙ sym (contents_straight h room))
        refl
    where
      length_all : length middle ≡ b.use_size
      length_all = length-middle h ∙ ground (arith, v.tail_at, h, room, v.head_in)

  Grown-to_end : b.tail < b.head → b.tail ≡ 0 → Grown b memory
  unfolding get_used_size get_total_size
  Grown-to_end h none_there =
      moved (grown (write_block memory 0 to_end)) (omega (arith, held_round h, h, v.head_in))
        (resize-to_end h none_there)
        (grown-IsValid (write_block memory 0 to_end) (length-write_block memory 0 to_end))
        (contents-grown (write_block memory 0 to_end) to_end
            (omega (arith, length-to_end, held_round h, none_there))
            (first_block to_end (omega (arith, length-to_end)))
          ∙ sym (
              contents_round h
              ∙ ap (λ n. to_end ++ take n (drop 0 b.buffer)) none_there
              ∙ append-nil to_end))
        refl

  Grown-round : b.tail < b.head → 0 < b.tail → Grown b memory
  unfolding get_used_size get_total_size
  Grown-round h some_there =
      moved (grown two_blocks) (omega (arith, held_round h, h, v.head_in))
        (resize_round h some_there
          ∙ ap (λ i. some (grown (write_block (write_block memory 0 to_end) i from_start)))
              (sym length-to_end))
        (grown-IsValid two_blocks (
          length-write_block (write_block memory 0 to_end) (length to_end) from_start
          ∙ length-write_block memory 0 to_end))
        (contents-grown two_blocks (to_end ++ from_start)
            (omega (arith, length-append to_end from_start, lengths))
            (ap (window 0 two_blocks (b.buffer_size + cir_bufsize) 0)
                (length-append to_end from_start)
              ∙ second_block to_end from_start (omega (arith, lengths, v.use_in)))
          ∙ sym (contents_round h))
        refl
    where
      two_blocks : List ℕ
      two_blocks = write_block (write_block memory 0 to_end) (length to_end) from_start

      lengths : length to_end + length from_start ≡ b.use_size
      lengths = omega (arith, length-to_end, length-from_start, held_round h)

  Grown-full : b.use_size ≡ b.buffer_size → Grown b memory
  unfolding get_used_size get_total_size
  Grown-full full =
      lost (grown memory) full
        (resize_straight (omega (arith, same_place))
          ∙ ap (λ n. some (grown (write_block memory 0 (take n (drop b.head b.buffer)))))
              nothing_between)
        (grown-IsValid memory refl)
        (window_block 0 memory (b.buffer_size + cir_bufsize) b.use_size 0 (omega (arith, fresh))
          (omega (arith, v.use_in)))
    where
      same_place : b.tail ≡ b.head
      same_place = ground (arith, v.tail_at, full, v.head_in)

      nothing_between : b.tail - b.head ≡ 0
      nothing_between = omega (arith, same_place)

-- `Resize` of a valid buffer, with fresh memory of the right size, makes no copy outside an array and
-- leaves a valid buffer. If the old one was not full, the new one is CIR_BUFSIZE bytes larger and holds the
-- same contents; if it was full, nothing is copied and the new one holds fresh memory instead.
pub resize_total :
    (b : CircularBuff) (memory : List ℕ)
    → IsValid b
    → length memory ≡ get_total_size b + cir_bufsize + 1
    → Grown b memory
unfolding get_total_size
resize_total b memory v fresh = elim (dec_lt b.use_size b.buffer_size) [
  | no full ↦ Grown-full b memory v fresh (omega (arith, v.use_in))
  | yes room ↦ elim (dec_lt b.tail b.head) [
    | no straight ↦ Grown-straight b memory v fresh (omega arith) room
    | yes round ↦ elim (dec_lt 0 b.tail) [
      | no none_there ↦ Grown-to_end b memory v fresh round (omega arith)
      | yes some_there ↦ Grown-round b memory v fresh round some_there
    ]
  ]
]
