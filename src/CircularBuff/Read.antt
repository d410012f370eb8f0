-- ===== src/CircularBuff/Read.antt =====
-- `Get` of src/CircularBuff.cpp. Its first test, `m_iHead <= m_iTail + length`, is
-- meant to find the buffers whose contents do not go round the end of the array.
use native.Mathlib.Decide.{dec_lt}
use thunder_chat.Prelude.{
  ℕ, ◌+◌, ◌-◌, ◌*◌, ◌%◌, ◌≤◌, ◌<◌, ◌≡◌, refl, ap, ◌∙◌, sym, none, some, List, [], ◌++◌, take, drop,
  length, arith, ap₂, ◌⊎◌, inl, inr, drop-append_length, take-append_length,
}
use thunder_chat.Prelude.Int.{pos}
use thunder_chat.Ring.{window, window_split, window_block, length-window}
use thunder_chat.CircularBuff.{
  CircularBuff, go_round, get, get_used_size, get_total_size, read_out, recv_not_enough,
}
use thunder_chat.CircularBuff.Bounds.{IsValid, contents, go_round-mod}

-- The `n` oldest bytes end before the end of the array, or the test sees that they go round it.
abbrev pub ReadsRight : CircularBuff → ℕ → Type 0
ReadsRight b n = (b.head + n ≤ b.buffer_size) ⊎ (b.tail + n < b.head)

-- The `n` bytes from `head`, going round.
abbrev pub oldest : CircularBuff → ℕ → List ℕ
oldest b n = window 0 b.buffer b.buffer_size b.head n

module _ (b : CircularBuff) (v : IsValid b) (n : ℕ) (held : n ≤ b.buffer_size) where
  pub read_out_block :
      b.head + n ≤ b.buffer_size → read_out b n ≡ some (take n (drop b.head b.buffer))
  unfolding read_out
  read_out_block fits = ground (arith, v.storage)

  abbrev right : ℕ
  right = b.buffer_size - b.head

  read_out_round :
      b.tail + n < b.head
      → b.buffer_size < b.head + n
      → read_out b n ≡ some (take right (drop b.head b.buffer) ++ take (n - right) b.buffer)
  unfolding read_out
  read_out_round small over = ground (arith, v.storage, v.head_in)

  read_out_outside : b.head ≤ b.tail + n → b.buffer_size + 1 < b.head + n → read_out b n ≡ none
  unfolding read_out
  read_out_outside wrong over = ground (arith, v.storage)

  wrapped : 0 ≡ (b.head + right) % b.buffer_size
  wrapped =
      let e : go_round b.buffer_size (b.head + right) ≡ 0 = ground (arith, v.head_in) in
      sym e ∙ go_round-mod b.buffer_size b.head right v.head_in (omega arith)

  pub read_out-oldest : ReadsRight b n → read_out b n ≡ some (oldest b n)
  read_out-oldest ok = elim (dec_lt b.buffer_size (b.head + n)) [
    | yes over ↦
        read_out_round (omega (arith, ok)) over
        ∙ ap some (
            ap₂ ◌++◌
              (sym (
                window_block 0 b.buffer b.buffer_size right b.head (omega (arith, v.storage))
                  (omega (arith, v.head_in))))
              (sym (
                window_block 0 b.buffer b.buffer_size (n - right) 0 (omega (arith, v.storage))
                  (omega (arith, v.head_in))))
            ∙ sym
                (window_split 0 b.buffer b.buffer_size right (n - right) b.head 0 v.head_in wrapped)
            ∙ ap (window 0 b.buffer b.buffer_size b.head) (omega (arith, v.head_in)))
    | no fits ↦
        read_out_block (omega arith)
        ∙ ap some (
            sym (
              window_block 0 b.buffer b.buffer_size n b.head (omega (arith, v.storage))
                (omega arith)))
  ]

-- What `Get` leaves when it has read `n` bytes.
abbrev pub advance : CircularBuff → ℕ → CircularBuff
advance b n = record b { head = go_round b.buffer_size (b.head + n); use_size = b.use_size - n }

module _ (b : CircularBuff) (v : IsValid b) (n : ℕ) (held : n ≤ b.use_size) where
  get_read :
      {bytes : List ℕ} → read_out b n ≡ some bytes → get b n ≡ some (pos n, bytes, advance b n)
  unfolding get
  get_read e = ground arith

  get_unread : read_out b n ≡ none → get b n ≡ none
  unfolding get
  get_unread e = ground arith

  advance-IsValid : IsValid (advance b n)
  advance-IsValid = record {
    storage = v.storage;
    head_in = ground (arith, v.head_in, v.use_in);
    use_in = omega (arith, v.use_in);
    tail_at = ground (arith, v.head_in, v.use_in, v.tail_at);
  }

  -- The contents are the `n` oldest bytes and then what `advance` leaves.
  contents_split : contents b ≡ oldest b n ++ contents (advance b n)
  contents_split =
      ap (window 0 b.buffer b.buffer_size b.head) (omega arith)
      ∙ window_split 0 b.buffer b.buffer_size n (b.use_size - n) b.head
          (go_round b.buffer_size (b.head + n)) v.head_in
          (go_round-mod b.buffer_size b.head n v.head_in (omega (arith, v.use_in)))

  length-oldest : length (oldest b n) ≡ n
  length-oldest = length-window 0 b.buffer b.buffer_size b.head n

  pub oldest-take : oldest b n ≡ take n (contents b)
  oldest-take =
      sym (take-append_length (oldest b n) (contents (advance b n)))
      ∙ ap₂ take length-oldest (sym contents_split)

  advance-drop : contents (advance b n) ≡ drop n (contents b)
  advance-drop =
      sym (drop-append_length (oldest b n) (contents (advance b n)))
      ∙ ap₂ drop length-oldest (sym contents_split)

-- What `Get` of `n` bytes does to a valid buffer, on all of its outcomes. In the last two the test has
-- taken a block that goes round for one that does not.
pub data GetOutcome (b : CircularBuff) (n : ℕ) : Type 0 where
  not_enough : get_used_size b < n → get b n ≡ some (recv_not_enough, [], b) → GetOutcome b n
  taken :
      (b' : CircularBuff)
      → n ≤ get_used_size b
      → ReadsRight b n
      → get b n ≡ some (pos n, take n (contents b), b')
      → IsValid b'
      → contents b' ≡ drop n (contents b)
      → b'.head ≡ go_round b.buffer_size (b.head + n)
      → b'.buffer_size ≡ b.buffer_size
      → GetOutcome b n
  past_end :
      n ≤ get_used_size b
      → b.head ≤ b.tail + n
      → b.buffer_size + 1 < b.head + n
      → get b n ≡ none
      → GetOutcome b n
  spare_byte :
      n ≤ get_used_size b
      → b.head ≤ b.tail + n
      → b.head + n ≡ b.buffer_size + 1
      → get b n ≡ some (pos n, take n (drop b.head b.buffer), advance b n)
      → GetOutcome b n

pub get_not_enough :
    (b : CircularBuff) (n : ℕ) → get_used_size b < n → get b n ≡ some (recv_not_enough, [], b)
unfolding get
get_not_enough b n few = ground arith

spare_read :
    (b : CircularBuff) (n : ℕ)
    → IsValid b
    → b.head ≤ b.tail + n
    → b.head + n ≡ b.buffer_size + 1
    → read_out b n ≡ some (take n (drop b.head b.buffer))
unfolding read_out
spare_read b n v wrong e = ground (arith, v.storage)

pub get_taken :
    (b : CircularBuff) (v : IsValid b) (n : ℕ) → n ≤ b.use_size → ReadsRight b n → GetOutcome b n
unfolding get_used_size
get_taken b v n held ok =
    taken (advance b n) held ok
      (get_read b v n held (read_out-oldest b v n (omega (arith, v.use_in)) ok)
        ∙ ap (λ bytes. some (pos n, bytes, advance b n)) (oldest-take b v n held))
      (advance-IsValid b v n held) (advance-drop b v n held) refl refl

get_astray :
    (b : CircularBuff) (v : IsValid b) (n : ℕ)
    → n ≤ b.use_size
    → b.head ≤ b.tail + n
    → b.buffer_size < b.head + n
    → GetOutcome b n
unfolding get_used_size
get_astray b v n held wrong over = elim (dec_lt (b.buffer_size + 1) (b.head + n)) [
  | yes far ↦
      past_end held wrong far
        (get_unread b v n held (read_out_outside b v n (omega (arith, v.use_in)) wrong far))
  | no near ↦
      spare_byte held wrong (omega arith)
        (get_read b v n held (spare_read b n v wrong (omega arith)))
]

-- `Get` of `n` bytes from a valid buffer either finds fewer and returns RECV_NOT_ENOUGH, changing
-- nothing; or, when the `n` oldest bytes end before the end of the array or `m_iTail + n < m_iHead`,
-- returns exactly these bytes in order, keeps the others, the validity and the size, and moves the head
-- on by `n`; or, when they go round and
-- `m_iHead <= m_iTail + n`, copies past the array, or one byte less and takes the spare byte for data.
pub get_total : (b : CircularBuff) (n : ℕ) → IsValid b → GetOutcome b n
unfolding get_used_size
get_total b n v = elim (dec_lt b.use_size n) [
  | yes few ↦ not_enough few (get_not_enough b n few)
  | no held ↦ elim (dec_lt b.buffer_size (b.head + n)) [
    | yes over ↦ elim (dec_lt (b.tail + n) b.head) [
      | yes small ↦ get_taken b v n (omega arith) (inr small)
      | no wrong ↦ get_astray b v n (omega arith) (omega arith) over
    ]
    | no fits ↦ get_taken b v n (omega arith) (inl (omega arith))
  ]
]

-- The fault: from a valid buffer that holds `n` bytes, which go round the end of the array by more than
-- the spare byte while `m_iHead <= m_iTail + n`, `Get` copies from outside the array.
pub get_outside :
    (b : CircularBuff) (n : ℕ)
    → IsValid b
    → n ≤ get_used_size b
    → b.head ≤ b.tail + n
    → get_total_size b + 1 < b.head + n
    → get b n ≡ none
unfolding get_used_size get_total_size
get_outside b n v held wrong far =
    get_unread b v n held (read_out_outside b v n (omega (arith, v.use_in)) wrong far)

-- A buffer that holds `n` bytes and no more is read right, if they end before the end of the array or
-- are fewer than half its size.
pub ReadsRight-short :
    (b : CircularBuff) (n : ℕ)
    → IsValid b
    → b.use_size ≡ n
    → (b.head + n ≤ b.buffer_size) ⊎ (2 * n < b.buffer_size)
    → ReadsRight b n
ReadsRight-short b n v used short = elim (dec_lt b.buffer_size (b.head + n)) [
  | yes over ↦ inr (ground (arith, v.tail_at, v.head_in, used, short))
  | no held ↦ inl (omega arith)
]
