-- ===== src/CircularBuff/Bounds.antt =====
-- The invariant of src/CircularBuff.cpp and the bytes that a buffer holds.
use thunder_chat.Prelude.{
  ℕ, zero, ◌+◌, ◌%◌, ◌≤◌, ◌<◌, ◌≡◌, refl, ◌∙◌, List, [], ◌++◌, drop, replicate, length, arith,
  length-append, length-replicate, length-drop,
}
use thunder_chat.Ring.{window, mod_cases, length-window, write_block, window-write_block}
use thunder_chat.CircularBuff.{CircularBuff, create, init_buffer, go_round}

pub record IsValid (b : CircularBuff) : Type 0 where
  pub storage : length b.buffer ≡ b.buffer_size + 1
  pub head_in : b.head < b.buffer_size
  pub use_in : b.use_size ≤ b.buffer_size
  pub tail_at : b.tail ≡ go_round b.buffer_size (b.head + b.use_size)

-- The bytes received and not yet read, oldest first.
abbrev pub contents : CircularBuff → List ℕ
contents b = window 0 b.buffer b.buffer_size b.head b.use_size

pub length-contents : (b : CircularBuff) → length (contents b) ≡ b.use_size
length-contents b = length-window 0 b.buffer b.buffer_size b.head b.use_size

pub tail_in : (b : CircularBuff) → IsValid b → b.tail < b.buffer_size
tail_in b v = ground arith

pub go_round-mod : (size h n : ℕ) → h < size → n ≤ size → go_round size (h + n) ≡ (h + n) % size
go_round-mod size h n hh hn = ground (arith, mod_cases size h n hh hn)

-- A block written at the tail, up to the end of the array, extends the contents.
pub window-extend :
    (buf : List ℕ) (size h n i : ℕ) (src : List ℕ)
    → length buf ≡ size + 1
    → h < size
    → n + length src ≤ size
    → i ≡ go_round size (h + n)
    → i + length src ≤ size
    → window 0 (write_block buf i src) size h (n + length src) ≡ window 0 buf size h n ++ src
window-extend buf size h n i src len hh room e fits =
    window-write_block 0 buf size n h i src (omega arith) hh room
      (e ∙ go_round-mod size h n hh (omega arith)) fits

create-IsValid :
    (size : ℕ) (memory : List ℕ)
    → 0 < size
    → length memory ≡ size + 1
    → IsValid (create size memory) × (contents (create size memory) ≡ [])
unfolding create
create-IsValid size memory p h =
    (record { storage = h; head_in = p; use_in = omega arith; tail_at = ground arith }, refl)

-- `InitBuffer` empties a valid buffer and keeps it valid.
init_buffer-IsValid :
    (b : CircularBuff) → IsValid b → IsValid (init_buffer b) × (contents (init_buffer b) ≡ [])
unfolding init_buffer
init_buffer-IsValid b v = (
  record {
    storage =
        length-append (replicate b.buffer_size 0) (drop b.buffer_size b.buffer)
        ∙ omega (
          arith,
          length-replicate b.buffer_size (zero),
          length-drop b.buffer_size b.buffer,
          v.storage,
        );
    head_in = omega (arith, v.head_in);
    use_in = omega arith;
    tail_at = ground (arith, v.head_in);
  },
  refl,
)
