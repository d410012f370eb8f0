-- ===== src/CircularBuff.antt =====
-- src/CircularBuff.cpp and include/CircularBuff.h: the receive buffer of a client. A block of memory is
-- the list of its bytes, and `none` is a `memcpy` outside one. The `int` fields are natural numbers:
-- `IsValid` of CircularBuff/Bounds.antt, which all operations keep, bounds them by the buffer's size.
pub mod Bounds
pub mod Write
pub mod Read
pub mod Header
pub mod RoundTrip
pub mod Fill
pub mod Grow
use thunder_chat.Prelude.{
  ℕ, ◌+◌, ◌-◌, ◌<◌, Option, none, some, List, [], ◌++◌, ltb, leb, ◌==◌, if◌then◌else◌, take, drop,
  replicate, ◌>>=◌, length,
}
use thunder_chat.Prelude.Int.{ℤ, pos, negsuc}
use thunder_chat.Ring.{load, store}

abbrev pub cir_bufsize : ℕ
cir_bufsize = 1024000

-- `sizeof(PACKET_HEADER)`
abbrev pub packet_header_size : ℕ
packet_header_size = 4

-- RECV_NOT_ENOUGH (include/Include.h), -2
abbrev pub recv_not_enough : ℤ
recv_not_enough = negsuc 1

pub record CircularBuff : Type 0 where
  pub head : ℕ
  pub tail : ℕ
  pub buffer_size : ℕ
  pub use_size : ℕ
  pub buffer : List ℕ

-- The constructor, with `NewBuffer`: `memory` is what the `size + 1` fresh bytes hold.
pub create : ℕ → List ℕ → CircularBuff
create size memory = record {
  head = 0;
  tail = 0;
  buffer_size = size;
  use_size = 0;
  buffer = memory;
}

-- `InitBuffer` and `BufferClear`: the byte past the end keeps its value.
pub init_buffer : CircularBuff → CircularBuff
init_buffer b = record b {
  head = 0;
  tail = 0;
  use_size = 0;
  buffer = replicate b.buffer_size 0 ++ drop b.buffer_size b.buffer;
}

unfoldable pub get_total_size : CircularBuff → ℕ
get_total_size b = b.buffer_size

unfoldable pub get_used_size : CircularBuff → ℕ
get_used_size b = b.use_size

unfoldable pub get_free_size : CircularBuff → ℕ
get_free_size b = b.buffer_size - b.use_size

-- The bytes that `GetHeader` and `Get` copy out: `n` bytes from `head`, in one or two pieces.
pub read_out : CircularBuff → ℕ → Option (List ℕ)
read_out b n =
    let right = b.buffer_size - b.head in
    if leb b.head (b.tail + n)
    then load b.buffer b.head n
    else if leb n right
    then load b.buffer b.head n
    else (load b.buffer b.head right >>= λ left.
        load b.buffer 0 (n - right) >>= λ rest. some (left ++ rest))

pub get_header : CircularBuff → Option (List ℕ)
unfolding read_out
get_header b = read_out b packet_header_size

-- `if (size <= index) index -= size;`
abbrev pub go_round : ℕ → ℕ → ℕ
go_round size index = if leb size index then index - size else index

-- `Get`: the return code, the bytes stored through the pointer, and the buffer.
pub get : CircularBuff → ℕ → Option (ℤ × List ℕ × CircularBuff)
unfolding get_used_size
get b n =
    if ltb (get_used_size b) n
    then some (recv_not_enough, [], b)
    else (read_out b n >>= λ bytes. some (
      pos n,
      bytes,
      record b { head = go_round b.buffer_size (b.head + n); use_size = b.use_size - n },
    ))

-- The copies of `Put`, from the `n` bytes of `src`.
pub copy_in : CircularBuff → List ℕ → ℕ → Option (List ℕ)
copy_in b src n =
    let free = b.buffer_size - b.tail in
    if leb b.head (b.tail + n)
    then if b.head == 0
      then (load src 0 n >>= λ bytes. store b.buffer b.tail bytes)
      else if leb n free
      then (load src 0 n >>= λ bytes. store b.buffer b.tail bytes)
      else (load src 0 free >>= λ left. store b.buffer b.tail left >>= λ half.
          load src free (n - free) >>= λ rest. store half 0 rest)
    else (load src 0 n >>= λ bytes. store b.buffer b.tail bytes)

-- `Put(const char *, int)`: the return code and the buffer.
pub put : CircularBuff → List ℕ → ℕ → Option (ℤ × CircularBuff)
unfolding get_free_size
put b src n =
    if ltb (get_free_size b) n
    then some (negsuc 0, b)
    else (copy_in b src n >>= λ stored. some (
      pos n,
      record b {
        buffer = stored;
        tail = go_round b.buffer_size (b.tail + n);
        use_size = b.use_size + n;
      },
    ))

-- `Resize`: `memory` is what the fresh bytes hold.
pub resize : CircularBuff → List ℕ → Option CircularBuff
resize b memory =
    (if leb b.head b.tail
      then (load b.buffer b.head (b.tail - b.head) >>= λ bytes. store memory 0 bytes)
      else (load b.buffer b.head (b.buffer_size - b.head) >>= λ left.
          store memory 0 left >>= λ half.
          if ltb 0 b.tail
          then (load b.buffer 0 b.tail >>= λ rest. store half (b.buffer_size - b.head) rest)
          else some half))
    >>= λ bytes. some (record {
      head = 0;
      tail = b.use_size;
      buffer_size = b.buffer_size + cir_bufsize;
      use_size = b.use_size;
      buffer = bytes;
    })
