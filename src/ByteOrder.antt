-- ===== src/ByteOrder.antt =====
-- src/NPUtil.cpp: GetByteOrder, Get2Byte and Get4Byte, on a host of either byte order. `none` is a read
-- outside the data.
pub mod Network
use thunder_chat.Prelude.{
  ℕ, zero, suc, ◌+◌, ◌-◌, ◌*◌, ◌^◌, Option, none, some, List, [], ◌∷◌, ◌==◌, ltb, if◌then◌else◌,
  ◌>>=◌, get_or,
}
use thunder_chat.Prelude.Int.{ℤ, pos, negsuc}
use thunder_chat.Packet.{le_bytes, le_value}

-- The order in which the host keeps the bytes of an integer.
pub data Host : Type 0 where
  little_endian : Host
  big_endian : Host

unfoldable reverse : List ℕ → List ℕ → List ℕ
reverse [] done = done
reverse (x ∷ xs) done = reverse xs (x ∷ done)

-- The member `chars` of a union whose member `integral` of `k` bytes is set to `n`.
unfoldable pub chars_of : Host → ℕ → ℕ → List ℕ
unfolding reverse
chars_of little_endian k n = le_bytes k n
chars_of big_endian k n = reverse (le_bytes k n) []

-- The member `integral`, without a sign, when `chars` is set.
unfoldable pub integral_of : Host → List ℕ → ℕ
unfolding reverse
integral_of little_endian chars = le_value chars
integral_of big_endian chars = le_value (reverse chars [])

-- `GetByteOrder`: 0 for little endian. The result is kept in `m_iEqualNetworkByteOrder`.
unfoldable pub get_byte_order : Host → ℕ
get_byte_order host = if get_or (chars_of host 2 258) 0 0 == 2 then 0 else 1

-- `data[pos]`
unfoldable pub byte_at : List ℕ → ℕ → Option ℕ
byte_at [] i = none
byte_at (x ∷ xs) zero = some x
byte_at (x ∷ xs) (suc i) = byte_at xs i

-- The `int` that has the bytes of an `unsigned int`.
unfoldable pub int_of : ℕ → ℤ
int_of n = if ltb n (2 ^ 31) then pos n else negsuc (2 ^ 32 - 1 - n)

-- `Get4Byte`
unfoldable pub get_4_byte : Host → List ℕ → ℕ → Option ℤ
get_4_byte host data_bytes i = byte_at data_bytes i >>= λ a. byte_at data_bytes (i + 1) >>= λ b.
    byte_at data_bytes (i + 2) >>= λ c. byte_at data_bytes (i + 3) >>= λ d. some (
      int_of (
        integral_of host
          (if get_byte_order host == 0 then d ∷ c ∷ b ∷ a ∷ [] else a ∷ b ∷ c ∷ d ∷ [])))

-- `Get2Byte`
unfoldable pub get_2_byte : Host → List ℕ → ℕ → Option ℕ
get_2_byte host data_bytes i = byte_at data_bytes i >>= λ a. byte_at data_bytes (i + 1) >>= λ b.
    some (integral_of host (if get_byte_order host == 0 then b ∷ a ∷ [] else a ∷ b ∷ []))
