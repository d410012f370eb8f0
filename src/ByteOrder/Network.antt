-- ===== src/ByteOrder/Network.antt =====
-- What Get2Byte and Get4Byte of src/NPUtil.cpp read on hosts of both byte orders.
use thunder_chat.Prelude.{
  ℕ, zero, suc, ◌+◌, ◌*◌, ◌≡◌, refl, ap, some, List, [], ◌∷◌, ◌++◌, arith, length, if◌then◌else◌,
  ◌==◌,
}
use thunder_chat.Packet.{le_bytes, le_value}
use thunder_chat.ByteOrder.{
  Host, little_endian, big_endian, chars_of, integral_of, get_byte_order, byte_at, int_of,
  get_4_byte, get_2_byte,
}

byte_at-append :
    (xs ys : List ℕ) (i j : ℕ) → j ≡ length xs + i → byte_at (xs ++ ys) j ≡ byte_at ys i
unfolding byte_at
byte_at-append [] ys i j h = ap (byte_at ys) (omega (arith, h))
byte_at-append (x ∷ xs) ys i zero h = absurd (omega (arith, h))
byte_at-append (x ∷ xs) ys i (suc j) h = byte_at-append xs ys i j (omega (arith, h))

get_byte_order-little : get_byte_order little_endian ≡ 0
unfolding get_byte_order chars_of le_bytes
get_byte_order-little = refl

get_byte_order-big : get_byte_order big_endian ≡ 1
unfolding get_byte_order chars_of le_bytes
get_byte_order-big = refl

integral_of-four :
    (host : Host) (a b c d : ℕ)
    → integral_of host (if get_byte_order host == 0 then d ∷ c ∷ b ∷ a ∷ [] else a ∷ b ∷ c ∷ d ∷ [])
      ≡ ((a * 256 + b) * 256 + c) * 256 + d
unfolding integral_of le_value
integral_of-four little_endian a b c d = rw get_byte_order-little (omega arith)
integral_of-four big_endian a b c d = rw get_byte_order-big (omega arith)

integral_of-two :
    (host : Host) (a b : ℕ)
    → integral_of host (if get_byte_order host == 0 then b ∷ a ∷ [] else a ∷ b ∷ []) ≡ a * 256 + b
unfolding integral_of le_value
integral_of-two little_endian a b = rw get_byte_order-little (omega arith)
integral_of-two big_endian a b = rw get_byte_order-big (omega arith)

-- On a host of either byte order, four bytes of the data, wherever they stand, are read as the `int` that
-- they are in network order, and the first two as the `unsigned short`.
pub get_4_byte_network :
    (host : Host) (before after : List ℕ) (a b c d : ℕ)
    → (get_4_byte host (before ++ (a ∷ b ∷ c ∷ d ∷ after)) (length before)
        ≡ some (int_of (((a * 256 + b) * 256 + c) * 256 + d)))
      × (get_2_byte host (before ++ (a ∷ b ∷ c ∷ d ∷ after)) (length before) ≡ some (a * 256 + b))
unfolding get_4_byte get_2_byte byte_at
get_4_byte_network host before after a b c d =
    let bytes = a ∷ b ∷ c ∷ d ∷ after in
    let first : byte_at (before ++ bytes) (length before) ≡ some a =
      byte_at-append before bytes 0 _ (omega arith) in
    let second : byte_at (before ++ bytes) (length before + 1) ≡ some b =
      byte_at-append before bytes 1 _ (omega arith) in
    let third : byte_at (before ++ bytes) (length before + 2) ≡ some c =
      byte_at-append before bytes 2 _ (omega arith) in
    let fourth : byte_at (before ++ bytes) (length before + 3) ≡ some d =
      byte_at-append before bytes 3 _ (omega arith) in
    (
      rw (first, second, third, fourth, integral_of-four host a b c d) refl,
      rw (first, second, integral_of-two host a b) refl,
    )
