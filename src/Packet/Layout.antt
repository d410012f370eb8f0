-- ===== src/Packet/Layout.antt =====
-- The layout of include/Packet.h read back: what is stored in a packet is what its fields say.
use thunder_chat.Prelude.{
  ℕ, zero, suc, ◌+◌, ◌*◌, ◌/◌, ◌^◌, ◌≤◌, ◌<◌, ◌≡◌, refl, ap, List, [], ◌∷◌, ◌++◌, take, arith,
  length,
}
use native.Mathlib.Nat.{pow-suc}
use thunder_chat.Packet.{
  le_bytes, le_value, PacketHeader, header_bytes, header_of, chat_packet, cmd_chat_broadcast,
}

pub length-le_bytes : (k n : ℕ) → length (le_bytes k n) ≡ k
unfolding le_bytes
length-le_bytes zero n = refl
length-le_bytes (suc k) n = ap suc (length-le_bytes k (n / 256))

-- The bytes of an integer that fits are read back as that integer.
pub le_value-le_bytes : (k n : ℕ) → n < 256 ^ k → le_value (le_bytes k n) ≡ n
unfolding le_bytes le_value
le_value-le_bytes zero n h = omega arith
le_value-le_bytes (suc k) n h =
    let h' : n < 256 ^ k * 256 = rw (pow-suc) at h in
    omega (arith, le_value-le_bytes k (n / 256) (omega arith))

pub header_of-header_bytes :
    (h : PacketHeader) (rest : List ℕ)
    → h.command < 2 ^ 16
    → h.length < 2 ^ 16
    → header_of (header_bytes h ++ rest) ≡ h
unfolding header_bytes header_of le_bytes le_value
header_of-header_bytes h rest c l = ground arith

pub length-chat_packet :
    (uniq_id size : ℕ) (message : List ℕ)
    → length (chat_packet uniq_id message size) ≡ length message + 12
unfolding chat_packet header_bytes le_bytes
length-chat_packet uniq_id size message = omega arith

pub header_of-chat_packet :
    (uniq_id size : ℕ) (message : List ℕ)
    → size + 8 < 2 ^ 16
    → header_of (chat_packet uniq_id message size)
      ≡ record { command = cmd_chat_broadcast; length = size + 8 }
unfolding chat_packet
header_of-chat_packet uniq_id size message h =
    header_of-header_bytes (record { command = cmd_chat_broadcast; length = size + 8 }) _
      (omega arith) h

-- A header is in the first four bytes.
pub header_of-take : (xs : List ℕ) → header_of (take 4 xs) ≡ header_of xs
unfolding header_of
header_of-take [] = refl
header_of-take (a ∷ []) = refl
header_of-take (a ∷ b ∷ []) = refl
header_of-take (a ∷ b ∷ c ∷ []) = refl
header_of-take (a ∷ b ∷ c ∷ d ∷ xs) = refl

pub header_of-append : (xs ys : List ℕ) → 4 ≤ length xs → header_of (xs ++ ys) ≡ header_of xs
unfolding header_of
header_of-append [] ys h = absurd (omega arith)
header_of-append (a ∷ []) ys h = absurd (omega arith)
header_of-append (a ∷ b ∷ []) ys h = absurd (omega arith)
header_of-append (a ∷ b ∷ c ∷ []) ys h = absurd (omega arith)
header_of-append (a ∷ b ∷ c ∷ d ∷ xs) ys h = refl
