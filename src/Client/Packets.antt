-- ===== src/Client/Packets.antt =====
-- How the servers cut the received bytes into packets: `GetHeader` and `GetPacket` together
-- (src/ChatUser.cpp, src/ClientChatServer.cpp and src/ClientServer.cpp all begin with them).
use thunder_chat.Prelude.{
  ℕ, ◌+◌, ◌≤◌, ◌<◌, ◌≡◌, refl, ap, sym, ◌∙◌, subst, some, List, ◌++◌, arith, length, take, drop,
  length-append, length-drop, inl, ◌⊎◌, length-replicate, take-append_length, drop-append_length,
}
use native.Mathlib.Decide.{dec_lt}
use thunder_chat.Prelude.Int.{pos, negsuc}
use thunder_chat.Ring.{write_block_start}
use thunder_chat.CircularBuff.{CircularBuff, get, get_used_size, get_total_size, get_header}
use thunder_chat.CircularBuff.Bounds.{IsValid, contents, length-contents}
use thunder_chat.CircularBuff.Header.{get_header_lem, get_header_block}
use thunder_chat.CircularBuff.Read.{
  GetOutcome, not_enough, taken, past_end, spare_byte, get_total, get_not_enough,
}
use thunder_chat.Packet.{PacketHeader, header_of, max_pdu_size, pdu_header_size}
use thunder_chat.Packet.Layout.{header_of-take, header_of-append}
use thunder_chat.Client.{Client, next_packet, get_packet, empty_packet}
use thunder_chat.Client.Commands.{get_packet_stored, get_packet_short}

-- A valid buffer whose contents do not go round the end of the array.
pub record IsStraight (b : CircularBuff) : Type 0 where
  pub valid : IsValid b
  pub straight : b.head + get_used_size b ≤ get_total_size b

-- The first packet of a stream: as long as its header says, and not longer than `T_PACKET`.
pub record IsPacket (packet : List ℕ) : Type 0 where
  pub says : (header_of packet).length + pdu_header_size ≡ length packet
  pub fits : length packet ≤ max_pdu_size

-- The packet as it lies in `T_PACKET`.
abbrev pub in_packet : List ℕ → List ℕ
in_packet packet = packet ++ drop (length packet) empty_packet

pub record TakesPacket (c : Client) (packet rest : List ℕ) : Type 0 where
  pub left : CircularBuff
  pub result_eq :
      next_packet c ≡ some (header_of packet, pos 0, in_packet packet, record c { buffer = left })
  pub straight : IsStraight left
  pub no_further : left.head + get_used_size left ≤ c.buffer.head + get_used_size c.buffer
  pub same_size : get_total_size left ≡ get_total_size c.buffer
  pub remaining : contents left ≡ rest

module _ (c : Client) (packet rest : List ℕ) (s : IsStraight c.buffer) (p : IsPacket packet)
    (first : contents c.buffer ≡ packet ++ rest) where
  held : length packet + length rest ≡ c.buffer.use_size
  held = sym (length-append packet rest) ∙ sym (ap length first) ∙ length-contents c.buffer

  header_read : get_header c.buffer ≡ some (take 4 (contents c.buffer))
  unfolding get_used_size get_total_size
  header_read =
      get_header_lem c.buffer s.valid (omega (arith, held, p.says))
        (inl (omega (arith, held, p.says, s.straight)))

  header_eq : header_of (take 4 (contents c.buffer)) ≡ header_of packet
  header_eq =
      header_of-take (contents c.buffer)
      ∙ ap header_of first
      ∙ header_of-append packet rest (omega (arith, p.says))

  packet_stored :
      (b' : CircularBuff)
      → get c.buffer (length packet)
        ≡ some (pos (length packet), take (length packet) (contents c.buffer), b')
      → get_packet c empty_packet (length packet)
        ≡ some (pos 0, in_packet packet, record c { buffer = b' })
  packet_stored b' e =
      get_packet_stored c empty_packet packet (length packet) b'
        (e ∙ ap (λ l. some (pos (length packet), l, b')) first_bytes) room
      ∙ ap (λ l. some (pos 0, l, record c { buffer = b' }))
          (write_block_start 0 empty_packet packet room)
    where
      first_bytes : take (length packet) (contents c.buffer) ≡ packet
      first_bytes = ap (take (length packet)) first ∙ take-append_length packet rest

      room : length packet ≤ length empty_packet
      room = subst (λ k. length packet ≤ k) (sym (length-replicate {A = ℕ} max_pdu_size 0)) p.fits

  packet_taken : GetOutcome c.buffer (length packet) → TakesPacket c packet rest
  unfolding next_packet get_used_size get_total_size
  packet_taken (not_enough few e) = absurd (omega (arith, held))
  packet_taken (taken b' _ _ e v left h size) = record {
    left = b';
    result_eq = rw header_read (rw header_eq (rw p.says (rw (packet_stored b' e) refl)));
    straight = record {
      valid = v;
      straight = ground (
        arith,
        h,
        size,
        s.straight,
        v.use_in,
        length-contents b',
        ap length left,
        length-drop (length packet) (contents c.buffer),
        length-contents c.buffer,
        held,
      );
    };
    no_further = ground (
      arith,
      h,
      size,
      s.straight,
      v.use_in,
      length-contents b',
      ap length left,
      length-drop (length packet) (contents c.buffer),
      length-contents c.buffer,
      held,
    );
    same_size = size;
    remaining = left ∙ ap (drop (length packet)) first ∙ drop-append_length packet rest;
  }
  packet_taken (past_end _ wrong far e) = absurd (omega (arith, held, s.straight))
  packet_taken (spare_byte _ wrong at_end e) = absurd (omega (arith, held, s.straight))

-- In a buffer that is valid and does not go round, whose contents begin with a packet, `GetHeader` and
-- `GetPacket` take exactly that packet off: it lies in `T_PACKET` followed by zeros, and the buffer keeps
-- its size and the bytes after the packet, does not go round, and reaches no further into the array.
pub next_packet_whole :
    (c : Client) (packet rest : List ℕ)
    → IsStraight c.buffer
    → IsPacket packet
    → contents c.buffer ≡ packet ++ rest
    → TakesPacket c packet rest
next_packet_whole c packet rest s p first =
    packet_taken c packet rest s p first (get_total c.buffer (length packet) s.valid)

-- The bytes received are fewer than a header, or than the packet that their header announces.
abbrev pub IsPartial : List ℕ → Type 0
IsPartial bytes =
    (length bytes < pdu_header_size) ⊎ (length bytes < (header_of bytes).length + pdu_header_size)

-- `GetPacket` finds too few bytes and changes nothing.
pub record FindsTooFew (c : Client) : Type 0 where
  pub header : PacketHeader
  pub result_eq : next_packet c ≡ some (header, negsuc 0, empty_packet, c)

finds_too_few :
    (c : Client) (l : List ℕ)
    → get_header c.buffer ≡ some l
    → get_used_size c.buffer < (header_of l).length + pdu_header_size
    → FindsTooFew c
unfolding next_packet
finds_too_few c l e few = record {
  header = header_of l;
  result_eq = rw e (
      rw
        (get_packet_short c empty_packet ((header_of l).length + pdu_header_size)
          (get_not_enough c.buffer _ few))
        refl);
}

-- In a buffer that is valid and does not go round, with room for a header before the end of the array,
-- a part of a packet stays where it is: `GetPacket` returns -1 and nothing changes.
pub next_packet_partial :
    (c : Client)
    → IsStraight c.buffer
    → c.buffer.head + pdu_header_size ≤ get_total_size c.buffer
    → IsPartial (contents c.buffer)
    → FindsTooFew c
unfolding get_used_size get_total_size
next_packet_partial c s room part = elim (dec_lt c.buffer.use_size 4) [
  | yes few ↦ finds_too_few c _ (get_header_block c.buffer s.valid room) (omega arith)
  | no some_there ↦ finds_too_few c _ (get_header_lem c.buffer s.valid (omega arith) (inl room)) (
      subst (λ h. c.buffer.use_size < h.length + 4) (sym (header_of-take (contents c.buffer)))
        (omega (arith, part, length-contents c.buffer)))
]
