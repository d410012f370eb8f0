-- ===== src/ChatServer/RelayPacket.antt =====
-- The packet of `MessageBroadcastToManagers` (src/ChatServer.cpp), and the part of it that is written.
use thunder_chat.Prelude.{
  ℕ, ◌+◌, ◌-◌, ◌≤◌, ◌≡◌, ap, ◌∙◌, some, List, arith, ◌++◌, length, drop, length-append,
  length-replicate, le→leb, replicate,
}
use thunder_chat.Prelude.Int.{pos}
use thunder_chat.Ring.{load, load_first, write_block-append}
use thunder_chat.Packet.{
  chat_packet, header_of, max_pdu_size, header_bytes, le_bytes, cmd_chat_broadcast,
}
use thunder_chat.Packet.Layout.{header_of-chat_packet, length-chat_packet, header_of-append}
use thunder_chat.Message.{BroadcastMessage}
use thunder_chat.ChatServer.{relay_packet, filled_packet}

-- The `T_PACKET` that relays `bytes`.
abbrev pub relay_block : ℕ → List ℕ → List ℕ
relay_block uniq_id bytes =
    chat_packet uniq_id bytes (length bytes)
    ++ drop (length bytes) (replicate (max_pdu_size - 12) 0)

filled_packet_lem :
    (uniq_id : ℕ) (bytes : List ℕ)
    → length bytes ≤ 4084
    → filled_packet uniq_id (length bytes) bytes ≡ some (relay_block uniq_id bytes)
unfolding filled_packet chat_packet header_bytes le_bytes
filled_packet_lem uniq_id bytes fits =
    rw
      (le→leb (12 + length bytes) (length (before ++ zeros))
        (omega (arith, length-append before zeros, len)))
      (ap some (write_block-append 0 before zeros bytes (omega (arith, len))))
  where
    before : List ℕ
    before =
        header_bytes (record { command = cmd_chat_broadcast; length = length bytes + 8 })
        ++ le_bytes 8 uniq_id

    zeros : List ℕ
    zeros = replicate (max_pdu_size - 12) 0

    len : length zeros ≡ 4084
    len = length-replicate {A = ℕ} 4084 0

pub relay_packet_lem :
    (uniq_id : ℕ) (m : BroadcastMessage) (bytes : List ℕ)
    → m.message_size ≡ pos (length bytes)
    → load m.message 0 (length bytes) ≡ some bytes
    → length bytes ≤ 4084
    → relay_packet uniq_id m ≡ some (relay_block uniq_id bytes)
unfolding relay_packet
relay_packet_lem uniq_id m bytes size body fits =
    simp (size, relay_packet, body, filled_packet_lem uniq_id bytes fits)

header_of-relay_block :
    (uniq_id : ℕ) (bytes : List ℕ)
    → length bytes ≤ 4084
    → header_of (relay_block uniq_id bytes)
      ≡ record { command = cmd_chat_broadcast; length = length bytes + 8 }
header_of-relay_block uniq_id bytes fits =
    header_of-append (chat_packet uniq_id bytes (length bytes)) _
      (omega (arith, length-chat_packet uniq_id (length bytes) bytes))
    ∙ header_of-chat_packet uniq_id (length bytes) bytes (omega arith)

pub relay_block_sent :
    (uniq_id : ℕ) (bytes : List ℕ)
    → length bytes ≤ 4084
    → load (relay_block uniq_id bytes) 0 (4 + (header_of (relay_block uniq_id bytes)).length)
      ≡ some (chat_packet uniq_id bytes (length bytes))
relay_block_sent uniq_id bytes fits =
    ap (load (relay_block uniq_id bytes) 0) (
      ap (λ h. 4 + h.length) (header_of-relay_block uniq_id bytes fits)
      ∙ omega (arith, length-chat_packet uniq_id (length bytes) bytes))
    ∙ load_first (chat_packet uniq_id bytes (length bytes)) _
